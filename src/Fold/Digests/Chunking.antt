-- ===== src/Fold/Digests/Chunking.antt =====
-- The runs that `createRuns` writes.
use codexfold.Prelude.{
  ℕ, zero, suc, ◌*◌, ◌≤◌, ◌<◌, ◌≡◌, refl, false, List, [], ◌∷◌, ◌++◌, none, Outcome, ok, err, ◌>>=◌,
  length, take, drop, arith, All, length-drop, take-append-drop,
}
use codexfold.Prelude.Bytes.{Bytes}
use codexfold.Fold.Digests.{
  RunName, run_file, RunFile, Fault, is_present, sort, without_repeats, create_runs,
}
use codexfold.Fold.Digests.Order.{
  IsAscending-IsSorted, Same, sort-IsSorted, sort-Same, without_repeats-IsAscending,
  without_repeats-Same,
}
use codexfold.Fold.Digests.Merging.{union, everything}
use codexfold.Fold.Digests.Passing.{Same-trans, Same-append, Same-eq, Sorted, Before}

-- What `createRuns` leaves.
abbrev pub Creates : ℕ → List Bytes → Outcome Fault (List RunFile) → Type 0
Creates m ds (err e) = ⊥
Creates m ds (ok fs) = All Sorted fs × All (Before 0) fs × Same (union fs) ds × (length fs ≤ m)

Creates-more :
    (m : ℕ) (f : RunFile) (ds es whole : List Bytes) (r : Outcome Fault (List RunFile))
    → Sorted f
    → Before 0 f
    → Same f.digests ds
    → ds ++ es ≡ whole
    → Creates m es r
    → Creates (suc m) whole (do fs ← r; ok (f ∷ fs))
Creates-more m f ds es whole (err e) s b same split h = h
Creates-more m f ds es whole (ok fs) s b same split (sorted, before, has, few) = (
  (s, sorted),
  (b, before),
  Same-trans (f.digests ++ union fs) (ds ++ es) whole
      (Same-append f.digests (union fs) ds es same has) (Same-eq _ _ split),
  omega arith,
)

pub create_runs-Creates :
    (size fuel : ℕ) (present : List RunName) (index : ℕ) (ds : List Bytes) (m : ℕ)
    → 0 < size
    → length ds ≤ fuel
    → length ds ≤ m * size
    → ((j : ℕ) → index ≤ j → is_present (run_file j) present ≡ false)
    → Creates m ds (create_runs size fuel present index ds)
unfolding create_runs
create_runs-Creates size zero present index [] m pos enough fits free =
    (tt, tt, (λ e. (λ a. a, λ a. a)), omega arith)
create_runs-Creates size (suc fuel) present index [] m pos enough fits free =
    (tt, tt, (λ e. (λ a. a, λ a. a)), omega arith)
create_runs-Creates size zero present index (d ∷ ds) m pos enough fits free = absurd (omega arith)
create_runs-Creates size (suc fuel) present index (d ∷ ds) zero pos enough fits free =
    absurd (omega arith)
create_runs-Creates size (suc fuel) present index (d ∷ ds) (suc m) pos enough fits free =
    let all = d ∷ ds in
    let chunk = take size all in
    let written = without_repeats none (sort chunk) in
    rw (free index (omega arith)) (
      Creates-more m (record { name = run_file index; digests = written }) chunk (drop size all) all
        _
        (IsAscending-IsSorted written
          (without_repeats-IsAscending none (sort chunk) (sort-IsSorted chunk)
            (everything (sort chunk))).1)
        (λ j le. refl)
        (Same-trans written (sort chunk) chunk (without_repeats-Same (sort chunk))
          (sort-Same chunk))
        (take-append-drop size all)
        (create_runs-Creates size fuel (run_file index ∷ present) (suc index) (drop size all) m pos
          (omega (arith, length-drop size all)) (omega (arith, length-drop size all))
          (λ j le. ground (arith, free j (omega arith)))))
