-- ===== src/Fold/Digests/Crowding.antt =====
-- A count that needs a second pass over its runs does not end well: the first merged file of the
-- first pass is still there.
use codexfold.Prelude.{
  ℕ, zero, suc, ◌+◌, ◌*◌, ◌≤◌, ◌<◌, ◌≡◌, refl, ap, true, false, List, [], ◌∷◌, ◌++◌, Outcome, ok,
  err, ◌>>=◌, ltb, inl, inr, Bool-cases, length, take, drop, arith, All, length-append, length-drop,
}
use codexfold.Prelude.Bytes.{Bytes}
use codexfold.Fold.Digests.{
  RunName, run_file, merged_file, RunFile, DigestSet, Fault, file_exists, is_present, create_runs,
  merge_digest_runs, names, merge_groups, count_runs, count,
}
use codexfold.Fold.Digests.Merging.{union}
use codexfold.Fold.Digests.Passing.{Sorted, Before, absent, Passes, merge_groups-Passes}
use codexfold.Fold.Digests.Chunking.{Creates, create_runs-Creates}

mul_le : (m n k : ℕ) → m ≤ n → m * k ≤ n * k
mul_le zero n k le = omega arith
mul_le (suc m) zero k le = absurd (omega arith)
mul_le (suc m) (suc n) k le = omega (arith, mul_le m n k (omega arith))

-- Enough files are needed for what they hold.
needed : (w n f : ℕ) → f ≤ n * w → w * w < f → w < n
needed w n f holds many = elim (Bool-cases (ltb w n)) [
  | inl more ↦ ground arith
  | inr few ↦ absurd (omega (arith, mul_le n w w (ground arith)))
]

more_chunks : (size w n f : ℕ) → f ≤ n * size → (w * w) * size < f → w * w < n
more_chunks size w n f holds many = elim (Bool-cases (ltb (w * w) n)) [
  | inl more ↦ ground arith
  | inr few ↦ absurd (omega (arith, mul_le n (w * w) size (ground arith)))
]

at_most_one_each : (size n : ℕ) → 0 < size → n ≤ n * size
at_most_one_each size zero pos = omega arith
at_most_one_each size (suc n) pos = omega (arith, at_most_one_each size n pos)

-- No run holds more than a chunk.
abbrev Holds : ℕ → ℕ → Outcome Fault (List RunFile) → Type 0
Holds size n (err e) = Unit
Holds size n (ok fs) = n ≤ length fs * size

Holds-more :
    (size n m : ℕ) (f : RunFile) (r : Outcome Fault (List RunFile))
    → n ≤ size + m
    → Holds size m r
    → Holds size n (do fs ← r; ok (f ∷ fs))
Holds-more size n m f (err e) le h = tt
Holds-more size n m f (ok fs) le h = omega arith

create_runs-Holds :
    (size fuel : ℕ) (present : List RunName) (index : ℕ) (ds : List Bytes)
    → 0 < size
    → length ds ≤ fuel
    → Holds size (length ds) (create_runs size fuel present index ds)
unfolding create_runs
create_runs-Holds size zero present index [] pos enough = omega arith
create_runs-Holds size zero present index (d ∷ ds) pos enough = absurd (omega arith)
create_runs-Holds size (suc fuel) present index [] pos enough = omega arith
create_runs-Holds size (suc fuel) present index (d ∷ ds) pos enough =
    elim (Bool-cases (is_present (run_file index) present)) [
      | inl there ↦ rw there tt
      | inr free ↦ rw free (
          Holds-more _ _ (length (drop size (d ∷ ds))) _ _
            (omega (arith, length-drop size (d ∷ ds)))
            (create_runs-Holds size fuel (run_file index ∷ present) (suc index) (drop size (d ∷ ds))
              pos (omega (arith, length-drop size (d ∷ ds)))))
    ]

present_before :
    (n : RunName) (fs gs : List RunFile)
    → is_present n (names fs) ≡ true
    → is_present n (names (fs ++ gs)) ≡ true
present_before n [] gs h = ground (arith, h)
present_before n (f ∷ fs) gs h = ground (arith, h, present_before n fs gs)

-- What a pass leaves of so many runs: enough files for them, the first merged one among them.
abbrev Leaves : ℕ → ℕ → Outcome Fault (List RunFile) → Type 0
Leaves width n (err e) = Unit
Leaves width n (ok gs) = (n ≤ length gs * width) × (is_present (merged_file 0) (names gs) ≡ true)

Leaves-less :
    (width n m : ℕ) (r : Outcome Fault (List RunFile)) → n ≤ m → Leaves width m r → Leaves width n r
Leaves-less width n m (err e) le h = tt
Leaves-less width n m (ok gs) le (enough, there) = (omega arith, there)

merge_groups-Leaves :
    (width fuel : ℕ) (next fs : List RunFile)
    → 0 < width
    → length fs ≤ fuel
    → is_present (merged_file 0) (names next) ≡ true
    → Leaves width (length fs + length next * width) (merge_groups width fuel next fs)
unfolding merge_groups
merge_groups-Leaves width zero next [] pos enough there = (omega arith, there)
merge_groups-Leaves width (suc fuel) next [] pos enough there = (omega arith, there)
merge_groups-Leaves width zero next (f ∷ fs) pos enough there = absurd (omega arith)
merge_groups-Leaves width (suc fuel) next (f ∷ fs) pos enough there =
    let merged : RunFile = record {
      name = merged_file (length next);
      digests = merge_digest_runs (take width (f ∷ fs));
    } in
    elim (Bool-cases (is_present (merged_file (length next)) (names (next ++ (f ∷ fs))))) [
      | inl taken ↦ rw taken tt
      | inr free ↦ rw free (
          Leaves-less _ _ _ _
            (omega (
              arith,
              ap (λ n. n * width) (length-append next (merged ∷ [])),
              length-drop width (f ∷ fs),
            ))
            (merge_groups-Leaves width fuel (next ++ (merged ∷ [])) (drop width (f ∷ fs)) pos
              (omega (arith, length-drop width (f ∷ fs)))
              (present_before (merged_file 0) next (merged ∷ []) there)))
    ]

refused :
    (width : ℕ) (gs : List RunFile)
    → is_present (merged_file 0) (names gs) ≡ true
    → merge_groups width (length gs) [] gs ≡ err (file_exists (merged_file 0))
unfolding merge_groups
refused width [] h = ground (arith, h)
refused width (g ∷ gs) h = rw h refl

-- Both passes, where the first one ends well.
second_pass :
    (width fuel n : ℕ) (ds : List Bytes) (m : ℕ) (r : Outcome Fault (List RunFile))
    → width * width < n
    → Leaves width n r
    → Passes m ds r
    → (do next ← r; count_runs width (suc fuel) next) ≡ err (file_exists (merged_file 0))
unfolding count_runs
second_pass width fuel n ds m (err e) many left passed = absurd passed
second_pass width fuel n ds m (ok next) many (enough, there) passed =
    let more : ltb width (length next) ≡ true =
      ground (arith, needed width (length next) n enough many) in
    rw more (ap (λ r. do gs ← r; count_runs width fuel gs) (refused width next there))

first_pass :
    (width fuel : ℕ) (fs : List RunFile)
    → 0 < width
    → length fs ≤ fuel
    → 0 < length fs
    → All (Before 0) fs
    → Leaves width (length fs) (merge_groups width fuel [] fs)
unfolding merge_groups
first_pass width fuel [] pos enough many before = absurd (omega arith)
first_pass width zero (f ∷ fs) pos enough many before = absurd (omega arith)
first_pass width (suc fuel) (f ∷ fs) pos enough many before =
    let merged : RunFile = record {
      name = merged_file 0;
      digests = merge_digest_runs (take width (f ∷ fs));
    } in
    rw (absent 0 (f ∷ fs) before) (
      Leaves-less _ _ _ _ (omega (arith, length-drop width (f ∷ fs))) (
        merge_groups-Leaves width fuel (merged ∷ []) (drop width (f ∷ fs)) pos
          (omega (arith, length-drop width (f ∷ fs))) refl))

count_runs-crowded :
    (width fuel : ℕ) (fs : List RunFile)
    → 0 < width
    → width * width < length fs
    → All Sorted fs
    → All (Before 0) fs
    → count_runs width (suc (suc fuel)) fs ≡ err (file_exists (merged_file 0))
unfolding count_runs
count_runs-crowded width fuel fs pos many sorted before =
    let more : ltb width (length fs) ≡ true = ground (arith, at_most_one_each width width pos) in
    rw more (
      second_pass width fuel (length fs) (union fs) _ (merge_groups width (length fs) [] fs) many
        (first_pass width (length fs) fs pos (omega arith) (omega arith) before)
        (merge_groups-Passes width pos (length fs) [] fs (length fs) (omega arith)
          (omega (arith, at_most_one_each width (length fs) pos)) tt sorted tt before))

of_chunks :
    (width size : ℕ) (ds : List Bytes) (m : ℕ) (r : Outcome Fault (List RunFile))
    → 0 < width
    → (width * width) * size < length ds
    → Holds size (length ds) r
    → Creates m ds r
    → (do fs ← r; count_runs width (suc (length fs)) fs) ≡ err (file_exists (merged_file 0))
of_chunks width size ds m (err e) pos many holds created = absurd created
of_chunks width size ds m (ok []) pos many holds created = absurd (omega arith)
of_chunks width size ds m (ok (f ∷ fs)) pos many holds (sorted, before, has, few) =
    count_runs-crowded width (length fs) (f ∷ fs) pos
      (more_chunks size width (length (f ∷ fs)) (length ds) holds many) sorted before

-- `Count` of a set that is not closed and was not counted before fails if its digests fill more
-- chunks than the square of the number of runs to a merge, both sizes being positive: the second
-- pass finds the first file that it is to create there already, which the first pass wrote.
pub count-crowded :
    (size width : ℕ) (s : DigestSet)
    → s.closed ≡ false
    → 0 < size
    → 0 < width
    → (width * width) * size < length s.input
    → count size width s ≡ err (file_exists (merged_file 0))
unfolding count
count-crowded size width s live pos wide many =
    let ds = s.input in
    rw live (
      of_chunks width size ds (length ds) (create_runs size (length ds) [] 0 ds) wide many
        (create_runs-Holds size (length ds) [] 0 ds pos (omega arith))
        (create_runs-Creates size (length ds) [] 0 ds (length ds) pos (omega arith)
          (at_most_one_each size (length ds) pos) (λ j le. refl)))
