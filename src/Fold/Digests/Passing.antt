-- ===== src/Fold/Digests/Passing.antt =====
-- A pass of the merge over the runs: sorted runs of the same digests, and fewer of them.
use codexfold.Prelude.{
  ℕ, zero, suc, ◌+◌, ◌*◌, ◌≤◌, ◌<◌, ◌≡◌, inl, inr, refl, sym, ap, subst, ◌∙◌, false, List, [], ◌∷◌,
  ◌++◌, Outcome, ok, err, length, take, drop, arith, All, OneOf, length-append, length-drop,
  All-append, append_assoc, append-nil, take-append-drop,
}
use codexfold.Prelude.Bytes.{Bytes}
use codexfold.Fold.Digests.{
  merged_file, RunFile, Fault, same_name, is_present, merge_digest_runs, names, merge_groups,
}
use codexfold.Fold.Digests.Order.{IsSorted, IsAscending-IsSorted, Same}
use codexfold.Fold.Digests.Merging.{
  OneOf-append_left, OneOf-append_right, OneOf-append_cases, union, AllSorted,
  merge_digest_runs-merges,
}

pub Same-trans : (xs ys zs : List Bytes) → Same xs ys → Same ys zs → Same xs zs
Same-trans xs ys zs h k e = (λ a. (k e).0 ((h e).0 a), λ a. (h e).1 ((k e).1 a))

pub Same-append : (xs ys us vs : List Bytes) → Same xs us → Same ys vs → Same (xs ++ ys) (us ++ vs)
Same-append xs ys us vs h k e = (
  λ a. elim (OneOf-append_cases e xs ys a) [
    | inl left ↦ OneOf-append_left e us vs ((h e).0 left)
    | inr right ↦ OneOf-append_right e us vs ((k e).0 right)
  ],
  λ a. elim (OneOf-append_cases e us vs a) [
    | inl left ↦ OneOf-append_left e xs ys ((h e).1 left)
    | inr right ↦ OneOf-append_right e xs ys ((k e).1 right)
  ],
)

pub Same-eq : (xs ys : List Bytes) → xs ≡ ys → Same xs ys
Same-eq xs ys h e = (λ a. subst (OneOf e) h a, λ a. subst (OneOf e) (sym h) a)

pub union-append : (fs gs : List RunFile) → union (fs ++ gs) ≡ union fs ++ union gs
union-append [] gs = refl
union-append (f ∷ fs) gs =
    ap (◌++◌ f.digests) (union-append fs gs) ∙ sym (append_assoc f.digests (union fs) (union gs))

pub union-groups : (n : ℕ) (fs : List RunFile) → union (take n fs) ++ union (drop n fs) ≡ union fs
union-groups n fs = sym (union-append (take n fs) (drop n fs)) ∙ ap union (take-append-drop n fs)

pub All-take : (P : RunFile → Type 0) (n : ℕ) (fs : List RunFile) → All P fs → All P (take n fs)
All-take P zero fs h = tt
All-take P (suc n) [] h = tt
All-take P (suc n) (f ∷ fs) (h, hs) = (h, All-take P n fs hs)

pub All-drop : (P : RunFile → Type 0) (n : ℕ) (fs : List RunFile) → All P fs → All P (drop n fs)
All-drop P zero fs h = h
All-drop P (suc n) [] h = tt
All-drop P (suc n) (f ∷ fs) (h, hs) = All-drop P n fs hs

pub All-files :
    (P Q : RunFile → Type 0) (fs : List RunFile) → ((f : RunFile) → P f → Q f) → All P fs → All Q fs
All-files P Q [] k h = tt
All-files P Q (f ∷ fs) k (h, hs) = (k f h, All-files P Q fs k hs)

abbrev pub Sorted : RunFile → Type 0
Sorted f = IsSorted f.digests

-- The name of no merged file from the `k`-th on.
abbrev pub Before : ℕ → RunFile → Type 0
Before k f = (j : ℕ) → k ≤ j → same_name (merged_file j) f.name ≡ false

pub absent :
    (k : ℕ) (fs : List RunFile) → All (Before k) fs → is_present (merged_file k) (names fs) ≡ false
absent k [] h = refl
absent k (f ∷ fs) (h, hs) = ground (arith, h k (omega arith), absent k fs hs)

-- What a pass leaves: sorted runs of the same digests, and few of them.
abbrev pub Passes : ℕ → List Bytes → Outcome Fault (List RunFile) → Type 0
Passes m ds (err e) = ⊥
Passes m ds (ok fs) = All Sorted fs × Same (union fs) ds × (length fs ≤ m)

pub Passes-map :
    (m n : ℕ) (ds es : List Bytes) (r : Outcome Fault (List RunFile))
    → m ≤ n
    → Same ds es
    → Passes m ds r
    → Passes n es r
Passes-map m n ds es (err e) le same h = h
Passes-map m n ds es (ok fs) le same (sorted, has, few) =
    (sorted, Same-trans (union fs) ds es has same, omega arith)

-- A group that was merged stands for its runs.
pub regroup :
    (next rest group : List Bytes) (merged whole : List Bytes)
    → Same merged group
    → group ++ rest ≡ whole
    → Same ((next ++ (merged ++ [])) ++ rest) (next ++ whole)
regroup next rest group merged whole same split =
    Same-trans _ (next ++ (merged ++ rest)) _
      (Same-eq _ _
        (append_assoc next (merged ++ []) rest ∙ ap (λ l. next ++ (l ++ rest)) (append-nil merged)))
      (Same-append next (merged ++ rest) next whole (λ e. (λ a. a, λ a. a))
        (Same-trans (merged ++ rest) (group ++ rest) whole
          (Same-append merged rest group rest same (λ e. (λ a. a, λ a. a))) (Same-eq _ _ split)))

pub runs_in_order : (gs : List RunFile) → All Sorted gs → AllSorted gs
runs_in_order [] h = tt
runs_in_order (g ∷ gs) (h, hs) = (h, runs_in_order gs hs)

module _ (width : ℕ) (wide : 0 < width) where
  pub merge_groups-Passes :
      (fuel : ℕ) (next fs : List RunFile) (m : ℕ)
      → length fs ≤ fuel
      → length fs ≤ width * m
      → All Sorted next
      → All Sorted fs
      → All (Before (length next)) next
      → All (Before 0) fs
      → Passes (length next + m) (union next ++ union fs) (merge_groups width fuel next fs)
  unfolding merge_groups
  merge_groups-Passes zero next [] m enough fits nsorted sorted nbefore before =
      (nsorted, Same-eq _ _ (sym (append-nil (union next))), omega arith)
  merge_groups-Passes (suc fuel) next [] m enough fits nsorted sorted nbefore before =
      (nsorted, Same-eq _ _ (sym (append-nil (union next))), omega arith)
  merge_groups-Passes zero next (f ∷ fs) m enough fits nsorted sorted nbefore before =
      absurd (omega arith)
  merge_groups-Passes (suc fuel) next (f ∷ fs) zero enough fits nsorted sorted nbefore before =
      absurd (omega arith)
  merge_groups-Passes (suc fuel) next (f ∷ fs) (suc m) enough fits nsorted sorted nbefore before =
      let k = length next in
      let files = f ∷ fs in
      let (ascending, same) =
        merge_digest_runs-merges (take width files)
          (runs_in_order (take width files) (All-take Sorted width files sorted)) in
      let merged : RunFile = record {
        name = merged_file k;
        digests = merge_digest_runs (take width files);
      } in
      let next' = next ++ (merged ∷ []) in
      let size : length next' ≡ k + 1 = length-append next (merged ∷ []) in
      let free : is_present (merged_file k) (names (next ++ files)) ≡ false =
        absent k (next ++ files) (
          All-append (Before k) next files nbefore
            (All-files (Before 0) (Before k) files (λ g h j le. h j (omega arith)) before)) in
      let later : All (Before (length next')) next' =
        subst (λ n. All (Before n) next') (sym size)
          (All-append (Before (k + 1)) next (merged ∷ [])
            (All-files (Before k) (Before (k + 1)) next (λ g h j le. h j (omega arith)) nbefore)
            ((λ j le. ground arith), tt)) in
      let passed =
        merge_groups-Passes fuel next' (drop width files) m (omega (arith, length-drop width files))
          (omega (arith, length-drop width files))
          (All-append Sorted next (merged ∷ []) nsorted (IsAscending-IsSorted _ ascending, tt))
          (All-drop Sorted width files sorted) later (All-drop (Before 0) width files before) in
      rw free (
        Passes-map _ _ _ _ (merge_groups width fuel next' (drop width files)) (omega (arith, size))
          (subst (λ u. Same (u ++ union (drop width files)) (union next ++ union files))
            (sym (union-append next (merged ∷ [])))
            (regroup (union next) (union (drop width files)) (union (take width files))
              merged.digests (union files) same (union-groups width files)))
          passed)
