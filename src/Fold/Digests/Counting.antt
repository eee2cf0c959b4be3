-- ===== src/Fold/Digests/Counting.antt =====
-- The count of a set of digests is the number of the distinct ones.
use codexfold.Prelude.{
  ℕ, suc, ◌+◌, ◌*◌, ◌≤◌, ◌<◌, ◌≡◌, inl, inr, refl, false, List, [], ◌∷◌, Outcome, ok, err, ◌>>=◌,
  ltb, length, arith, Bool-cases, All,
}
use codexfold.Prelude.Bytes.{Bytes}
use codexfold.Fold.Digests.{
  RunFile, DigestSet, Fault, create_runs, merge_digest_runs, merge_groups, count_of, count_runs,
  count,
}
use codexfold.Fold.Digests.Order.{IsAscending, Same}
use codexfold.Fold.Digests.Merging.{union, merge_digest_runs-merges}
use codexfold.Fold.Digests.Passing.{
  Same-trans, Sorted, Before, Passes, runs_in_order, merge_groups-Passes,
}
use codexfold.Fold.Digests.Chunking.{Creates, create_runs-Creates}

-- The count of a list: how many its ascending list has.
abbrev pub IsCount : ℕ → List Bytes → Type 0
IsCount n ds = (l : List Bytes) × IsAscending l × Same l ds × (n ≡ length l)

abbrev pub Counts : List Bytes → Outcome Fault ℕ → Type 0
Counts ds (err e) = ⊥
Counts ds (ok n) = IsCount n ds

count_of-IsCount : (fs : List RunFile) → All Sorted fs → IsCount (count_of fs) (union fs)
count_of-IsCount [] sorted = ([], tt, (λ e. (λ a. a, λ a. a)), refl)
count_of-IsCount (f ∷ fs) sorted =
    let (ascending, same) = merge_digest_runs-merges (f ∷ fs) (runs_in_order (f ∷ fs) sorted) in
    (merge_digest_runs (f ∷ fs), ascending, same, refl)

Counts-Same : (ds es : List Bytes) (r : Outcome Fault ℕ) → Same ds es → Counts ds r → Counts es r
Counts-Same ds es (err e) same h = h
Counts-Same ds es (ok n) same (l, ascending, has, size) =
    (l, ascending, Same-trans l ds es has same, size)

module _ (width : ℕ) (wide : 0 < width) where
  few_runs-Counts :
      (fuel : ℕ) (fs : List RunFile)
      → length fs ≤ width
      → All Sorted fs
      → Counts (union fs) (count_runs width (suc fuel) fs)
  unfolding count_runs
  few_runs-Counts fuel fs few sorted =
      let here : ltb width (length fs) ≡ false = ground arith in
      rw here (count_of-IsCount fs sorted)

  after_pass :
      (fuel : ℕ) (ds : List Bytes) (r : Outcome Fault (List RunFile))
      → Passes (0 + width) ds r
      → Counts ds (do next ← r; count_runs width (suc fuel) next)
  after_pass fuel ds (err e) h = h
  after_pass fuel ds (ok fs) (sorted, has, few) =
      Counts-Same (union fs) ds _ has (few_runs-Counts fuel fs (omega arith) sorted)

  count_runs-Counts :
      (fuel : ℕ) (fs : List RunFile)
      → length fs ≤ width * width
      → All Sorted fs
      → All (Before 0) fs
      → Counts (union fs) (count_runs width (suc (suc fuel)) fs)
  unfolding count_runs
  count_runs-Counts fuel fs few sorted before = elim (Bool-cases (ltb width (length fs))) [
    | inl more ↦ rw more (
        after_pass fuel (union fs) (merge_groups width (length fs) [] fs) (
          merge_groups-Passes width wide (length fs) [] fs width (omega arith) few tt sorted tt
            before))
    | inr enough ↦ rw enough (count_of-IsCount fs sorted)
  ]

  of_runs :
      (ds : List Bytes) (r : Outcome Fault (List RunFile))
      → Creates (width * width) ds r
      → Counts ds (do fs ← r; count_runs width (suc (length fs)) fs)
  of_runs ds (err e) h = h
  of_runs ds (ok []) (sorted, before, has, few) =
      Counts-Same [] ds _ has (few_runs-Counts 0 [] (omega arith) tt)
  of_runs ds (ok (f ∷ fs)) (sorted, before, has, few) =
      Counts-Same (union (f ∷ fs)) ds _ has
        (count_runs-Counts (length fs) (f ∷ fs) few sorted before)

  -- `Count` of a set that is not closed and was not counted before returns the number of its
  -- distinct digests, the length of a strictly ascending list of the same digests, if they fill
  -- at most as many chunks as the square of the number of runs to a merge, both sizes being
  -- positive.
  pub count-Counts :
      (size : ℕ) (s : DigestSet)
      → s.closed ≡ false
      → 0 < size
      → length s.input ≤ (width * width) * size
      → Counts s.input (count size width s)
  unfolding count
  count-Counts size s live pos fits = rw live (
      of_runs s.input (create_runs size (length s.input) [] 0 s.input) (
        create_runs-Creates size (length s.input) [] 0 s.input (width * width) pos (omega arith)
          fits (λ j le. refl)))
