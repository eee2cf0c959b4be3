-- ===== src/Fold/Digests/Merging.antt =====
-- The merge of sorted runs: what it writes is ascending, and has the digests of the runs.
use codexfold.Prelude.{
  ℕ, zero, suc, ◌≤◌, ◌≡◌, ◌⊎◌, ◌↔◌, inl, inr, refl, ap, subst, ◌∙◌, true, false, List, [], ◌∷◌,
  ◌++◌, Option, none, some, length, arith, Bool-cases, All, OneOf, if◌then◌else◌, length-append,
  All-append, All-OneOf, All-at,
}
use codexfold.Prelude.Bytes.{Bytes, bytes_less, bytes_eq→eq}
use codexfold.Fold.Digests.{
  RunFile, DigestRun, less, pop, queued, start_runs, is_previous, without_repeats, merge_loop,
  size_of_runs, merge_digest_runs,
}
use codexfold.Fold.Digests.Order.{
  Le, Le-trans, Lt→Le, bytes_less_irrefl, All-map, IsSorted, IsAscending, Same, Follows,
  without_repeats-IsAscending, without_repeats-Same,
}

abbrev items : DigestRun → List Bytes
items r = r.digest ∷ r.coming

abbrev contents : List DigestRun → List Bytes
contents [] = []
contents (r ∷ rs) = items r ++ contents rs

abbrev IsRun : DigestRun → Type 0
IsRun r = All (Le r.digest) r.coming × IsSorted r.coming

abbrev AllRuns : List DigestRun → Type 0
AllRuns [] = Unit
AllRuns (r ∷ rs) = IsRun r × AllRuns rs

pub OneOf-append_left : (e : Bytes) (xs ys : List Bytes) → OneOf e xs → OneOf e (xs ++ ys)
OneOf-append_left e [] ys h = absurd h
OneOf-append_left e (x ∷ xs) ys (inl same) = inl same
OneOf-append_left e (x ∷ xs) ys (inr at) = inr (OneOf-append_left e xs ys at)

pub OneOf-append_right : (e : Bytes) (xs ys : List Bytes) → OneOf e ys → OneOf e (xs ++ ys)
OneOf-append_right e [] ys h = h
OneOf-append_right e (x ∷ xs) ys h = inr (OneOf-append_right e xs ys h)

pub OneOf-append_cases :
    (e : Bytes) (xs ys : List Bytes) → OneOf e (xs ++ ys) → OneOf e xs ⊎ OneOf e ys
OneOf-append_cases e [] ys h = inr h
OneOf-append_cases e (x ∷ xs) ys (inl same) = inl (inl same)
OneOf-append_cases e (x ∷ xs) ys (inr at) = elim (OneOf-append_cases e xs ys at) [
  | inl left ↦ inl (inr left)
  | inr right ↦ inr right
]

-- What is known of the run that is taken: it and the others are those that were there, and nothing
-- is before its digest.
record Pops (r : DigestRun) (rs : List DigestRun) (least : DigestRun) (others : List DigestRun)
    : Type 0 where
  runs : IsRun least × AllRuns others
  least_is : All (Le least.digest) (contents (least ∷ others))
  from : (e : Bytes) → OneOf e (contents (least ∷ others)) → OneOf e (contents (r ∷ rs))
  into : (e : Bytes) → OneOf e (contents (r ∷ rs)) → OneOf e (contents (least ∷ others))
  size : length (contents (least ∷ others)) ≡ length (contents (r ∷ rs))

All-split : (P : Bytes → Type 0) (xs ys : List Bytes) → All P (xs ++ ys) → All P xs × All P ys
All-split P [] ys h = (tt, h)
All-split P (x ∷ xs) ys (h, hs) = let (a, b) = All-split P xs ys hs in ((h, a), b)

less→Le : (l r : DigestRun) → less l r ≡ true → Le l.digest r.digest
less→Le l r h = elim (Bool-cases (bytes_less l.digest r.digest)) [
  | inl before ↦ Lt→Le l.digest r.digest before
  | inr not_before ↦
      let same : l.digest ≡ r.digest = bytes_eq→eq l.digest r.digest (ground arith) in
      subst (λ d. Le l.digest d) same (bytes_less_irrefl l.digest)
]

not-less→Le : (l r : DigestRun) → less l r ≡ false → Le r.digest l.digest
not-less→Le l r h = ground arith

run_above : (d : Bytes) (r : DigestRun) → IsRun r → Le d r.digest → All (Le d) (items r)
run_above d r (above, sorted) h =
    (h, All-map (Le r.digest) (Le d) r.coming (λ e. Le-trans d r.digest e h) above)

pop-Pops :
    (r : DigestRun) (rs : List DigestRun)
    → IsRun r
    → AllRuns rs
    → Pops r rs ((pop r rs).0) ((pop r rs).1)
unfolding pop
pop-Pops r [] run runs = record {
  runs = (run, tt);
  least_is =
      All-append (Le r.digest) (items r) [] (run_above r.digest r run (bytes_less_irrefl r.digest))
        tt;
  from = λ e h. h;
  into = λ e h. h;
  size = refl;
}
pop-Pops r (q ∷ qs) run (qrun, runs) =
    let p = pop-Pops q qs qrun runs in
    let least = (pop q qs).0 in
    let others = (pop q qs).1 in
    let least_run = p.runs.0 in
    let (below, rest_below) =
      All-split (Le least.digest) (items least) (contents others) p.least_is in
    elim (Bool-cases (less least r)) [
      | inl first ↦
          let le = less→Le least r first in
          rw first (record {
            runs = (least_run, (run, p.runs.1));
            least_is =
                All-append (Le least.digest) (items least) (items r ++ contents others) below (
                  All-append (Le least.digest) (items r) (contents others)
                    (run_above least.digest r run le) rest_below);
            from = λ e h. elim (OneOf-append_cases e (items least) (items r ++ contents others) h) [
              | inl in_least ↦
                  OneOf-append_right e (items r) _
                    (p.from e (OneOf-append_left e (items least) _ in_least))
              | inr further ↦ elim (OneOf-append_cases e (items r) (contents others) further) [
                | inl in_r ↦ OneOf-append_left e (items r) _ in_r
                | inr in_others ↦
                    OneOf-append_right e (items r) _
                      (p.from e (OneOf-append_right e (items least) _ in_others))
              ]
            ];
            into = λ e h. elim (OneOf-append_cases e (items r) (contents (q ∷ qs)) h) [
              | inl in_r ↦
                  OneOf-append_right e (items least) _ (OneOf-append_left e (items r) _ in_r)
              | inr further ↦
                  elim (OneOf-append_cases e (items least) (contents others) (p.into e further)) [
                    | inl in_least ↦ OneOf-append_left e (items least) _ in_least
                    | inr in_others ↦
                        OneOf-append_right e (items least) _
                          (OneOf-append_right e (items r) _ in_others)
                  ]
            ];
            size = omega (
              arith,
              p.size,
              length-append (items least) (items r ++ contents others),
              length-append (items r) (contents others),
              length-append (items least) (contents others),
              length-append (items r) (contents (q ∷ qs)),
            );
          })
      | inr first ↦
          let le = not-less→Le least r first in
          rw first (record {
            runs = (run, (least_run, p.runs.1));
            least_is =
                All-append (Le r.digest) (items r) (contents (least ∷ others))
                  (run_above r.digest r run (bytes_less_irrefl r.digest))
                  (All-map (Le least.digest) (Le r.digest) (contents (least ∷ others))
                    (λ e. Le-trans r.digest least.digest e le) p.least_is);
            from = λ e h. elim (OneOf-append_cases e (items r) (contents (least ∷ others)) h) [
              | inl in_r ↦ OneOf-append_left e (items r) _ in_r
              | inr further ↦ OneOf-append_right e (items r) _ (p.from e further)
            ];
            into = λ e h. elim (OneOf-append_cases e (items r) (contents (q ∷ qs)) h) [
              | inl in_r ↦ OneOf-append_left e (items r) _ in_r
              | inr further ↦ OneOf-append_right e (items r) _ (p.into e further)
            ];
            size = omega (
              arith,
              p.size,
              length-append (items r) (contents (least ∷ others)),
              length-append (items r) (contents (q ∷ qs)),
            );
          })
    ]

-- The digests in the order in which they are taken.
unfoldable order : ℕ → List DigestRun → List Bytes
order fuel [] = []
order zero (r ∷ rs) = []
order (suc fuel) (r ∷ rs) =
    let (least, others) = pop r rs in
    least.digest ∷ order fuel (queued least.ordinal least.coming others)

merge_loop-order :
    (fuel : ℕ) (previous : Option Bytes) (queue : List DigestRun)
    → merge_loop fuel previous queue ≡ without_repeats previous (order fuel queue)
unfolding merge_loop order without_repeats
merge_loop-order zero previous [] = refl
merge_loop-order zero previous (r ∷ rs) = refl
merge_loop-order (suc fuel) previous [] = refl
merge_loop-order (suc fuel) previous (r ∷ rs) =
    let least = (pop r rs).0 in
    let others = (pop r rs).1 in
    ap (λ rest. if is_previous previous least.digest then rest else least.digest ∷ rest)
      (merge_loop-order fuel (some least.digest) (queued least.ordinal least.coming others))

contents-queued :
    (n : ℕ) (ds : List Bytes) (queue : List DigestRun)
    → contents (queued n ds queue) ≡ ds ++ contents queue
contents-queued n [] queue = refl
contents-queued n (d ∷ ds) queue = refl

queued-AllRuns :
    (n : ℕ) (ds : List Bytes) (queue : List DigestRun)
    → IsSorted ds
    → AllRuns queue
    → AllRuns (queued n ds queue)
queued-AllRuns n [] queue sorted runs = runs
queued-AllRuns n (d ∷ ds) queue sorted runs = (sorted, runs)

abbrev Ordered : List Bytes → List Bytes → Type 0
Ordered ds es = IsSorted es × Same es ds

after_least :
    (least : DigestRun) (others : List DigestRun) (es : List Bytes)
    → All (Le least.digest) (least.coming ++ contents others)
    → Ordered (least.coming ++ contents others) es
    → Ordered (contents (least ∷ others)) (least.digest ∷ es)
after_least least others es above (sorted, same) = (
  (
    All-OneOf (Le least.digest) es (λ e at. All-at (Le least.digest) e _ above ((same e).0 at)),
    sorted,
  ),
  λ e. (
    λ h. elim h [ inl here ↦ inl here | inr at ↦ inr ((same e).0 at) ],
    λ h. elim h [ inl here ↦ inl here | inr at ↦ inr ((same e).1 at) ],
  ),
)

order-Ordered :
    (fuel : ℕ) (queue : List DigestRun)
    → AllRuns queue
    → length (contents queue) ≤ fuel
    → Ordered (contents queue) (order fuel queue)
unfolding order
order-Ordered zero [] runs enough = (tt, λ e. (λ h. h, λ h. h))
order-Ordered (suc fuel) [] runs enough = (tt, λ e. (λ h. h, λ h. h))
order-Ordered zero (r ∷ rs) runs enough = absurd (omega arith)
order-Ordered (suc fuel) (r ∷ rs) (run, runs) enough =
    let p = pop-Pops r rs run runs in
    let least = (pop r rs).0 in
    let others = (pop r rs).1 in
    let queue = queued least.ordinal least.coming others in
    let has = contents-queued least.ordinal least.coming others in
    let small : length (contents queue) ≤ fuel = omega (arith, p.size, ap length has) in
    let (sorted, same) = after_least least others (order fuel queue) (p.least_is.1) (
      subst (λ c. Ordered c (order fuel queue)) has
        (order-Ordered fuel queue
          (queued-AllRuns least.ordinal least.coming others (p.runs.0.1) (p.runs.1)) small)) in
    (sorted, λ e. (λ h. p.from e ((same e).0 h), λ h. (same e).1 (p.into e h)))

-- The digests of the files.
abbrev pub union : List RunFile → List Bytes
union [] = []
union (f ∷ fs) = f.digests ++ union fs

abbrev pub AllSorted : List RunFile → Type 0
AllSorted [] = Unit
AllSorted (f ∷ fs) = IsSorted f.digests × AllSorted fs

start_runs-contents : (n : ℕ) (fs : List RunFile) → contents (start_runs n fs) ≡ union fs
start_runs-contents n [] = refl
start_runs-contents n (f ∷ fs) =
    contents-queued n f.digests (start_runs (suc n) fs)
    ∙ ap (◌++◌ f.digests) (start_runs-contents (suc n) fs)

start_runs-AllRuns : (n : ℕ) (fs : List RunFile) → AllSorted fs → AllRuns (start_runs n fs)
start_runs-AllRuns n [] sorted = tt
start_runs-AllRuns n (f ∷ fs) (sorted, rest) =
    queued-AllRuns n f.digests _ sorted (start_runs-AllRuns (suc n) fs rest)

length-union : (fs : List RunFile) → length (union fs) ≡ size_of_runs fs
length-union [] = refl
length-union (f ∷ fs) = omega (arith, length-append f.digests (union fs), length-union fs)

pub everything : (es : List Bytes) → All (Follows none) es
everything [] = tt
everything (e ∷ es) = (tt, everything es)

-- What the merge of sorted runs writes.
pub merge_digest_runs-merges :
    (fs : List RunFile)
    → AllSorted fs
    → IsAscending (merge_digest_runs fs) × Same (merge_digest_runs fs) (union fs)
unfolding merge_digest_runs
merge_digest_runs-merges fs sorted =
    let queue = start_runs 0 fs in
    let fuel = size_of_runs fs in
    let has = start_runs-contents 0 fs in
    let (in_order, same) =
      order-Ordered fuel queue (start_runs-AllRuns 0 fs sorted)
        (omega (arith, ap length has, length-union fs)) in
    let all = without_repeats-Same (order fuel queue) in
    let into = λ (e : Bytes). subst (λ c. OneOf e (order fuel queue) ↔ OneOf e c) has (same e) in
    rw (merge_loop-order fuel none queue) (
      (without_repeats-IsAscending none (order fuel queue) in_order (everything _)).1,
      λ e. (λ h. (into e).0 ((all e).0 h), λ h. (all e).1 ((into e).1 h)),
    )
