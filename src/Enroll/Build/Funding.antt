-- ===== src/Enroll/Build/Funding.antt =====
-- What the budget was asked about the batch.
use codexfold.Prelude.{
  ℕ, ◌+◌, ◌≤◌, ◌≡◌, refl, sym, ap, ◌∙◌, ◌⊎◌, inl, inr, List, [], ◌∷◌, ◌++◌, Option, some, ok, err,
  arith, OneOf,
}
use codexfold.Prelude.Int.{ℤ, pos, negsuc, pos_part, IsInt64, max_int64}
use codexfold.Prelude.Bytes.{Bytes}
use codexfold.Enroll.Estimate.{
  negative_estimate, exact_estimate, enrollment_persistent_bytes, enrollment_persistent_bytes-exact,
  add_bytes, add_bytes-pos,
}
use codexfold.Enroll.Plan.{
  Session, FileInfo, Decision, Projection, Price, affordable, Surroundings, Input,
}
use codexfold.Enroll.Build.Step.{Passed, Taken}
use codexfold.Enroll.Build.Selection.{run_induction}
use codexfold.Enroll.Build.{Plan, Progress, chosen, complete, build}

-- The bytes that the selected sessions will take, on unbounded numbers.
abbrev pub total_estimate : List Decision → ℕ
total_estimate [] = 0
total_estimate (d ∷ ds) = exact_estimate (pos_part d.fingerprint.size) + total_estimate ds

total_estimate-concat :
    (ds : List Decision) (d : Decision)
    → total_estimate (ds ++ d ∷ [])
      ≡ total_estimate ds + exact_estimate (pos_part d.fingerprint.size)
total_estimate-concat [] d = omega arith
total_estimate-concat (e ∷ ds) d = omega (arith, total_estimate-concat ds d)

-- Sizes that `os.Lstat` reports are `int64`.
abbrev pub SizesFit : Surroundings → Type 0
SizesFit env = (path : Bytes) (info : FileInfo) → env.lstat path ≡ some info → IsInt64 info.size

-- The budget bore the selection as a whole when its last session was added.
pub record Paid (env : Surroundings) (selected : List Decision) : Type 0 where
  pub front : List Decision
  pub last : Decision
  pub split : selected ≡ front ++ last ∷ []
  pub check : Projection → Price
  pub budget_is : env.budget ≡ some check
  pub paid :
      check (record {
        session_id = last.session_id;
        additional_persistent_bytes = pos (total_estimate selected);
        temporary_bytes = last.fingerprint.size;
      })
      ≡ affordable

pub record Funded (env : Surroundings) (p : Progress) : Type 0 where
  pub bytes_are : p.selected_bytes ≡ pos (total_estimate p.selected)
  pub bytes_fit : total_estimate p.selected ≤ max_int64
  pub account : (p.selected ≡ []) ⊎ Paid env p.selected

negative_refused : (n : ℕ) → enrollment_persistent_bytes (negsuc n) ≡ err negative_estimate
unfolding enrollment_persistent_bytes
negative_refused n = refl

estimate-exact :
    (size : ℤ) {e : ℤ}
    → IsInt64 size
    → enrollment_persistent_bytes size ≡ ok e
    → (e ≡ pos (exact_estimate (pos_part size))) × (exact_estimate (pos_part size) ≤ max_int64)
estimate-exact (pos n) h k = ground (arith, enrollment_persistent_bytes-exact n)
estimate-exact (negsuc n) h k = cc (negative_refused n)

sum-exact :
    (a b : ℕ) {c : ℤ}
    → a ≤ max_int64
    → b ≤ max_int64
    → add_bytes (pos a) (pos b) ≡ some c
    → (c ≡ pos (a + b)) × (a + b ≤ max_int64)
sum-exact a b h k e = ground (arith, add_bytes-pos a b)

Funded-round :
    (env : Surroundings) (input : Input)
    → SizesFit env
    → (s : Session) (p p' : Progress) → OneOf s input.sessions
    → Funded env p
    → Passed s p p' ⊎ Taken env input s p p'
    → Funded env p'
Funded-round env input fit s p p' here h (inl r) = record {
  bytes_are = r.kept_bytes ∙ h.bytes_are ∙ sym (ap (λ x. pos (total_estimate x)) r.kept);
  bytes_fit = rw r.kept h.bytes_fit;
  account = rw r.kept h.account;
}
Funded-round env input fit s p p' here h (inr r) =
    let size : ℤ = r.info.size in
    let n : ℕ = exact_estimate (pos_part size) in
    let (estimated_is, estimate_fits) =
      estimate-exact size (fit s.rollout_path r.info r.admissible.seen) r.estimate_is in
    let added : add_bytes (pos (total_estimate p.selected)) (pos n) ≡ some p'.selected_bytes =
      rw (h.bytes_are, estimated_is) at r.sum_is in
    let (sum_is, sum_fits) =
      sum-exact (total_estimate p.selected) n h.bytes_fit estimate_fits added in
    let total : total_estimate p'.selected ≡ total_estimate p.selected + n =
      ap total_estimate r.added ∙ total_estimate-concat p.selected (chosen s r.info) in
    record {
      bytes_are = sum_is ∙ ap pos (sym total);
      bytes_fit = rw total sum_fits;
      account = inr (record {
        front = p.selected;
        last = chosen s r.info;
        split = r.added;
        check = r.check;
        budget_is = r.budget_is;
        paid = rw (total, ← sum_is) r.paid;
      });
    }

-- Where the sizes of files are `int64` and `Build` returns a plan, the estimates of its selection
-- add up to an `int64`, and, unless nothing is selected, the budget granted exactly this sum when
-- the last session was added.
pub build-Paid :
    (env : Surroundings) (clock : ℤ) (now : Option ℤ) (input : Input) {plan : Plan}
    → SizesFit env
    → build env clock now input ≡ ok plan
    → (total_estimate plan.selected ≤ max_int64) × ((plan.selected ≡ []) ⊎ Paid env plan.selected)
unfolding build
build-Paid env clock now input fit h =
    let input' = complete clock now input in
    let (p, same, k) =
      run_induction env input' (Funded env) (Funded-round env input' fit)
        (record { bytes_are = refl; bytes_fit = omega arith; account = inl refl }) h in
    rw same (k.bytes_fit, k.account)
