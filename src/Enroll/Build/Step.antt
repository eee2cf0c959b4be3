-- ===== src/Enroll/Build/Step.antt =====
-- What one round of `Build` does with a session.
use codexfold.Prelude.{
  ◌≡◌, refl, ◌>>=◌, ap, subst, >>=-eq_ok, ◌⊎◌, inl, inr, true, false, List, [], ◌∷◌, ◌++◌, Option,
  none, some, Outcome, ok, err, ok-injective, length, Bool-cases, Option-cases,
}
use codexfold.Prelude.Int.{ℤ, pos, ltb_ℤ}
use codexfold.Prelude.Bytes.{Bytes}
use codexfold.Enroll.Estimate.{EstimateFault, enrollment_persistent_bytes, add_bytes}
use codexfold.Enroll.Plan.{
  observation_of, Reason, Session, Observation, FileInfo, Decision, Projection, Price, affordable,
  measured_decision, over_budget, failed, Surroundings, Input, refusal, later_reasons, Judgement,
  refused, judged, judge, judge_file,
}
use codexfold.Enroll.Build.Admissible.{Admissible, judge-Admissible}
use codexfold.Enroll.Build.{
  Progress, price, chosen, observe, decide, price_reasons, ask_budget, finish, settle,
  apply_judgement, lift_estimate, cumulative_of, plan_session,
}

-- The session is decided on, and not selected.
pub record Passed (s : Session) (p p' : Progress) : Type 0 where
  pub decision : Decision
  pub unselected : decision.selected ≡ false
  pub uneligible : decision.eligible ≡ false
  pub about : decision.session_id ≡ s.id
  pub decided : p'.decisions ≡ p.decisions ++ decision ∷ []
  pub kept : p'.selected ≡ p.selected
  pub kept_bytes : p'.selected_bytes ≡ p.selected_bytes

-- The session is selected: there was a reason for it and room for it, and the budget bore it.
pub record Taken (env : Surroundings) (input : Input) (s : Session) (p p' : Progress) : Type 0 where
  pub info : FileInfo
  pub admissible : Admissible env input s info
  pub room : ltb_ℤ (pos (length p.selected)) input.policy.batch_size ≡ true
  pub decided : p'.decisions ≡ p.decisions ++ chosen s info ∷ []
  pub added : p'.selected ≡ p.selected ++ chosen s info ∷ []
  pub estimated : ℤ
  pub estimate_is : enrollment_persistent_bytes info.size ≡ ok estimated
  pub sum_is : add_bytes p.selected_bytes estimated ≡ some p'.selected_bytes
  pub check : Projection → Price
  pub budget_is : env.budget ≡ some check
  pub paid :
      check (record {
        session_id = s.id;
        additional_persistent_bytes = p'.selected_bytes;
        temporary_bytes = info.size;
      })
      ≡ affordable

price_reasons-nil : (q : Price) → price_reasons q ≡ ok [] → q ≡ affordable
unfolding price_reasons
price_reasons-nil affordable h = refl
price_reasons-nil over_budget h = cc
price_reasons-nil failed h = cc

ask_budget-nil :
    (budget : Option (Projection → Price)) (projection : Projection)
    → ask_budget budget projection ≡ ok []
    → (check : Projection → Price) × (budget ≡ some check) × (check projection ≡ affordable)
unfolding ask_budget
ask_budget-nil none projection h = cc
ask_budget-nil (some check) projection h = (check, refl, price_reasons-nil (check projection) h)

abbrev projection_of : Session → FileInfo → ℤ → Projection
projection_of s info total = record {
  session_id = s.id;
  additional_persistent_bytes = total;
  temporary_bytes = info.size;
}

price-nil :
    (env : Surroundings) (input : Input) (p : Progress) (s : Session) (info : FileInfo) (total : ℤ)
    → price env input p s info total ≡ ok []
    → (ltb_ℤ (pos (length p.selected)) input.policy.batch_size ≡ true)
      × (ask_budget env.budget (projection_of s info total) ≡ ok [])
unfolding price
price-nil env input p s info total h =
    elim (Bool-cases (ltb_ℤ (pos (length p.selected)) input.policy.batch_size)) [
      | inl room ↦ (room, rw room at h)
      | inr full ↦ cc (rw full at h)
    ]

module _ (env : Surroundings) (input : Input) (s : Session) (info : FileInfo) (p : Progress) where
  abbrev Round : Progress → Type 0
  Round p' = Passed s p p' ⊎ Taken env input s p p'

  passed_measured :
      (r : Reason) (rs : List Reason) → Round (decide p (measured_decision s info (r ∷ rs)))
  passed_measured r rs = inl (record {
    decision = measured_decision s info (r ∷ rs);
    unselected = refl;
    uneligible = refl;
    about = refl;
    decided = refl;
    kept = refl;
    kept_bytes = refl;
  })

  finish-Round :
      (estimated total : ℤ)
      → enrollment_persistent_bytes info.size ≡ ok estimated
      → add_bytes p.selected_bytes estimated ≡ some total
      → Admissible env input s info
      → (reasons : List Reason) → price env input p s info total ≡ ok reasons
      → Round (finish p s info total reasons)
  unfolding finish
  finish-Round estimated total e t a [] h =
      let (room, asked) = price-nil env input p s info total h in
      let (check, budget_is, paid) = ask_budget-nil env.budget (projection_of s info total) asked in
      inr (record {
        info = info;
        admissible = a;
        room = room;
        decided = refl;
        added = refl;
        estimated = estimated;
        estimate_is = e;
        sum_is = t;
        check = check;
        budget_is = budget_is;
        paid = paid;
      })
  finish-Round estimated total e t a (r ∷ rs) h = passed_measured r rs

  lift_estimate-ok : {a : ℤ} (r : Outcome EstimateFault ℤ) → lift_estimate r ≡ ok a → r ≡ ok a
  unfolding lift_estimate
  lift_estimate-ok (ok b) h = ap ok (ok-injective h)
  lift_estimate-ok (err e) h = cc

  cumulative_of-ok : {a : ℤ} (r : Option ℤ) → cumulative_of r ≡ ok a → r ≡ some a
  unfolding cumulative_of
  cumulative_of-ok none h = cc
  cumulative_of-ok (some b) h = ap some (ok-injective h)

  settle-Round :
      (reasons : List Reason)
      → (reasons ≡ [] → Admissible env input s info)
      → {p' : Progress} → settle env input p s info reasons ≡ ok p'
      → Round p'
  unfolding settle
  settle-Round (r ∷ rs) a h = subst Round (ok-injective h) (passed_measured r rs)
  settle-Round [] a h =
      let (estimated, e, h1) =
        >>=-eq_ok (lift_estimate (enrollment_persistent_bytes info.size)) _ h in
      let (total, t, h2) = >>=-eq_ok (cumulative_of (add_bytes p.selected_bytes estimated)) _ h1 in
      let (reasons, r, h3) = >>=-eq_ok (price env input p s info total) _ h2 in
      subst Round (ok-injective h3) (
        finish-Round estimated total (lift_estimate-ok _ e) (cumulative_of-ok _ t) (a refl) reasons
          r)

module _ (env : Surroundings) (input : Input) (s : Session) (p : Progress) where
  -- Noting an observation changes neither the decisions nor the selection.
  unobserve :
      (id : Bytes) (o : Observation) {p' : Progress}
      → Passed s (observe p id o) p' ⊎ Taken env input s (observe p id o) p'
      → Passed s p p' ⊎ Taken env input s p p'
  unobserve id o (inl r) = inl (record {
    decision = r.decision;
    unselected = r.unselected;
    uneligible = r.uneligible;
    about = r.about;
    decided = r.decided;
    kept = r.kept;
    kept_bytes = r.kept_bytes;
  })
  unobserve id o (inr r) = inr (record {
    info = r.info;
    admissible = r.admissible;
    room = r.room;
    decided = r.decided;
    added = r.added;
    estimated = r.estimated;
    estimate_is = r.estimate_is;
    sum_is = r.sum_is;
    check = r.check;
    budget_is = r.budget_is;
    paid = r.paid;
  })

  abbrev Plain : Judgement → Type 0
  Plain (refused d) = (d.selected ≡ false) × (d.eligible ≡ false) × (d.session_id ≡ s.id)
  Plain (judged info reasons) = Unit {0}

  judge_file-Plain :
      (found : Option FileInfo) {j : Judgement} → judge_file env input s found ≡ ok j → Plain j
  unfolding judge_file
  judge_file-Plain none h = subst Plain (ok-injective h) (refl, refl, refl)
  judge_file-Plain (some info) h =
      let (reasons, _, k) = >>=-eq_ok (later_reasons env input s info) _ h in
      subst Plain (ok-injective k) tt

  judge-Plain : {j : Judgement} → judge env input s ≡ ok j → Plain j
  unfolding judge
  judge-Plain h = elim (Option-cases (refusal input s)) [
    | inl clear ↦ judge_file-Plain _ (rw (clear, judge) at h)
    | inr (reason, e) ↦ subst Plain (ok-injective (rw (e, judge) at h)) (refl, refl, refl)
  ]

  apply_judgement-Round :
      (j : Judgement)
      → judge env input s ≡ ok j
      → {p' : Progress} → apply_judgement env input p s j ≡ ok p'
      → Passed s p p' ⊎ Taken env input s p p'
  unfolding apply_judgement
  apply_judgement-Round (refused d) e {p'} h =
      let (unselected, uneligible, about) = judge-Plain e in
      subst (λ q. Passed s p q ⊎ Taken env input s p q) (ok-injective h)
        (inl (record {
          decision = d;
          unselected = unselected;
          uneligible = uneligible;
          about = about;
          decided = refl;
          kept = refl;
          kept_bytes = refl;
        }))
  apply_judgement-Round (judged info reasons) e h = unobserve s.id (observation_of input s info) (
      settle-Round env input s info _ reasons
        (λ nil. judge-Admissible env input s info (rw nil at e)) h)

  not_cancelled :
      {p' : Progress}
      → plan_session env input p s ≡ ok p'
      → (env.cancelled s ≡ false) × ((judge env input s >>= apply_judgement env input p s) ≡ ok p')
  unfolding plan_session
  not_cancelled h = elim (Bool-cases (env.cancelled s)) [
    | inl stop ↦ cc (rw stop at h)
    | inr go ↦ (go, rw go at h)
  ]

  -- A round of the loop that does not fail passes the session over, or selects it for a reason.
  pub plan_session-Round :
      {p' : Progress} → plan_session env input p s ≡ ok p' → Passed s p p' ⊎ Taken env input s p p'
  plan_session-Round h =
      let (going, k) = not_cancelled h in
      let (j, e, l) = >>=-eq_ok (judge env input s) (apply_judgement env input p s) k in
      apply_judgement-Round j e l
