-- ===== src/Enroll/Build/Selection.antt =====
-- Everything that holds of a plan that `Build` returns, by one induction over its rounds.
use codexfold.Prelude.{
  ◌≤◌, ◌≡◌, refl, sym, ap, ◌∙◌, subst, ◌⊎◌, inl, inr, List, [], ◌∷◌, ◌++◌, Option, ok, ok-injective,
  >>=-eq_ok, length, length-append, if◌then◌else◌, arith, append-nil, All, All-append, All-OneOf,
  OneOf, Bool-cases, ltb→lt,
}
use codexfold.Prelude.Int.{ℤ, pos_part}
use codexfold.Enroll.Plan.{Session, FileInfo, Decision, Surroundings, Input}
use codexfold.Enroll.Build.Admissible.{Admissible}
use codexfold.Enroll.Build.Step.{Passed, Taken, plan_session-Round}
use codexfold.Enroll.Build.{
  Plan, Progress, chosen, session_less, plan_session, plan_sessions, sort_sessions, insert_session,
  empty_progress, complete, run, build,
}

-- The invariant rule of the loop, for a set of sessions that holds all of them.
pub plan_sessions_induction :
    (env : Surroundings) (input : Input) (whole : List Session) (P : Progress → Type 0)
    → ((s : Session) (p p' : Progress)
        → OneOf s whole
        → P p
        → Passed s p p' ⊎ Taken env input s p p'
        → P p')
    → (ss : List Session) → All (λ s. OneOf s whole) ss
    → (p : Progress) {p' : Progress} → P p
    → plan_sessions env input p ss ≡ ok p'
    → P p'
unfolding plan_sessions
plan_sessions_induction env input whole P keep [] within p h e = subst P (ok-injective e) h
plan_sessions_induction env input whole P keep (s ∷ ss) (here, within) p h e =
    let (q, r, k) = >>=-eq_ok (plan_session env input p s) (λ x. plan_sessions env input x ss) e in
    plan_sessions_induction env input whole P keep ss within q
      (keep s p q here h (plan_session-Round env input s p r)) k

OneOf-insert_session :
    (s t : Session) (ts : List Session) → OneOf s (insert_session t ts) → (s ≡ t) ⊎ OneOf s ts
unfolding insert_session
OneOf-insert_session s t [] h = h
OneOf-insert_session s t (u ∷ us) h = elim (Bool-cases (session_less u t)) [
  | inl later ↦ elim (let k : (s ≡ u) ⊎ OneOf s (insert_session t us) = rw later at h in k) [
    | inl here ↦ inr (inl here)
    | inr there ↦ elim (OneOf-insert_session s t us there) [ inl e ↦ inl e | inr k ↦ inr (inr k) ]
  ]
  | inr first ↦ rw first at h
]

-- Sorting invents no session.
pub OneOf-sort_sessions :
    (s : Session) (ts : List Session) → OneOf s (sort_sessions ts) → OneOf s ts
unfolding sort_sessions
OneOf-sort_sessions s [] h = h
OneOf-sort_sessions s (t ∷ ts) h = elim (OneOf-insert_session s t (sort_sessions ts) h) [
  | inl here ↦ inl here
  | inr there ↦ inr (OneOf-sort_sessions s ts there)
]

-- A selected decision, and the session and the file that justify it.
pub record Justified (env : Surroundings) (input : Input) (d : Decision) : Type 0 where
  pub session : Session
  pub info : FileInfo
  pub listed : OneOf session input.sessions
  pub decision_is : d ≡ chosen session info
  pub admissible : Admissible env input session info

abbrev pub only_selected : List Decision → List Decision
only_selected [] = []
only_selected (d ∷ ds) = if d.selected then d ∷ only_selected ds else only_selected ds

only_selected-concat :
    (ds : List Decision) (d : Decision)
    → only_selected (ds ++ d ∷ []) ≡ only_selected ds ++ (if d.selected then d ∷ [] else [])
only_selected-concat [] d = ground arith
only_selected-concat (e ∷ ds) d = ground (arith, only_selected-concat ds d)

-- What a plan owes to its input.
pub record IsPlan (env : Surroundings) (input : Input) (p : Progress) : Type 0 where
  pub justified : All (Justified env input) p.selected
  pub recorded : p.selected ≡ only_selected p.decisions
  pub within_batch : length p.selected ≤ pos_part input.policy.batch_size

IsPlan-round :
    (env : Surroundings) (input : Input) (s : Session) (p p' : Progress)
    → OneOf s input.sessions
    → IsPlan env input p
    → Passed s p p' ⊎ Taken env input s p p'
    → IsPlan env input p'
IsPlan-round env input s p p' here h (inl r) = record {
  justified = rw r.kept h.justified;
  recorded =
      r.kept
      ∙ h.recorded
      ∙ sym (
          ap only_selected r.decided
          ∙ only_selected-concat p.decisions r.decision
          ∙ rw r.unselected (append-nil (only_selected p.decisions)));
  within_batch = rw r.kept h.within_batch;
}
IsPlan-round env input s p p' here h (inr r) = record {
  justified = rw r.added (
      All-append _ p.selected _ h.justified (
        record {
          session = s;
          info = r.info;
          listed = here;
          decision_is = refl;
          admissible = r.admissible;
        },
        tt,
      ));
  recorded =
      r.added
      ∙ ap (λ x. x ++ chosen s r.info ∷ []) h.recorded
      ∙ sym (ap only_selected r.decided ∙ only_selected-concat p.decisions _);
  within_batch =
      rw r.added
        (omega (arith, length-append p.selected (chosen s r.info ∷ []), ltb→lt _ _ r.room));
}

-- A successful run is a successful loop.
pub run-plan_sessions :
    (env : Surroundings) (input : Input) {plan : Plan}
    → run env input ≡ ok plan
    → (p : Progress) × (plan_sessions env input
          (empty_progress input)
          (sort_sessions input.sessions)
        ≡ ok p)
      × (plan ≡ p.plan)
unfolding run
run-plan_sessions env input h =
    let (p, e, k) =
      >>=-eq_ok (plan_sessions env input (empty_progress input) (sort_sessions input.sessions))
        (λ x. ok x.plan) h in
    (p, e, sym (ok-injective k))

-- An invariant of the rounds that holds of the empty plan holds of what `Build` has at the end.
pub run_induction :
    (env : Surroundings) (input : Input) (P : Progress → Type 0)
    → ((s : Session) (p p' : Progress)
        → OneOf s input.sessions
        → P p
        → Passed s p p' ⊎ Taken env input s p p'
        → P p')
    → P (empty_progress input)
    → {plan : Plan} → run env input ≡ ok plan
    → (p : Progress) × (plan ≡ p.plan) × P p
run_induction env input P keep start h =
    let (p, e, same) = run-plan_sessions env input h in
    (
      p,
      same,
      plan_sessions_induction env input input.sessions P keep (sort_sessions input.sessions)
          (All-OneOf _ _ (λ s. OneOf-sort_sessions s input.sessions)) (empty_progress input) start
          e,
    )

-- Where `Build` returns a plan, it selects only sessions of its input that every gate admits, as
-- many as the batch takes at most, and its selection is the part of its decisions that is marked
-- so.
pub build-selected :
    (env : Surroundings) (clock : ℤ) (now : Option ℤ) (input : Input) {plan : Plan}
    → build env clock now input ≡ ok plan
    → All (Justified env (complete clock now input)) plan.selected
      × (plan.selected ≡ only_selected plan.decisions)
      × (length plan.selected ≤ pos_part (complete clock now input).policy.batch_size)
unfolding build
build-selected env clock now input h =
    let input' = complete clock now input in
    let (p, same, k) =
      run_induction env input' (IsPlan env input') (IsPlan-round env input')
        (record { justified = tt; recorded = refl; within_batch = omega arith }) h in
    rw same (k.justified, k.recorded, k.within_batch)
