-- ===== src/Enroll/Build.antt =====
-- internal/enroll/planner.go: `Build`, the loop over the sessions, and `WaitingCount`.
pub mod Admissible
pub mod Step
pub mod Selection
pub mod Funding
pub mod Ordering
use codexfold.Prelude.{
  ℕ, ◌+◌, ◌≡◌, Bool, true, false, not, ◌&&◌, ◌||◌, List, [], ◌∷◌, ◌++◌, Option, none, some, Outcome,
  ok, err, ◌>>=◌, ltb, leb, ◌==◌, length, if◌then◌else◌,
}
use codexfold.Prelude.Int.{ℤ, pos, negsuc, eq_ℤ, ltb_ℤ}
use codexfold.Prelude.Bytes.{Bytes, bytes_less}
use codexfold.Enroll.Estimate.{EstimateFault, enrollment_persistent_bytes, add_bytes}
use codexfold.Enroll.Plan.{
  Reason, stability_pending, file_changed, insufficient_budget, batch_limit, Session, Policy, Gates,
  Observation, Observations, set_observation, FileInfo, Decision, Projection, Price, affordable,
  over_budget, failed, PlanFault, interrupted, budget_failed, batch_overflow, estimate,
  Surroundings, Input, measured_decision, observation_of, Judgement, refused, judged, judge,
}

pub record Plan : Type 0 where
  pub generated_at : ℤ
  pub decisions : List Decision
  pub selected : List Decision
  pub observations : Observations

-- The plan so far, and the bytes that the selected sessions will take.
pub record Progress : Type 0 where
  pub plan : Plan
  pub open plan use *
  pub selected_bytes : ℤ

-- Earlier updates first, and then by ID.
unfoldable pub session_less : Session → Session → Bool
session_less a b =
    if eq_ℤ a.updated_at b.updated_at then bytes_less a.id b.id else ltb_ℤ a.updated_at b.updated_at

unfoldable pub insert_session : Session → List Session → List Session
insert_session s [] = s ∷ []
insert_session s (t ∷ ts) =
    let rest = insert_session s ts in if session_less t s then t ∷ rest else s ∷ t ∷ ts

-- `sort.Slice` on a copy of the sessions.
unfoldable pub sort_sessions : List Session → List Session
unfolding insert_session
sort_sessions [] = []
sort_sessions (s ∷ ss) = insert_session s (sort_sessions ss)

abbrev pub hour : ℤ
hour = pos 3600000000000

abbrev is_positive : ℤ → Bool
is_positive a = ltb_ℤ (pos 0) a

-- The defaults of `Build`.
unfoldable pub with_defaults : Policy → Policy
with_defaults p = record p {
  stable_for = if is_positive p.stable_for then p.stable_for else hour;
  batch_size = if is_positive p.batch_size then p.batch_size else pos 1;
}

unfoldable pub lift_estimate {ℓ} : {A : Type ℓ} → Outcome EstimateFault A → Outcome PlanFault A
lift_estimate (ok a) = ok a
lift_estimate (err e) = err (estimate e)

unfoldable pub cumulative_of : Option ℤ → Outcome PlanFault ℤ
cumulative_of none = err batch_overflow
cumulative_of (some c) = ok c

unfoldable pub price_reasons : Price → Outcome PlanFault (List Reason)
price_reasons affordable = ok []
price_reasons over_budget = ok (insufficient_budget ∷ [])
price_reasons failed = err budget_failed

unfoldable pub ask_budget :
    Option (Projection → Price) → Projection → Outcome PlanFault (List Reason)
ask_budget none projection = ok (insufficient_budget ∷ [])
ask_budget (some check) projection = price_reasons (check projection)

-- The last question: does the batch have room, and can the store afford it?
unfoldable pub price :
    Surroundings → Input → Progress → Session → FileInfo → ℤ → Outcome PlanFault (List Reason)
unfolding ask_budget price_reasons
price env input p s info cumulative =
    if not (ltb_ℤ (pos (length p.selected)) input.policy.batch_size)
    then ok (batch_limit ∷ [])
    else ask_budget env.budget (record {
      session_id = s.id;
      additional_persistent_bytes = cumulative;
      temporary_bytes = info.size;
    })

abbrev pub decide : Progress → Decision → Progress
decide p d = record {
  plan = record p.plan { decisions = p.decisions ++ d ∷ [] };
  selected_bytes = p.selected_bytes;
}

abbrev pub observe : Progress → Bytes → Observation → Progress
observe p id o = record {
  plan = record p.plan { observations = set_observation id o p.observations };
  selected_bytes = p.selected_bytes;
}

abbrev pub select : Progress → Decision → ℤ → Progress
select p d cumulative = record {
  plan = record p.plan { decisions = p.decisions ++ d ∷ []; selected = p.selected ++ d ∷ [] };
  selected_bytes = cumulative;
}

abbrev pub chosen : Session → FileInfo → Decision
chosen s info = record (measured_decision s info []) { eligible = true; selected = true }

unfoldable pub finish : Progress → Session → FileInfo → ℤ → List Reason → Progress
finish p s info cumulative [] = select p (chosen s info) cumulative
finish p s info cumulative (r ∷ rs) = decide p (measured_decision s info (r ∷ rs))

unfoldable pub settle :
    Surroundings → Input → Progress → Session → FileInfo → List Reason → Outcome PlanFault Progress
settle env input p s info (r ∷ rs) = ok (decide p (measured_decision s info (r ∷ rs)))
settle env input p s info [] = do
  projected ← lift_estimate (enrollment_persistent_bytes info.size)
  cumulative ← cumulative_of (add_bytes p.selected_bytes projected)
  reasons ← price env input p s info cumulative
  ok (finish p s info cumulative reasons)

unfoldable pub apply_judgement :
    Surroundings → Input → Progress → Session → Judgement → Outcome PlanFault Progress
apply_judgement env input p s (refused d) = ok (decide p d)
apply_judgement env input p s (judged info reasons) =
    settle env input (observe p s.id (observation_of input s info)) s info reasons

-- One round of the loop.
unfoldable pub plan_session : Surroundings → Input → Progress → Session → Outcome PlanFault Progress
unfolding apply_judgement settle finish lift_estimate cumulative_of
plan_session env input p s =
    if env.cancelled s
    then err interrupted
    else (do j ← judge env input s; apply_judgement env input p s j)

unfoldable pub plan_sessions :
    Surroundings → Input → Progress → List Session → Outcome PlanFault Progress
plan_sessions env input p [] = ok p
plan_sessions env input p (s ∷ ss) = do
  p' ← plan_session env input p s
  plan_sessions env input p' ss

abbrev pub empty_progress : Input → Progress
empty_progress input = record {
  plan = record { generated_at = input.now; decisions = []; selected = []; observations = [] };
  selected_bytes = pos 0;
}

-- The input with its defaults; the clock is read only where the input has no time.
abbrev pub complete : ℤ → Option ℤ → Input → Input
complete clock now input = record input {
  now = elim now [ none ↦ clock | some t ↦ t ];
  policy = with_defaults input.policy;
}

unfoldable pub run : Surroundings → Input → Outcome PlanFault Plan
run env input = do
  p ← plan_sessions env input (empty_progress input) (sort_sessions input.sessions)
  ok p.plan

-- `Build`
unfoldable pub build : Surroundings → ℤ → Option ℤ → Input → Outcome PlanFault Plan
build env clock now input = run env (complete clock now input)

only_waiting : List Reason → Bool
only_waiting [] = true
only_waiting (stability_pending ∷ rs) = only_waiting rs
only_waiting (file_changed ∷ rs) = only_waiting rs
only_waiting (batch_limit ∷ rs) = only_waiting rs
only_waiting _ = false

abbrev no_reasons : List Reason → Bool
no_reasons [] = true
no_reasons _ = false

unfoldable pub counts_as_waiting : Decision → Bool
unfolding only_waiting
counts_as_waiting d =
    if d.selected || d.eligible
    then true
    else if no_reasons d.reasons
    then false
    else only_waiting d.reasons

unfoldable pub count_waiting : List Decision → ℕ
count_waiting [] = 0
count_waiting (d ∷ ds) = (if counts_as_waiting d then 1 else 0) + count_waiting ds

unfoldable pub waiting_count : Plan → ℕ
waiting_count plan = count_waiting plan.decisions
