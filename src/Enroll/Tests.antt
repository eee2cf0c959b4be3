-- ===== src/Enroll/Tests.antt =====
-- A store with one rollout to fold and one that is managed, and the theorems of the planner at it.
use mathlib.Core.List.{Perm}
use codexfold.Prelude.{
  ℕ, List, take, err, ◌==◌, if◌then◌else◌, ◌≤◌, ◌≡◌, refl, subst, some-injective, true, false, [],
  ◌∷◌, none, some, ok, length, arith, All, ◌⊎◌, map,
}
use codexfold.Prelude.Int.{pos, max_int64, IsInt64, wrap, ◌+64◌, ◌-64◌, ◌*64◌}
use codexfold.Prelude.Bytes.{bytes_eq, contains_any}
use codexfold.FilePath.{clean}
use codexfold.Enroll.Estimate.{
  enrollment_persistent_bytes, add_bytes, enrollment_persistent_bytes-exact,
}
use codexfold.Enroll.Plan.{
  Session, Observation, Decision, FileInfo, affordable, Surroundings, Input, already_managed,
  find_observation, set_observation, safe_session_id, refusal, time_sub, same_file,
  stability_reasons, probe, later_reasons, visible_file, judge_file, judge,
}
use codexfold.Enroll.Build.{
  Plan, session_less, insert_session, sort_sessions, with_defaults, lift_estimate, cumulative_of,
  price_reasons, ask_budget, price, finish, settle, apply_judgement, plan_session, plan_sessions,
  complete, run, build, waiting_count, count_waiting, counts_as_waiting,
}
use codexfold.Enroll.Build.Selection.{Justified, only_selected, build-selected}
use codexfold.Enroll.Build.Funding.{SizesFit, Paid, total_estimate, build-Paid}
use codexfold.Enroll.Build.Ordering.{IsOrdered, build-decisions}
use codexfold.Enroll.Apply.{
  World, ApplyFault, cancelled, apply_failed, no_counts, still_matches, look, revalidate_loop,
  revalidate, after_apply, apply_loop, apply_valid, apply_plan,
}
use codexfold.Enroll.Apply.Revalidation.{IsLimit, Sifted, revalidate-Sifted}
use codexfold.Enroll.Apply.Calls.{Called, apply_plan-Called}

abbrev calm : Session
calm = record {
  id = b's' ∷ b'1' ∷ [];
  title = [];
  cwd = [];
  rollout_path = b'/' ∷ b'a' ∷ [];
  model_provider = [];
  model = [];
  updated_at = pos 20;
  archived = true;
  git_branch = [];
}

abbrev folded : Session
folded = record calm { id = b's' ∷ b'0' ∷ []; updated_at = pos 10 }

abbrev file : FileInfo
file = record { regular = true; size = pos 4096; mod_time = pos 5 }

abbrev disk : Surroundings
disk = record {
  lstat = λ path. some file;
  writer_probe = some (λ s. ok false);
  budget = some (λ projection. affordable);
  cancelled = λ s. false;
}

abbrev seen : Observation
seen = record { path = b'/' ∷ b'a' ∷ []; size = pos 4096; mod_time = pos 5; stable_since = pos 6 }

abbrev request : Input
request = record {
  sessions = calm ∷ folded ∷ [];
  managed = λ id. bytes_eq id folded.id;
  previous = (calm.id, seen) ∷ [];
  now = pos 0;
  policy = record { stable_for = pos 100; batch_size = pos 0; archived_only = true };
  gates = record {
    doctor_healthy = true;
    mount_healthy = true;
    canonical_namespace = true;
    namespace_active = true;
    namespace_ready = true;
    enrollment_allowed = true;
  };
}

abbrev folded_decision : Decision
folded_decision = record {
  session_id = folded.id;
  rollout_path = folded.rollout_path;
  archived = true;
  eligible = false;
  selected = false;
  reasons = already_managed ∷ [];
  fingerprint = record { size = pos 0; mod_time = pos 0 };
}

abbrev calm_decision : Decision
calm_decision = record {
  session_id = calm.id;
  rollout_path = calm.rollout_path;
  archived = true;
  eligible = true;
  selected = true;
  reasons = [];
  fingerprint = record { size = pos 4096; mod_time = pos 5 };
}

abbrev next_cycle : Plan
next_cycle = record {
  generated_at = pos 200;
  decisions = folded_decision ∷ calm_decision ∷ [];
  selected = calm_decision ∷ [];
  observations = (calm.id, seen) ∷ [];
}

request-build : build disk (pos 0) (some (pos 200)) request ≡ ok next_cycle
unfolding build run plan_sessions plan_session apply_judgement settle finish lift_estimate
    cumulative_of price ask_budget price_reasons sort_sessions insert_session session_less
    with_defaults judge judge_file visible_file later_reasons probe stability_reasons same_file
    time_sub refusal safe_session_id find_observation set_observation clean
    enrollment_persistent_bytes add_bytes contains_any ◌-64◌ wrap ◌+64◌ ◌*64◌
request-build = refl

next_cycle_waiting : waiting_count next_cycle ≡ 1
unfolding waiting_count count_waiting counts_as_waiting
next_cycle_waiting = refl

build-selected_example :
    All (Justified disk (complete (pos 0) (some (pos 200)) request)) (calm_decision ∷ [])
    × (calm_decision ∷ [] ≡ only_selected next_cycle.decisions)
    × (1 ≤ 1)
unfolding with_defaults
build-selected_example = build-selected disk (pos 0) (some (pos 200)) request request-build

disk-SizesFit : SizesFit disk
disk-SizesFit path info h = subst (λ i. IsInt64 i.size) (some-injective file info h) (omega arith)

build-Paid_example :
    (total_estimate next_cycle.selected ≤ max_int64)
    × ((next_cycle.selected ≡ []) ⊎ Paid disk next_cycle.selected)
build-Paid_example = build-Paid disk (pos 0) (some (pos 200)) request disk-SizesFit request-build

build-decisions_example :
    (ss : List Session) × Perm ss request.sessions
    × IsOrdered ss
    × (folded.id ∷ calm.id ∷ [] ≡ map (λ s. s.id) ss)
build-decisions_example = build-decisions disk (pos 0) (some (pos 200)) request request-build

enrollment_persistent_bytes-exact_example :
    enrollment_persistent_bytes (pos 4096) ≡ ok (pos 3158784)
enrollment_persistent_bytes-exact_example = enrollment_persistent_bytes-exact 4096 (omega arith)

-- The second call back is refused.
abbrev present : World
present = record {
  context_done = λ d. false;
  is_managed = λ id. ok (bytes_eq id folded.id);
  lstat = λ path. some file;
  apply = λ before d. if length before == 1 then err cancelled else ok tt;
}

abbrev both : List Decision
both = calm_decision ∷ folded_decision ∷ calm_decision ∷ []

second_refused : apply_plan present both (pos 0) ≡ record {
  called = calm_decision ∷ calm_decision ∷ [];
  result = record { selected = 3; applied = 1; skipped_changed = 0; skipped_managed = 1 };
  fault = some (apply_failed calm.id);
}
unfolding apply_plan apply_valid apply_loop after_apply revalidate revalidate_loop look
    still_matches bytes_eq
second_refused = refl

revalidate-Sifted_example :
    (n : ℕ) × IsLimit (pos 2) 3 n
    × Sifted present [] (no_counts n) (take n both) (revalidate present both (pos 2))
revalidate-Sifted_example = revalidate-Sifted present both (pos 2)

apply_plan-Called_example :
    (let r = revalidate present both (pos 0) in
      ((r.fault ≡ none) × Called present [] r.result r.decisions (apply_plan present both (pos 0)))
      ⊎ ((e : ApplyFault) × (r.fault ≡ some e)
          × (apply_plan present both (pos 0)
              ≡ record { called = []; result = r.result; fault = some e })))
apply_plan-Called_example = apply_plan-Called present both (pos 0)
