-- ===== src/Enroll/Build/Admissible.antt =====
-- When a session has no reason against it: the gates, the file, the writer and the waiting time.
use codexfold.Prelude.{
  ◌≡◌, refl, ◌⊎◌, true, false, List, [], ◌∷◌, ◌++◌, Option, none, some, ok, arith,
}
use codexfold.Prelude.Int.{ltb_ℤ}
use codexfold.Prelude.Bytes.{Bytes}
use codexfold.FilePath.{clean, is_abs}
use codexfold.Enroll.Plan.{
  Reason, Session, Observation, find_observation, FileInfo, Surroundings, Input, safe_session_id,
  refusal, time_sub, same_file, stability_reasons, probe, later_reasons, judged, judge, judge_file,
  visible_file,
}

-- Why a session may be selected, in the words of the input.
pub record Admissible (env : Surroundings) (input : Input) (s : Session) (info : FileInfo)
    : Type 0 where
  pub unmanaged : input.managed s.id ≡ false
  pub safe_id : safe_session_id s.id ≡ true
  pub absolute : is_abs s.rollout_path ≡ true
  pub mounted : input.gates.mount_healthy ≡ true
  pub canonical : input.gates.canonical_namespace ≡ true
  pub active : input.gates.namespace_active ≡ true
  pub ready : input.gates.namespace_ready ≡ true
  pub healthy : input.gates.doctor_healthy ≡ true
  pub allowed : input.gates.enrollment_allowed ≡ true
  pub seen : env.lstat s.rollout_path ≡ some info
  pub regular : info.regular ≡ true
  pub archive_rule : (input.policy.archived_only ≡ false) ⊎ (s.archived ≡ true)
  pub no_writer : probe env s ≡ ok false
  pub before : Observation
  pub observed : find_observation s.id input.previous ≡ some before
  pub unchanged : same_file before (clean s.rollout_path) info ≡ true
  pub watched_long : ltb_ℤ (time_sub input.now before.stable_since) input.policy.stable_for ≡ false
  pub untouched_long : ltb_ℤ (time_sub input.now info.mod_time) input.policy.stable_for ≡ false

refusal-none :
    (input : Input) (s : Session)
    → refusal input s ≡ none
    → (input.managed s.id ≡ false)
      × (safe_session_id s.id ≡ true)
      × (is_abs s.rollout_path ≡ true)
      × (input.gates.mount_healthy ≡ true)
      × (input.gates.canonical_namespace ≡ true)
      × (input.gates.namespace_active ≡ true)
      × (input.gates.namespace_ready ≡ true)
unfolding refusal
refusal-none input s h = ground arith

visible_file-some :
    (found : Option FileInfo) {info : FileInfo}
    → visible_file found ≡ some info
    → (found ≡ some info) × (info.regular ≡ true)
unfolding visible_file
visible_file-some none h = cc
visible_file-some (some info) h = ground arith

stability_reasons-nil :
    (input : Input) (previous : Option Observation) (path : Bytes) (info : FileInfo)
    → stability_reasons input previous path info ≡ []
    → (o : Observation) × (previous ≡ some o)
      × (same_file o path info ≡ true)
      × (ltb_ℤ (time_sub input.now o.stable_since) input.policy.stable_for ≡ false)
      × (ltb_ℤ (time_sub input.now info.mod_time) input.policy.stable_for ≡ false)
unfolding stability_reasons
stability_reasons-nil input none path info h = cc
stability_reasons-nil input (some o) path info h =
    (o, refl, ground arith, ground arith, ground arith)

append-eq_nil {ℓ} : {A : Type ℓ} (xs ys : List A) → xs ++ ys ≡ [] → (xs ≡ []) × (ys ≡ [])
append-eq_nil [] ys h = (refl, h)
append-eq_nil (x ∷ xs) ys h = cc

later_reasons-nil :
    (env : Surroundings) (input : Input) (s : Session) (info : FileInfo)
    → later_reasons env input s info ≡ ok []
    → (probe env s ≡ ok false)
      × ((input.policy.archived_only ≡ false) ⊎ (s.archived ≡ true))
      × (input.gates.doctor_healthy ≡ true)
      × (input.gates.enrollment_allowed ≡ true)
      × (stability_reasons input (find_observation s.id input.previous) (clean s.rollout_path) info
          ≡ [])
unfolding later_reasons
later_reasons-nil env input s info h = ground arith

judge-judged :
    (env : Surroundings) (input : Input) (s : Session) (info : FileInfo) (reasons : List Reason)
    → judge env input s ≡ ok (judged info reasons)
    → (refusal input s ≡ none)
      × (visible_file (env.lstat s.rollout_path) ≡ some info)
      × (later_reasons env input s info ≡ ok reasons)
unfolding judge judge_file
judge-judged env input s info reasons h = ground arith

-- A judgement without a reason makes the session admissible.
pub judge-Admissible :
    (env : Surroundings) (input : Input) (s : Session) (info : FileInfo)
    → judge env input s ≡ ok (judged info [])
    → Admissible env input s info
judge-Admissible env input s info h =
    let (accepted, visible, clear) = judge-judged env input s info [] h in
    let (unmanaged, safe_id, absolute, mounted, canonical, active, ready) =
      refusal-none input s accepted in
    let (seen, regular) = visible_file-some (env.lstat s.rollout_path) visible in
    let (no_writer, archive_rule, healthy, allowed, stable) =
      later_reasons-nil env input s info clear in
    let (before, observed, unchanged, watched_long, untouched_long) =
      stability_reasons-nil input _ _ info stable in
    record {
      unmanaged = unmanaged;
      safe_id = safe_id;
      absolute = absolute;
      mounted = mounted;
      canonical = canonical;
      active = active;
      ready = ready;
      healthy = healthy;
      allowed = allowed;
      seen = seen;
      regular = regular;
      archive_rule = archive_rule;
      no_writer = no_writer;
      before = before;
      observed = observed;
      unchanged = unchanged;
      watched_long = watched_long;
      untouched_long = untouched_long;
    }
