-- ===== src/Enroll/Plan.antt =====
-- internal/enroll/planner.go: the planner's data, and what it thinks of one session. Times and
-- durations are nanoseconds; `time.Time{}` as the present is `none`. The file system, the probe for
-- writers, the storage budget and the cancellation of the context are parameters.
use codexfold.Prelude.{
  Bool, true, false, not, ◌&&◌, ◌||◌, List, [], ◌∷◌, ◌++◌, Option, none, some, Outcome, ok, ◌>>=◌,
  ◌==◌, if◌then◌else◌,
}
use codexfold.Prelude.Int.{ℤ, pos, negsuc, max_int64, exact_sub, eq_ℤ, ltb_ℤ}
use codexfold.Prelude.Bytes.{Bytes, bytes_eq, is_empty, contains_any}
use codexfold.FilePath.{clean, is_abs}
use codexfold.Enroll.Estimate.{EstimateFault}

pub data Reason : Type 0 where
  already_managed not_archived invalid_path namespace_inactive mount_warming : Reason
  stability_pending file_changed writer_active doctor_unhealthy mount_unhealthy : Reason
  namespace_disabled promotion_stage insufficient_budget batch_limit : Reason

-- `codex.Session`
pub record Session : Type 0 where
  pub id : Bytes
  pub title : Bytes
  pub cwd : Bytes
  pub rollout_path : Bytes
  pub model_provider : Bytes
  pub model : Bytes
  pub updated_at : ℤ
  pub archived : Bool
  pub git_branch : Bytes

pub record Policy : Type 0 where
  pub stable_for : ℤ
  pub batch_size : ℤ
  pub archived_only : Bool

pub record Gates : Type 0 where
  pub doctor_healthy : Bool
  pub mount_healthy : Bool
  pub canonical_namespace : Bool
  pub namespace_active : Bool
  pub namespace_ready : Bool
  pub enrollment_allowed : Bool

pub record Observation : Type 0 where
  pub path : Bytes
  pub size : ℤ
  pub mod_time : ℤ
  pub stable_since : ℤ

-- A map from session IDs.
abbrev pub Observations : Type 0
Observations = List (Bytes × Observation)

unfoldable pub find_observation : Bytes → Observations → Option Observation
find_observation id [] = none
find_observation id ((k, o) ∷ rest) = if bytes_eq k id then some o else find_observation id rest

unfoldable pub set_observation : Bytes → Observation → Observations → Observations
set_observation id o [] = (id, o) ∷ []
set_observation id o ((k, p) ∷ rest) =
    if bytes_eq k id then (id, o) ∷ rest else (k, p) ∷ set_observation id o rest

pub record Fingerprint : Type 0 where
  pub size : ℤ
  pub mod_time : ℤ

pub record Decision : Type 0 where
  pub session_id : Bytes
  pub rollout_path : Bytes
  pub archived : Bool
  pub eligible : Bool
  pub selected : Bool
  pub reasons : List Reason
  pub fingerprint : Fingerprint

-- What `os.Lstat` tells of a path.
pub record FileInfo : Type 0 where
  pub regular : Bool
  pub size : ℤ
  pub mod_time : ℤ

-- `storage.Projection`, as the planner fills it in.
pub record Projection : Type 0 where
  pub session_id : Bytes
  pub additional_persistent_bytes : ℤ
  pub temporary_bytes : ℤ

pub data Price : Type 0 where
  affordable over_budget failed : Price

pub data PlanFault : Type 0 where
  interrupted probe_failed budget_failed batch_overflow : PlanFault
  estimate : EstimateFault → PlanFault

-- What the planner asks of its surroundings. A probe or a budget that is `nil` is `none`.
pub record Surroundings : Type 0 where
  pub lstat : Bytes → Option FileInfo
  pub writer_probe : Option (Session → Outcome PlanFault Bool)
  pub budget : Option (Projection → Price)
  pub cancelled : Session → Bool

pub record Input : Type 0 where
  pub sessions : List Session
  pub managed : Bytes → Bool
  pub previous : Observations
  pub now : ℤ
  pub policy : Policy
  pub gates : Gates

unfoldable pub safe_session_id : Bytes → Bool
safe_session_id id =
    not (is_empty id)
    && not (bytes_eq id (b'.' ∷ []))
    && not (bytes_eq id (b'.' ∷ b'.' ∷ []))
    && not (contains_any (λ c. c == b'/' || c == b'\\' || c == 0) id)

-- The refusals that end the judgement of a session at once, up to the look at its file.
unfoldable pub refusal : Input → Session → Option Reason
refusal input s =
    if input.managed s.id
    then some already_managed
    else if not (safe_session_id s.id) || not (is_abs s.rollout_path)
    then some invalid_path
    else if not input.gates.mount_healthy
    then some mount_unhealthy
    else if not input.gates.canonical_namespace
    then some namespace_disabled
    else if not input.gates.namespace_active
    then some namespace_inactive
    else if not input.gates.namespace_ready
    then some mount_warming
    else none

abbrev pub reason_if : Bool → Reason → List Reason
reason_if true reason = reason ∷ []
reason_if false reason = []

-- `t.Sub(u)`: the difference, held within an `int64`.
unfoldable pub time_sub : ℤ → ℤ → ℤ
time_sub t u =
    let d = exact_sub t u in
    if ltb_ℤ (pos max_int64) d
    then pos max_int64
    else if ltb_ℤ d (negsuc max_int64)
    then negsuc max_int64
    else d

abbrev pub is_some {ℓ} : {A : Type ℓ} → Option A → Bool
is_some none = false
is_some (some a) = true

-- The file is the one that was seen before.
unfoldable pub same_file : Observation → Bytes → FileInfo → Bool
same_file o path info =
    bytes_eq (clean o.path) path && eq_ℤ o.size info.size && eq_ℤ o.mod_time info.mod_time

abbrev pub unchanged_from : Option Observation → Bytes → FileInfo → Bool
unchanged_from none path info = false
unchanged_from (some o) path info = same_file o path info

abbrev pub stable_since_of : Input → Option Observation → Bytes → FileInfo → ℤ
stable_since_of input none path info = input.now
stable_since_of input (some o) path info =
    if same_file o path info then o.stable_since else input.now

-- The `switch` on how long the file has been left alone.
unfoldable pub stability_reasons : Input → Option Observation → Bytes → FileInfo → List Reason
stability_reasons input previous path info =
    if not (is_some previous)
    then stability_pending ∷ []
    else if not (unchanged_from previous path info)
    then file_changed ∷ []
    else if ltb_ℤ (time_sub input.now (stable_since_of input previous path info))
        input.policy.stable_for
    then stability_pending ∷ []
    else if ltb_ℤ (time_sub input.now info.mod_time) input.policy.stable_for
    then stability_pending ∷ []
    else []

unfoldable pub probe : Surroundings → Session → Outcome PlanFault Bool
probe env s = elim env.writer_probe [ none ↦ ok false | some ask ↦ ask s ]

-- All the reasons against a session whose file can be seen, but for its price.
unfoldable pub later_reasons :
    Surroundings → Input → Session → FileInfo → Outcome PlanFault (List Reason)
later_reasons env input s info = do
  active ← probe env s
  ok (
      reason_if (input.policy.archived_only && not s.archived) not_archived
      ++ (reason_if (not input.gates.doctor_healthy) doctor_unhealthy
          ++ (reason_if (not input.gates.enrollment_allowed) promotion_stage
              ++ (reason_if active writer_active
                  ++ stability_reasons input (find_observation s.id input.previous)
                      (clean s.rollout_path) info))))

abbrev pub blank_decision : Session → Decision
blank_decision s = record {
  session_id = s.id;
  rollout_path = clean s.rollout_path;
  archived = s.archived;
  eligible = false;
  selected = false;
  reasons = [];
  fingerprint = record { size = pos 0; mod_time = pos 0 };
}

abbrev pub measured_decision : Session → FileInfo → List Reason → Decision
measured_decision s info reasons = record (blank_decision s) {
  reasons = reasons;
  fingerprint = record { size = info.size; mod_time = info.mod_time };
}

abbrev pub observation_of : Input → Session → FileInfo → Observation
observation_of input s info = record {
  path = clean s.rollout_path;
  size = info.size;
  mod_time = info.mod_time;
  stable_since =
      stable_since_of input (find_observation s.id input.previous) (clean s.rollout_path) info;
}

-- A session is refused without a look at its file, or it is observed and judged.
pub data Judgement : Type 0 where
  refused : Decision → Judgement
  judged : FileInfo → List Reason → Judgement

unfoldable pub visible_file : Option FileInfo → Option FileInfo
visible_file none = none
visible_file (some info) = if info.regular then some info else none

unfoldable pub judge_file :
    Surroundings → Input → Session → Option FileInfo → Outcome PlanFault Judgement
judge_file env input s none =
    ok (refused (record (blank_decision s) { reasons = invalid_path ∷ [] }))
judge_file env input s (some info) = do
  reasons ← later_reasons env input s info
  ok (judged info reasons)

unfoldable pub judge : Surroundings → Input → Session → Outcome PlanFault Judgement
unfolding judge_file visible_file
judge env input s = elim (refusal input s) [
  | some reason ↦ ok (refused (record (blank_decision s) { reasons = reason ∷ [] }))
  | none ↦ judge_file env input s (visible_file (env.lstat s.rollout_path))
]
