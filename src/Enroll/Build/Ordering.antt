-- ===== src/Enroll/Build/Ordering.antt =====
-- The order in which `Build` decides on the sessions.
use codexfold.Prelude.{
  ◌≡◌, sym, ap, subst, ◌∙◌, ◌⊎◌, inl, inr, true, false, List, [], ◌∷◌, ◌++◌, map, Option, ok,
  ok-injective, append_assoc, append-nil, >>=-eq_ok, arith, All, Bool-cases,
}
use mathlib.Core.List.{map-append, Perm}
use mathlib.Core.List.Perm
use codexfold.Prelude.Int.{ℤ, pos, negsuc, ltb_ℤ, eq_ℤ, eq_ℤ→eq}
use codexfold.Prelude.Bytes.{Bytes}
use codexfold.Enroll.Plan.{Session, Decision, Surroundings, Input}
use codexfold.Enroll.Build.Step.{Passed, Taken, plan_session-Round}
use codexfold.Enroll.Build.Selection.{run-plan_sessions}
use codexfold.Enroll.Build.{
  Plan, Progress, session_less, insert_session, plan_session, plan_sessions, sort_sessions,
  empty_progress, complete, build,
}
use codexfold.Fold.Digests.Order.{Le, Le-trans, Lt→Le}

abbrev pub session_ids : List Session → List Bytes
session_ids = map (λ s. s.id)

abbrev pub decision_ids : List Decision → List Bytes
decision_ids = map (λ d. d.session_id)

decided_one :
    (env : Surroundings) (input : Input) (s : Session) (p p' : Progress)
    → Passed s p p' ⊎ Taken env input s p p'
    → decision_ids p'.decisions ≡ decision_ids p.decisions ++ s.id ∷ []
decided_one env input s p p' (inl r) =
    ap decision_ids r.decided
    ∙ map-append _ p.decisions _
    ∙ ap (λ x. decision_ids p.decisions ++ x ∷ []) r.about
decided_one env input s p p' (inr r) = ap decision_ids r.decided ∙ map-append _ p.decisions _

plan_sessions-decisions :
    (env : Surroundings) (input : Input) (ss : List Session) (p : Progress) {p' : Progress}
    → plan_sessions env input p ss ≡ ok p'
    → decision_ids p'.decisions ≡ decision_ids p.decisions ++ session_ids ss
unfolding plan_sessions
plan_sessions-decisions env input [] p h =
    ap (λ x. decision_ids x.decisions) (sym (ok-injective h))
    ∙ sym (append-nil (decision_ids p.decisions))
plan_sessions-decisions env input (s ∷ ss) p h =
    let (q, r, k) = >>=-eq_ok (plan_session env input p s) (λ x. plan_sessions env input x ss) h in
    plan_sessions-decisions env input ss q k
    ∙ ap (λ x. x ++ session_ids ss)
        (decided_one env input s p q (plan_session-Round env input s p r))
    ∙ append_assoc (decision_ids p.decisions) (s.id ∷ []) (session_ids ss)

-- One session stands before another: it was updated earlier, or at the same time and its ID is not
-- behind the other's.
abbrev pub Before : Session → Session → Type 0
Before a b =
    (ltb_ℤ a.updated_at b.updated_at ≡ true) ⊎ ((a.updated_at ≡ b.updated_at) × Le a.id b.id)

ltb_ℤ_trans : (a b c : ℤ) → ltb_ℤ a b ≡ true → ltb_ℤ b c ≡ true → ltb_ℤ a c ≡ true
ltb_ℤ_trans a b c h k = ground arith

ltb_ℤ_total : (a b : ℤ) → ltb_ℤ a b ≡ false → eq_ℤ a b ≡ false → ltb_ℤ b a ≡ true
ltb_ℤ_total (pos a) (pos b) h k = ground arith
ltb_ℤ_total (pos a) (negsuc b) h k = ground arith
ltb_ℤ_total (negsuc a) (pos b) h k = ground arith
ltb_ℤ_total (negsuc a) (negsuc b) h k = ground arith

Before-trans : (a b c : Session) → Before a b → Before b c → Before a c
Before-trans a b c (inl h) (inl k) = inl (ltb_ℤ_trans a.updated_at b.updated_at c.updated_at h k)
Before-trans a b c (inl h) (inr (e, k)) = inl (subst (λ t. ltb_ℤ a.updated_at t ≡ true) e h)
Before-trans a b c (inr (e, h)) (inl k) = inl (subst (λ t. ltb_ℤ t c.updated_at ≡ true) (sym e) k)
Before-trans a b c (inr (e, h)) (inr (f, k)) = inr (e ∙ f, Le-trans a.id b.id c.id h k)

less-Before : (a b : Session) → session_less a b ≡ true → Before a b
unfolding session_less
less-Before a b h = elim (Bool-cases (eq_ℤ a.updated_at b.updated_at)) [
  | inl same ↦ inr (eq_ℤ→eq a.updated_at b.updated_at same, Lt→Le a.id b.id (rw same at h))
  | inr apart ↦ inl (rw apart at h)
]

not_less-Before : (a b : Session) → session_less b a ≡ false → Before a b
unfolding session_less
not_less-Before a b h = elim (Bool-cases (eq_ℤ b.updated_at a.updated_at)) [
  | inl same ↦ inr (sym (eq_ℤ→eq b.updated_at a.updated_at same), (rw same at h))
  | inr apart ↦ inl (ltb_ℤ_total b.updated_at a.updated_at (rw apart at h) apart)
]

-- Each session stands before all that follow.
abbrev pub IsOrdered : List Session → Type 0
IsOrdered [] = Unit
IsOrdered (s ∷ ss) = All (Before s) ss × IsOrdered ss

All-Before :
    (a b : Session) (ss : List Session) → Before a b → All (Before b) ss → All (Before a) ss
All-Before a b [] h k = tt
All-Before a b (s ∷ ss) h (k, ks) = (Before-trans a b s h k, All-Before a b ss h ks)

insert_session-All :
    (a s : Session) (ss : List Session)
    → Before a s
    → All (Before a) ss
    → All (Before a) (insert_session s ss)
unfolding insert_session
insert_session-All a s [] h k = (h, tt)
insert_session-All a s (t ∷ ts) h (k, ks) = elim (Bool-cases (session_less t s)) [
  | inl less ↦ rw less (k, insert_session-All a s ts h ks)
  | inr not_less ↦ rw not_less (h, (k, ks))
]

insert_session-IsOrdered :
    (s : Session) (ss : List Session) → IsOrdered ss → IsOrdered (insert_session s ss)
unfolding insert_session
insert_session-IsOrdered s [] h = (tt, tt)
insert_session-IsOrdered s (t ∷ ts) (h, hs) = elim (Bool-cases (session_less t s)) [
  | inl less ↦
      rw less (insert_session-All t s ts (less-Before t s less) h, insert_session-IsOrdered s ts hs)
  | inr not_less ↦
      let before = not_less-Before s t not_less in
      rw not_less ((before, All-Before s t ts before h), (h, hs))
]

sort_sessions-IsOrdered : (ss : List Session) → IsOrdered (sort_sessions ss)
unfolding sort_sessions
sort_sessions-IsOrdered [] = tt
sort_sessions-IsOrdered (s ∷ ss) =
    insert_session-IsOrdered s (sort_sessions ss) (sort_sessions-IsOrdered ss)

insert_session-Perm : (s : Session) (ss : List Session) → Perm (insert_session s ss) (s ∷ ss)
unfolding insert_session
insert_session-Perm s [] = Perm.refl (s ∷ [])
insert_session-Perm s (t ∷ ts) = elim (Bool-cases (session_less t s)) [
  | inl less ↦ rw less (Perm.trans (Perm.cons t (insert_session-Perm s ts)) (Perm.swap s t ts))
  | inr not_less ↦ rw not_less (Perm.refl (s ∷ t ∷ ts))
]

sort_sessions-Perm : (ss : List Session) → Perm (sort_sessions ss) ss
unfolding sort_sessions
sort_sessions-Perm [] = Perm.refl []
sort_sessions-Perm (s ∷ ss) =
    Perm.trans (insert_session-Perm s (sort_sessions ss)) (Perm.cons s (sort_sessions-Perm ss))

-- Where `Build` returns a plan, its decisions are on the sessions of the input, on each as often as
-- it is there, in an order in which each session was updated earlier than all that follow, or at
-- the same time and its ID is not behind theirs.
pub build-decisions :
    (env : Surroundings) (clock : ℤ) (now : Option ℤ) (input : Input) {plan : Plan}
    → build env clock now input ≡ ok plan
    → (ss : List Session) × Perm ss input.sessions
      × IsOrdered ss
      × (decision_ids plan.decisions ≡ session_ids ss)
unfolding build
build-decisions env clock now input h =
    let input' = complete clock now input in
    let (p, e, same) = run-plan_sessions env input' h in
    (
      sort_sessions input.sessions,
      sort_sessions-Perm input.sessions,
      sort_sessions-IsOrdered input.sessions,
      rw same (
          plan_sessions-decisions env input' (sort_sessions input.sessions) (empty_progress input')
            e),
    )
