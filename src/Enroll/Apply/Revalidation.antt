-- ===== src/Enroll/Apply/Revalidation.antt =====
-- What `Revalidate` does with each selected decision.
use codexfold.Prelude.{
  ℕ, zero, suc, ◌+◌, ◌≤◌, ◌<◌, ltb, ◌≡◌, refl, sym, ap, subst, ◌∙◌, ◌⊎◌, inl, inr, Bool, true,
  false, List, [], ◌∷◌, ◌++◌, Option, none, some, Outcome, ok, err, length, min, take, arith,
  append_assoc, append-nil, Bool-cases,
}
use codexfold.Prelude.Int.{ℤ, pos, negsuc, eq_ℤ, eq_ℤ→eq}
use codexfold.Enroll.Plan.{Decision, FileInfo}
use codexfold.Enroll.Apply.{
  ApplyFault, cancelled, ApplyResult, World, still_matches, Revalidated, limit_of, no_counts, look,
  revalidate_loop, revalidate,
}

-- The file at the path is the regular file of the size and time that the plan saw.
pub record IsUnchanged (d : Decision) (o : Option FileInfo) : Type 0 where
  pub info : FileInfo
  pub seen : o ≡ some info
  pub regular : info.regular ≡ true
  pub size : info.size ≡ d.fingerprint.size
  pub mod_time : info.mod_time ≡ d.fingerprint.mod_time

eq_ℤ_refl : (a : ℤ) → eq_ℤ a a ≡ true
eq_ℤ_refl (pos n) = ground arith
eq_ℤ_refl (negsuc n) = ground arith

matches-IsUnchanged :
    (d : Decision) (o : Option FileInfo) → still_matches d o ≡ true → IsUnchanged d o
unfolding still_matches
matches-IsUnchanged d none h = absurd (ground (arith, h))
matches-IsUnchanged d (some info) h = record {
  info = info;
  seen = refl;
  regular = ground arith;
  size = eq_ℤ→eq info.size d.fingerprint.size (ground arith);
  mod_time = eq_ℤ→eq info.mod_time d.fingerprint.mod_time (ground arith);
}

IsUnchanged-matches :
    (d : Decision) (o : Option FileInfo) → IsUnchanged d o → still_matches d o ≡ true
unfolding still_matches
IsUnchanged-matches d o u =
    rw (u.seen, u.size, u.mod_time)
      (ground (arith, u.regular, eq_ℤ_refl d.fingerprint.size, eq_ℤ_refl d.fingerprint.mod_time))

-- The decisions in order: each is kept, or counted as managed, or counted as changed.
pub data Sifts (w : World) : List Decision → List Decision → ℕ → ℕ → Type 0 where
  over : Sifts w [] [] 0 0
  stays :
      {d : Decision} {ds ks : List Decision} {changed managed : ℕ}
      → w.context_done d ≡ false
      → w.is_managed d.session_id ≡ ok false
      → IsUnchanged d (w.lstat d.rollout_path)
      → Sifts w ds ks changed managed
      → Sifts w (d ∷ ds) (d ∷ ks) changed managed
  managed_by_now :
      {d : Decision} {ds ks : List Decision} {changed managed : ℕ}
      → w.context_done d ≡ false
      → w.is_managed d.session_id ≡ ok true
      → Sifts w ds ks changed managed
      → Sifts w (d ∷ ds) ks changed (managed + 1)
  changed_by_now :
      {d : Decision} {ds ks : List Decision} {changed managed : ℕ}
      → w.context_done d ≡ false
      → w.is_managed d.session_id ≡ ok false
      → ¬ IsUnchanged d (w.lstat d.rollout_path)
      → Sifts w ds ks changed managed
      → Sifts w (d ∷ ds) ks (changed + 1) managed

-- Where the loop ends: with nothing left, or at a decision for which the context is done or the
-- managed state is not known.
abbrev pub Stops : World → List Decision → Option ApplyFault → Type 0
Stops w [] none = Unit
Stops w (d ∷ ds) (some e) =
    ((w.context_done d ≡ true) × (e ≡ cancelled))
    ⊎ ((w.context_done d ≡ false) × (w.is_managed d.session_id ≡ err e))
Stops w _ _ = ⊥

-- What the loop makes of the decisions that are left, behind those that it kept and counted.
pub record Sifted (w : World) (kept : List Decision) (result : ApplyResult) (todo : List Decision)
    (r : Revalidated) : Type 0 where
  pub front : List Decision
  pub back : List Decision
  pub split : todo ≡ front ++ back
  pub ks : List Decision
  pub changed : ℕ
  pub managed : ℕ
  pub sifts : Sifts w front ks changed managed
  pub decisions : r.decisions ≡ kept ++ ks
  pub selected_same : r.result.selected ≡ result.selected
  pub applied_same : r.result.applied ≡ result.applied
  pub changed_is : r.result.skipped_changed ≡ result.skipped_changed + changed
  pub managed_is : r.result.skipped_managed ≡ result.skipped_managed + managed
  pub stops : Stops w back r.fault

module _ (w : World) where
  -- What holds of each way to go on holds of the round.
  look-cases :
      (done : Bool) (managed : Outcome ApplyFault Bool) (matches : Bool) (P : Revalidated → Type 0)
      (stop : ApplyFault → Revalidated) (a b c : Revalidated)
      → (done ≡ true → P (stop cancelled))
      → ((e : ApplyFault) → done ≡ false → managed ≡ err e → P (stop e))
      → (done ≡ false → managed ≡ ok true → P a)
      → (done ≡ false → managed ≡ ok false → matches ≡ false → P b)
      → (done ≡ false → managed ≡ ok false → matches ≡ true → P c)
      → P (look done managed matches stop a b c)
  unfolding look
  look-cases true managed matches P stop a b c o p q r k = o refl
  look-cases false (err e) matches P stop a b c o p q r k = p e refl refl
  look-cases false (ok true) matches P stop a b c o p q r k = q refl refl
  look-cases false (ok false) false P stop a b c o p q r k = r refl refl refl
  look-cases false (ok false) true P stop a b c o p q r k = k refl refl refl

  stopped :
      (kept : List Decision) (result : ApplyResult) (todo : List Decision)
      (fault : Option ApplyFault)
      → Stops w todo fault
      → Sifted w kept result todo (record { decisions = kept; result = result; fault = fault })
  stopped kept result todo fault why = record {
    front = [];
    back = todo;
    split = refl;
    ks = [];
    changed = 0;
    managed = 0;
    sifts = over;
    decisions = sym (append-nil kept);
    selected_same = refl;
    applied_same = refl;
    changed_is = omega arith;
    managed_is = omega arith;
    stops = why;
  }

  revalidate_loop-Sifted :
      (kept : List Decision) (result : ApplyResult) (todo : List Decision)
      → Sifted w kept result todo (revalidate_loop w kept result todo)
  unfolding revalidate_loop
  revalidate_loop-Sifted kept result [] = stopped kept result [] none tt
  revalidate_loop-Sifted kept result (d ∷ ds) =
      look-cases (w.context_done d) (w.is_managed d.session_id) _ (Sifted w kept result (d ∷ ds)) _
        _ _ _ (λ over_now. stopped kept result (d ∷ ds) (some cancelled) (inl (over_now, refl)))
        (λ e goes unknown. stopped kept result (d ∷ ds) (some e) (inr (goes, unknown)))
        (λ goes yes.
          let r =
            revalidate_loop-Sifted kept
              (record result { skipped_managed = result.skipped_managed + 1 }) ds in
          record {
            front = d ∷ r.front;
            back = r.back;
            split = ap (◌∷◌ d) r.split;
            ks = r.ks;
            changed = r.changed;
            managed = r.managed + 1;
            sifts = managed_by_now goes yes r.sifts;
            decisions = r.decisions;
            selected_same = r.selected_same;
            applied_same = r.applied_same;
            changed_is = r.changed_is;
            managed_is = omega (arith, r.managed_is);
            stops = r.stops;
          })
        (λ goes no differs.
          let r =
            revalidate_loop-Sifted kept
              (record result { skipped_changed = result.skipped_changed + 1 }) ds in
          record {
            front = d ∷ r.front;
            back = r.back;
            split = ap (◌∷◌ d) r.split;
            ks = r.ks;
            changed = r.changed + 1;
            managed = r.managed;
            sifts =
                changed_by_now goes no
                  (λ u. absurd (ground (arith, IsUnchanged-matches d _ u, differs))) r.sifts;
            decisions = r.decisions;
            selected_same = r.selected_same;
            applied_same = r.applied_same;
            changed_is = omega (arith, r.changed_is);
            managed_is = r.managed_is;
            stops = r.stops;
          })
        (λ goes no same.
          let r = revalidate_loop-Sifted (kept ++ d ∷ []) result ds in
          record {
            front = d ∷ r.front;
            back = r.back;
            split = ap (◌∷◌ d) r.split;
            ks = d ∷ r.ks;
            changed = r.changed;
            managed = r.managed;
            sifts = stays goes no (matches-IsUnchanged d _ same) r.sifts;
            decisions = r.decisions ∙ append_assoc kept (d ∷ []) r.ks;
            selected_same = r.selected_same;
            applied_same = r.applied_same;
            changed_is = r.changed_is;
            managed_is = r.managed_is;
            stops = r.stops;
          })

-- How many of so many decisions a limit leaves: one that is not positive, or too large, is none.
abbrev pub IsLimit : ℤ → ℕ → ℕ → Type 0
IsLimit (negsuc k) size n = n ≡ size
IsLimit (pos k) size n = ((0 < k) × (k ≤ size) × (n ≡ k)) ⊎ (((k ≡ 0) ⊎ (size < k)) × (n ≡ size))

limit_of-IsLimit : (limit : ℤ) (ds : List Decision) → IsLimit limit (length ds) (limit_of limit ds)
limit_of-IsLimit (negsuc k) ds = ground arith
limit_of-IsLimit (pos zero) ds = inr (inl refl, ground arith)
limit_of-IsLimit (pos (suc k)) ds = elim (Bool-cases (ltb (length ds) (suc k))) [
  | inl more ↦ inr (inr (ground arith), ground arith)
  | inr within ↦ inl (omega arith, ground arith, ground arith)
]

limit_of-le : (limit : ℤ) (ds : List Decision) → limit_of limit ds ≤ length ds
limit_of-le (negsuc k) ds = ground arith
limit_of-le (pos zero) ds = ground arith
limit_of-le (pos (suc k)) ds = ground arith

-- `Revalidate` goes through the selected decisions, as many as the limit leaves, in their order. Each
-- is kept, if its session is not managed and its file still is a regular one of the size and time
-- that the plan saw, or counted as changed or as managed, up to the first one for which the context
-- is done or the managed state is not known; that is the error it returns, and none comes with all
-- of them gone through. `Selected` is their number, and nothing is counted as applied.
pub revalidate-Sifted :
    (w : World) (selected : List Decision) (limit : ℤ)
    → (n : ℕ) × IsLimit limit (length selected) n
      × Sifted w [] (no_counts n) (take n selected) (revalidate w selected limit)
unfolding revalidate
revalidate-Sifted w selected limit =
    let n = limit_of limit selected in
    let few : min n (length selected) ≡ n = omega (arith, limit_of-le limit selected) in
    (
      n,
      limit_of-IsLimit limit selected,
      subst
          (λ k.
            Sifted w [] (no_counts n) (take n selected)
              (revalidate_loop w [] (no_counts k) (take n selected)))
          (sym few) (revalidate_loop-Sifted w [] (no_counts n) (take n selected)),
    )
