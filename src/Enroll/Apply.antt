-- ===== src/Enroll/Apply.antt =====
-- internal/enroll/apply.go: the plan is checked against the present once more, and carried out.
-- The file system, the question whether a session has become managed, the work itself and the
-- cancellation of the context are parameters.
pub mod Revalidation
pub mod Calls
use codexfold.Prelude.{
  ℕ, zero, suc, ◌+◌, ◌≤◌, ◌≡◌, refl, sym, ap, ◌∙◌, Bool, true, false, not, ◌&&◌, ◌||◌, List, [],
  ◌∷◌, ◌++◌, Option, none, some, Outcome, ok, err, ltb, leb, length, take, min, if◌then◌else◌,
  arith, length-append, length-take, append_assoc, All, All-append, ◌⊎◌, inl, inr, Bool-cases,
}
use codexfold.Prelude.Int.{ℤ, pos, negsuc, pos_part, ltb_ℤ, eq_ℤ}
use codexfold.Prelude.Bytes.{Bytes}
use codexfold.Enroll.Plan.{FileInfo, Fingerprint, Decision}

pub data ApplyFault : Type 0 where
  cancelled managed_unknown callbacks_required : ApplyFault
  apply_failed : Bytes → ApplyFault

pub record ApplyResult : Type 0 where
  pub selected : ℕ
  pub applied : ℕ
  pub skipped_changed : ℕ
  pub skipped_managed : ℕ

-- The world as the loops meet it. What the callback answers may depend on its calls so far.
pub record World : Type 0 where
  pub context_done : Decision → Bool
  pub is_managed : Bytes → Outcome ApplyFault Bool
  pub lstat : Bytes → Option FileInfo
  pub apply : List Decision → Decision → Outcome ApplyFault (Unit {0})

-- The file is still the one that the plan was made for.
unfoldable pub still_matches : Decision → Option FileInfo → Bool
still_matches d none = false
still_matches d (some info) =
    info.regular && eq_ℤ info.size d.fingerprint.size && eq_ℤ info.mod_time d.fingerprint.mod_time

-- The decisions that stand, the counts, and the error that ended the loop, if one did: Go returns
-- all three.
pub record Revalidated : Type 0 where
  pub decisions : List Decision
  pub result : ApplyResult
  pub fault : Option ApplyFault

abbrev pub limit_of : ℤ → List Decision → ℕ
limit_of limit ds =
    if not (ltb_ℤ (pos 0) limit) || ltb_ℤ (pos (length ds)) limit then length ds else pos_part limit

abbrev pub no_counts : ℕ → ApplyResult
no_counts n = record { selected = n; applied = 0; skipped_changed = 0; skipped_managed = 0 }

-- One round of the loop: what the context, the managed state and the file on disk say, and how the
-- loop goes on in each case.
unfoldable pub look :
    Bool
    → Outcome ApplyFault Bool
    → Bool
    → (ApplyFault → Revalidated)
    → Revalidated
    → Revalidated
    → Revalidated
    → Revalidated
look true managed matches stop skip_managed skip_changed keep = stop cancelled
look false (err e) matches stop skip_managed skip_changed keep = stop e
look false (ok true) matches stop skip_managed skip_changed keep = skip_managed
look false (ok false) false stop skip_managed skip_changed keep = skip_changed
look false (ok false) true stop skip_managed skip_changed keep = keep

-- What `Apply` returns, and the decisions that its callback was called with.
pub record Applied : Type 0 where
  pub called : List Decision
  pub result : ApplyResult
  pub fault : Option ApplyFault

-- The callback's answer for one decision: an error ends the batch, and the result so far comes back
-- beside it.
unfoldable pub after_apply :
    Outcome ApplyFault (Unit {0}) → List Decision → ApplyResult → Bytes → Applied → Applied
after_apply (err e) called result session_id rest = record {
  called = called;
  result = result;
  fault = some (apply_failed session_id);
}
after_apply (ok _) called result session_id rest = rest

module _ (w : World) where
  unfoldable pub revalidate_loop : List Decision → ApplyResult → List Decision → Revalidated
  revalidate_loop kept result [] = record { decisions = kept; result = result; fault = none }
  revalidate_loop kept result (d ∷ ds) =
      look (w.context_done d) (w.is_managed d.session_id) (still_matches d (w.lstat d.rollout_path))
        (λ e. record { decisions = kept; result = result; fault = some e })
        (revalidate_loop kept (record result { skipped_managed = result.skipped_managed + 1 }) ds)
        (revalidate_loop kept (record result { skipped_changed = result.skipped_changed + 1 }) ds)
        (revalidate_loop (kept ++ d ∷ []) result ds)

  unfoldable pub revalidate : List Decision → ℤ → Revalidated
  revalidate selected limit =
      revalidate_loop [] (no_counts (min (limit_of limit selected) (length selected)))
        (take (limit_of limit selected) selected)

  unfoldable pub apply_loop : List Decision → ApplyResult → List Decision → Applied
  apply_loop called result [] = record { called = called; result = result; fault = none }
  apply_loop called result (d ∷ ds) =
      let called' = called ++ d ∷ [] in
      after_apply (w.apply called d) called' result d.session_id
        (apply_loop called' (record result { applied = result.applied + 1 }) ds)

  unfoldable pub apply_valid : Option ApplyFault → ApplyResult → List Decision → Applied
  apply_valid (some e) result ds = record { called = []; result = result; fault = some e }
  apply_valid none result ds = apply_loop [] result ds

  unfoldable pub apply_plan : List Decision → ℤ → Applied
  apply_plan selected limit =
      let r = revalidate selected limit in apply_valid r.fault r.result r.decisions
