-- ===== src/Enroll/Apply/Calls.antt =====
-- What `Apply` calls back for.
use codexfold.Prelude.{
  ◌+◌, ◌≡◌, refl, sym, ap, subst, ◌∙◌, ◌⊎◌, inl, inr, List, [], ◌∷◌, ◌++◌, Option, none, some,
  Outcome, ok, err, length, arith, append_assoc, append-nil,
}
use codexfold.Prelude.Int.{ℤ}
use codexfold.Enroll.Plan.{Decision}
use codexfold.Enroll.Apply.{
  ApplyFault, apply_failed, ApplyResult, World, Applied, after_apply, revalidate, apply_loop,
  apply_valid, apply_plan,
}

-- The callback took each decision, after those before it.
abbrev pub Took : World → List Decision → List Decision → Type 0
Took w before [] = Unit
Took w before (d ∷ ds) = (w.apply before d ≡ ok tt) × Took w (before ++ (d ∷ [])) ds

-- The calls for the decisions that stand: all were taken, or one was refused and is the last.
pub data Called (w : World) (before : List Decision) (result : ApplyResult) (ds : List Decision)
    (a : Applied) : Type 0 where
  took_all :
      Took w before ds
      → a.called ≡ before ++ ds
      → a.fault ≡ none
      → a.result ≡ record result { applied = result.applied + length ds }
      → Called w before result ds a
  refused_one :
      (front : List Decision) (d : Decision) (back : List Decision) (e : ApplyFault)
      → ds ≡ front ++ (d ∷ back)
      → Took w before front
      → w.apply (before ++ front) d ≡ err e
      → a.called ≡ before ++ (front ++ (d ∷ []))
      → a.fault ≡ some (apply_failed d.session_id)
      → a.result ≡ record result { applied = result.applied + length front }
      → Called w before result ds a

module _ (w : World) where
  first_taken :
      (before : List Decision) (result : ApplyResult) (d : Decision) (ds : List Decision)
      (a : Applied)
      → w.apply before d ≡ ok tt
      → Called w (before ++ (d ∷ [])) (record result { applied = result.applied + 1 }) ds a
      → Called w before result (d ∷ ds) a
  first_taken before result d ds a taken (took_all rest calls fine counts) =
      took_all (taken, rest) (calls ∙ append_assoc before (d ∷ []) ds) fine
        (counts ∙ ap (λ k. record result { applied = k }) (omega arith))
  first_taken before result d ds a taken
        (refused_one front x back e split rest refusal calls failed counts) =
      refused_one (d ∷ front) x back e (ap (◌∷◌ d) split) (taken, rest)
        (subst (λ l. w.apply l x ≡ err e) (append_assoc before (d ∷ []) front) refusal)
        (calls ∙ append_assoc before (d ∷ []) (front ++ (x ∷ []))) failed
        (counts ∙ ap (λ k. record result { applied = k }) (omega arith))

  after_apply-Called :
      (o : Outcome ApplyFault (Unit {0})) (before : List Decision) (result : ApplyResult)
      (d : Decision) (ds : List Decision) (rest : Applied)
      → w.apply before d ≡ o
      → Called w (before ++ (d ∷ [])) (record result { applied = result.applied + 1 }) ds rest
      → Called w before result
          (d ∷ ds)
          (after_apply o (before ++ (d ∷ [])) result d.session_id rest)
  unfolding after_apply
  after_apply-Called (err e) before result d ds rest h k =
      refused_one [] d ds e refl tt (subst (λ l. w.apply l d ≡ err e) (sym (append-nil before)) h)
        refl refl (ap (λ n. record result { applied = n }) (omega arith))
  after_apply-Called (ok u) before result d ds rest h k = first_taken before result d ds rest h k

  apply_loop-Called :
      (before : List Decision) (result : ApplyResult) (ds : List Decision)
      → Called w before result ds (apply_loop w before result ds)
  unfolding apply_loop
  apply_loop-Called before result [] =
      took_all tt (sym (append-nil before)) refl
        (ap (λ n. record result { applied = n }) (omega arith))
  apply_loop-Called before result (d ∷ ds) =
      after_apply-Called (w.apply before d) before result d ds _ refl
        (apply_loop-Called (before ++ (d ∷ [])) (record result { applied = result.applied + 1 }) ds)

  valid-Called :
      (fault : Option ApplyFault) (result : ApplyResult) (ds : List Decision)
      → ((fault ≡ none) × Called w [] result ds (apply_valid w fault result ds))
        ⊎ ((e : ApplyFault) × (fault ≡ some e)
            × (apply_valid w fault result ds
                ≡ record { called = []; result = result; fault = some e }))
  unfolding apply_valid
  valid-Called none result ds = inl (refl, apply_loop-Called [] result ds)
  valid-Called (some e) result ds = inr (e, refl, refl)

-- Where `Revalidate` fails, `Apply` returns its counts and its error, and calls nothing. Else it
-- calls back for the decisions that `Revalidate` kept, in their order: for all of them, if the
-- callback takes each, and then without an error; or up to the first that it refuses, whose session
-- its error names. It counts as applied those that the callback took, beside the counts of
-- `Revalidate`.
pub apply_plan-Called :
    (w : World) (selected : List Decision) (limit : ℤ)
    → (let r = revalidate w selected limit in
        ((r.fault ≡ none) × Called w [] r.result r.decisions (apply_plan w selected limit))
        ⊎ ((e : ApplyFault) × (r.fault ≡ some e)
            × (apply_plan w selected limit
                ≡ record { called = []; result = r.result; fault = some e })))
unfolding apply_plan
apply_plan-Called w selected limit =
    let r = revalidate w selected limit in valid-Called w r.fault r.result r.decisions
