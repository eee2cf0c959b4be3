-- ===== src/Storage/Budget/Exact.antt =====
-- `CheckBudget` against the same question asked of unbounded numbers.
use codexfold.Prelude.{
  ℕ, ◌+◌, ◌-◌, ◌≤◌, ◌≡◌, refl, ◌∙◌, ◌↔◌, ◌⊎◌, true, false, ◌&&◌, List, [], ◌++◌, none, some, ltb,
  if◌then◌else◌, arith, Bool-cases, inl, inr,
}
use codexfold.Prelude.Bytes.{Bytes, is_empty}
use codexfold.Prelude.Int.{pos, sub_ℕ, max_int64, ltb_ℤ, ◌-64◌, +64-pos, -64-pos, -64-sub_ℕ}
use codexfold.Storage.Budget.{
  RejectionReason, physical_budget, temporary_budget, free_space_reserve, Limits, BudgetRequest,
  BudgetReport, Check, refused, granted, additional_overflow, peak_overflow, add_budget_bytes,
  min_ℤ, reject_if, budget_rejections, verdict_of, budget_report, final_step, peak_step,
  additional_step, check_budget,
}

pub record Quantities : Type 0 where
  pub current : ℕ
  pub persistent : ℕ
  pub temporary : ℕ
  pub overlap : ℕ
  pub reclaimable : ℕ
  pub available : ℕ

pub record Caps : Type 0 where
  pub physical : ℕ
  pub scratch : ℕ
  pub reserve : ℕ

-- The numbers fit the fields of the request, and the overlap is counted in both sums.
pub record IsSound (q : Quantities) : Type 0 where
  pub current_fits : q.current ≤ max_int64
  pub persistent_fits : q.persistent ≤ max_int64
  pub temporary_fits : q.temporary ≤ max_int64
  pub reclaimable_fits : q.reclaimable ≤ max_int64
  pub available_fits : q.available ≤ max_int64
  pub overlap_in_temporary : q.overlap ≤ q.temporary
  pub overlap_in_persistent : q.overlap ≤ q.persistent

abbrev pub request_of : Bytes → Quantities → BudgetRequest
request_of operation q = record {
  operation = operation;
  current_physical_bytes = pos q.current;
  additional_persistent_bytes = pos q.persistent;
  temporary_bytes = pos q.temporary;
  temporary_persistent_overlap_bytes = pos q.overlap;
  reclaimable_bytes = pos q.reclaimable;
  available_bytes = pos q.available;
}

abbrev pub limits_of : Caps → Limits
limits_of c = record {
  max_physical_bytes = pos c.physical;
  max_temporary_bytes = pos c.scratch;
  free_space_reserve_bytes = pos c.reserve;
}

abbrev pub additional : Quantities → ℕ
additional q = q.persistent + q.temporary - q.overlap

abbrev pub peak : Quantities → ℕ
peak q = q.current + additional q

abbrev pub exact_rejections : Quantities → Caps → List RejectionReason
exact_rejections q c =
    reject_if (ltb 0 c.physical && ltb c.physical (peak q)) physical_budget
    ++ (reject_if (ltb 0 c.scratch && ltb c.scratch q.temporary) temporary_budget
        ++ reject_if (ltb q.available (additional q + c.reserve)) free_space_reserve)

abbrev pub exact_report : Bytes → Quantities → BudgetReport
exact_report operation q = record {
  operation = operation;
  allowed = true;
  current_physical_bytes = pos q.current;
  projected_peak_bytes = pos (peak q);
  projected_final_bytes = pos (q.current + q.persistent - q.reclaimable);
  projected_reclaimable_bytes = pos q.reclaimable;
  available_bytes = pos q.available;
  free_space_after_peak = sub_ℕ q.available (additional q);
  rejections = [];
}

-- The answer on unbounded numbers: two sums may be too large to name, and else the rejections
-- decide.
abbrev pub exact_check : Bytes → Quantities → Caps → Check
exact_check operation q c =
    if ltb max_int64 (q.persistent + q.temporary)
    then refused additional_overflow
    else if ltb max_int64 (peak q)
    then refused peak_overflow
    else verdict_of (exact_report operation q) (exact_rejections q c)

add_budget_bytes-pos :
    (a b : ℕ)
    → a ≤ max_int64
    → b ≤ max_int64
    → add_budget_bytes (pos a) (pos b)
      ≡ (if ltb max_int64 (a + b) then none else some (pos (a + b)))
unfolding add_budget_bytes
add_budget_bytes-pos a b h k = ground (arith, -64-pos max_int64 b, +64-pos a b)

final-exact : (sum r : ℕ) → sum ≤ max_int64 → pos sum -64 min_ℤ (pos r) (pos sum) ≡ pos (sum - r)
final-exact sum r h = ground (arith, -64-pos sum r, -64-pos sum sum)

module _ (operation : Bytes) (q : Quantities) (c : Caps) (h : IsSound q) where
  rejections-exact :
      additional q ≤ max_int64
      → budget_rejections
          (request_of operation q)
          (limits_of c)
          (pos (peak q))
          (sub_ℕ q.available (additional q))
        ≡ exact_rejections q c
  unfolding budget_rejections
  rejections-exact fits = ground arith

  report-exact :
      peak q ≤ max_int64
      → budget_report
          (request_of operation q)
          (limits_of c)
          (pos (additional q))
          (pos (peak q))
          (pos (q.current + q.persistent))
        ≡ verdict_of (exact_report operation q) (exact_rejections q c)
  unfolding budget_report
  report-exact fits =
      rw
        (
          final-exact (q.current + q.persistent) q.reclaimable (omega arith),
          -64-sub_ℕ q.available (additional q) h.available_fits (omega arith),
          rejections-exact (omega arith),
        )
        refl

  final_step-exact :
      peak q ≤ max_int64
      → final_step
          (request_of operation q)
          (limits_of c)
          (pos (additional q))
          (pos (peak q))
          (add_budget_bytes (pos q.current) (pos q.persistent))
        ≡ verdict_of (exact_report operation q) (exact_rejections q c)
  final_step-exact fits =
      let small : ltb max_int64 (q.current + q.persistent) ≡ false = ground arith in
      rw
        (
          add_budget_bytes-pos q.current q.persistent h.current_fits h.persistent_fits,
          small,
          report-exact fits,
        )
        refl

  peak_step-exact :
      q.persistent + q.temporary ≤ max_int64
      → peak_step
          (request_of operation q)
          (limits_of c)
          (pos (additional q))
          (add_budget_bytes (pos q.current) (pos (additional q)))
        ≡ (if ltb max_int64 (peak q)
            then refused peak_overflow
            else verdict_of (exact_report operation q) (exact_rejections q c))
  peak_step-exact fits =
      rw (add_budget_bytes-pos q.current (additional q) h.current_fits (omega arith))
        (elim (Bool-cases (ltb max_int64 (peak q))) [
          | inl large ↦ rw large refl
          | inr small ↦ rw small (final_step-exact (ground arith))
        ])

  additional_step-exact :
      additional_step
        (request_of operation q)
        (limits_of c)
        (add_budget_bytes (pos q.persistent) (pos q.temporary))
      ≡ exact_check operation q c
  additional_step-exact =
      rw (add_budget_bytes-pos q.persistent q.temporary h.persistent_fits h.temporary_fits)
        (elim (Bool-cases (ltb max_int64 (q.persistent + q.temporary))) [
          | inl large ↦ rw large refl
          | inr small ↦
              rw
                (small, -64-pos (q.persistent + q.temporary) q.overlap (omega arith) (ground arith))
                (peak_step-exact (ground arith))
        ])

  -- For a named operation, quantities that fit an `int64` with the overlap within both sums,
  -- and limits that are not negative, `CheckBudget` answers as on unbounded numbers: no sum or
  -- difference of `int64` goes wrong, and the projection of the final bytes never overflows.
  pub check_budget-exact :
      is_empty operation ≡ false
      → check_budget (request_of operation q) (limits_of c) ≡ exact_check operation q c
  unfolding check_budget
  check_budget-exact named =
      let within_temporary : ltb_ℤ (pos q.temporary) (pos q.overlap) ≡ false = ground arith in
      let within_persistent : ltb_ℤ (pos q.persistent) (pos q.overlap) ≡ false = ground arith in
      rw (named, within_temporary, within_persistent) additional_step-exact

-- When a mutation is allowed: both sums can be named, the peak is within the physical cap and the
-- scratch space within its own (a cap of 0 is none), and the reserve stays free at the peak.
pub record Fits (q : Quantities) (c : Caps) : Type 0 where
  pub sum_fits : q.persistent + q.temporary ≤ max_int64
  pub peak_fits : peak q ≤ max_int64
  pub within_physical : (c.physical ≡ 0) ⊎ (peak q ≤ c.physical)
  pub within_scratch : (c.scratch ≡ 0) ⊎ (q.temporary ≤ c.scratch)
  pub reserve_kept : additional q + c.reserve ≤ q.available

exact_check-granted :
    (operation : Bytes) (q : Quantities) (c : Caps)
    → Fits q c
    → exact_check operation q c ≡ granted (exact_report operation q)
exact_check-granted operation q c f = ground arith

exact_check-Fits :
    (operation : Bytes) (q : Quantities) (c : Caps) (report : BudgetReport)
    → exact_check operation q c ≡ granted report
    → Fits q c
exact_check-Fits operation q c report h = ground arith

-- For a named operation, quantities that fit an `int64` with the overlap within both sums, and
-- limits that are not negative, `CheckBudget` returns no error exactly when the mutation fits, by
-- the conditions of `Fits`.
pub check_budget-granted :
    (operation : Bytes) (q : Quantities) (c : Caps)
    → IsSound q
    → is_empty operation ≡ false
    → ((report : BudgetReport) × (check_budget (request_of operation q) (limits_of c)
          ≡ granted report))
      ↔ Fits q c
check_budget-granted operation q c h named =
    let exact = check_budget-exact operation q c h named in
    (
      λ g. exact_check-Fits operation q c g.0 (rw exact at g.1),
      λ f. (exact_report operation q, exact ∙ exact_check-granted operation q c f),
    )
