-- ===== src/Storage/Budget.antt =====
-- internal/storage/budget.go: the check that every mutation of the store goes through. Byte counts
-- are `int64`, and sums wrap as they do there.
pub mod Exact
use codexfold.Prelude.{
  ℕ, ◌+◌, Bool, true, false, ◌&&◌, ◌||◌, List, [], ◌∷◌, ◌++◌, Option, none, some, if◌then◌else◌,
}
use codexfold.Prelude.Bytes.{Bytes, is_empty}
use codexfold.Prelude.Int.{ℤ, pos, max_int64, ltb_ℤ, ◌+64◌, ◌-64◌, is_negative}

pub data RejectionReason : Type 0 where
  physical_budget temporary_budget free_space_reserve : RejectionReason

pub record Limits : Type 0 where
  pub max_physical_bytes : ℤ
  pub max_temporary_bytes : ℤ
  pub free_space_reserve_bytes : ℤ

pub record BudgetRequest : Type 0 where
  pub operation : Bytes
  pub current_physical_bytes : ℤ
  pub additional_persistent_bytes : ℤ
  pub temporary_bytes : ℤ
  pub temporary_persistent_overlap_bytes : ℤ
  pub reclaimable_bytes : ℤ
  pub available_bytes : ℤ

pub record BudgetReport : Type 0 where
  pub operation : Bytes
  pub allowed : Bool
  pub current_physical_bytes : ℤ
  pub projected_peak_bytes : ℤ
  pub projected_final_bytes : ℤ
  pub projected_reclaimable_bytes : ℤ
  pub available_bytes : ℤ
  pub free_space_after_peak : ℤ
  pub rejections : List RejectionReason

-- The errors that come with an empty report.
pub data Fault : Type 0 where
  operation_required negative_count overlap_too_large negative_limit : Fault
  additional_overflow peak_overflow final_overflow : Fault

-- `(BudgetReport, error)`: an error with no report, `ErrBudgetExceeded` with one, or no error.
pub data Check : Type 0 where
  refused : Fault → Check
  exceeded : BudgetReport → Check
  granted : BudgetReport → Check

-- `none` where the sum would overflow.
unfoldable pub add_budget_bytes : ℤ → ℤ → Option ℤ
add_budget_bytes left right =
    if ltb_ℤ (pos max_int64 -64 right) left then none else some (left +64 right)

abbrev pub min_ℤ : ℤ → ℤ → ℤ
min_ℤ a b = if ltb_ℤ b a then b else a

abbrev pub reject_if : Bool → RejectionReason → List RejectionReason
reject_if true reason = reason ∷ []
reject_if false reason = []

unfoldable pub budget_rejections : BudgetRequest → Limits → ℤ → ℤ → List RejectionReason
budget_rejections request limits peak free_after_peak =
    reject_if (ltb_ℤ (pos 0) limits.max_physical_bytes && ltb_ℤ limits.max_physical_bytes peak)
      physical_budget
    ++ (reject_if
          (ltb_ℤ (pos 0) limits.max_temporary_bytes
            && ltb_ℤ limits.max_temporary_bytes request.temporary_bytes)
          temporary_budget
        ++ reject_if (ltb_ℤ free_after_peak limits.free_space_reserve_bytes) free_space_reserve)

abbrev pub verdict_of : BudgetReport → List RejectionReason → Check
verdict_of report [] = granted report
verdict_of report (r ∷ rs) = exceeded (record report { allowed = false; rejections = r ∷ rs })

unfoldable pub budget_report : BudgetRequest → Limits → ℤ → ℤ → ℤ → Check
budget_report request limits additional peak before_reclaim =
    let final = before_reclaim -64 min_ℤ request.reclaimable_bytes before_reclaim in
    let free_after_peak = request.available_bytes -64 additional in
    verdict_of
      (record {
        operation = request.operation;
        allowed = true;
        current_physical_bytes = request.current_physical_bytes;
        projected_peak_bytes = peak;
        projected_final_bytes = final;
        projected_reclaimable_bytes = request.reclaimable_bytes;
        available_bytes = request.available_bytes;
        free_space_after_peak = free_after_peak;
        rejections = [];
      })
      (budget_rejections request limits peak free_after_peak)

abbrev pub final_step : BudgetRequest → Limits → ℤ → ℤ → Option ℤ → Check
final_step request limits additional peak none = refused final_overflow
final_step request limits additional peak (some before_reclaim) =
    budget_report request limits additional peak before_reclaim

abbrev pub peak_step : BudgetRequest → Limits → ℤ → Option ℤ → Check
peak_step request limits additional none = refused peak_overflow
peak_step request limits additional (some peak) =
    final_step request limits additional peak
      (add_budget_bytes request.current_physical_bytes request.additional_persistent_bytes)

abbrev pub additional_step : BudgetRequest → Limits → Option ℤ → Check
additional_step request limits none = refused additional_overflow
additional_step request limits (some sum) =
    let additional = sum -64 request.temporary_persistent_overlap_bytes in
    peak_step request limits additional (add_budget_bytes request.current_physical_bytes additional)

unfoldable pub check_budget : BudgetRequest → Limits → Check
check_budget request limits =
    if is_empty request.operation
    then refused operation_required
    else if is_negative request.current_physical_bytes
        || is_negative request.additional_persistent_bytes
        || is_negative request.temporary_bytes
        || is_negative request.temporary_persistent_overlap_bytes
        || is_negative request.reclaimable_bytes
        || is_negative request.available_bytes
    then refused negative_count
    else if ltb_ℤ request.temporary_bytes request.temporary_persistent_overlap_bytes
        || ltb_ℤ request.additional_persistent_bytes request.temporary_persistent_overlap_bytes
    then refused overlap_too_large
    else if is_negative limits.max_physical_bytes
        || is_negative limits.max_temporary_bytes
        || is_negative limits.free_space_reserve_bytes
    then refused negative_limit
    else additional_step request limits
        (add_budget_bytes request.additional_persistent_bytes request.temporary_bytes)
