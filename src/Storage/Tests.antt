-- ===== src/Storage/Tests.antt =====
-- A mutation that fits and one that does not, and the theorems of the budget at them.
use codexfold.Prelude.{◌≡◌, refl, ◌↔◌, [], ◌∷◌, arith}
use codexfold.Prelude.Bytes.{Bytes}
use codexfold.Prelude.{ok}
use codexfold.Prelude.Int.{pos}
use codexfold.Prelude.Bytes.{bytes_eq}
use codexfold.Storage.Policy.{
  PolicyFile, decoded, exact_proof, validate_policy, load_policy, IsPolicy, load_policy-IsPolicy,
}
use codexfold.Storage.Budget.{BudgetReport, granted, check_budget}
use codexfold.Storage.Budget.Exact.{
  Quantities, Caps, IsSound, request_of, limits_of, exact_check, Fits, check_budget-exact,
  check_budget-granted,
}

abbrev enroll : Bytes
enroll = b'e' ∷ []

abbrev small : Quantities
small = record {
  current = 100;
  persistent = 50;
  temporary = 40;
  overlap = 30;
  reclaimable = 20;
  available = 1000;
}

abbrev tight : Caps
tight = record { physical = 160; scratch = 0; reserve = 900 }

small-IsSound : IsSound small
small-IsSound = omega arith

check_budget-exact_example :
    check_budget (request_of enroll small) (limits_of tight) ≡ exact_check enroll small tight
check_budget-exact_example = check_budget-exact enroll small tight small-IsSound refl

check_budget-granted_example :
    ((report : BudgetReport) × (check_budget (request_of enroll small) (limits_of tight)
        ≡ granted report))
    ↔ Fits small tight
check_budget-granted_example = check_budget-granted enroll small tight small-IsSound refl

abbrev tight_caps : Caps
tight_caps = record { physical = 160; scratch = 50; reserve = 900 }

abbrev stored_policy : PolicyFile
stored_policy = record { version = pos 1; limits = limits_of tight_caps; native_snapshots = [] }

stored_policy_loaded :
    load_policy enroll (decoded stored_policy)
    ≡ ok (record stored_policy { native_snapshots = exact_proof })
unfolding load_policy validate_policy bytes_eq
stored_policy_loaded = refl

load_policy-IsPolicy_example : IsPolicy (record stored_policy { native_snapshots = exact_proof })
load_policy-IsPolicy_example =
    load_policy-IsPolicy enroll (decoded stored_policy) stored_policy_loaded
