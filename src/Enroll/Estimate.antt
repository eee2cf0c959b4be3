-- ===== src/Enroll/Estimate.antt =====
-- The byte estimates of internal/enroll/planner.go.
use codexfold.Prelude.{
  ℕ, ◌+◌, ◌*◌, ◌/◌, ◌≤◌, ◌≡◌, Option, none, some, Outcome, ok, err, ltb, if◌then◌else◌, arith,
}
use codexfold.Prelude.Int.{
  ℤ, pos, max_int64, ltb_ℤ, ◌+64◌, ◌-64◌, ◌*64◌, +64-pos, -64-pos, *64-pos, is_negative, pos_part,
}

pub data EstimateFault : Type 0 where
  negative_estimate estimate_overflow : EstimateFault

-- `rawBytes / 16 + 1 << 20`, for a count that is not negative.
abbrev overhead_of : ℤ → ℤ
overhead_of raw_bytes = pos (pos_part raw_bytes / 16) +64 pos 1048576

unfoldable pub enrollment_persistent_bytes : ℤ → Outcome EstimateFault ℤ
enrollment_persistent_bytes raw_bytes =
    let overhead = overhead_of raw_bytes in
    let estimated = raw_bytes +64 overhead in
    if is_negative raw_bytes
    then err negative_estimate
    else if ltb_ℤ (pos max_int64 -64 overhead) raw_bytes
    then err estimate_overflow
    else if ltb_ℤ (pos (max_int64 / 3)) estimated
    then err estimate_overflow
    else ok (estimated *64 pos 3)

-- `none` where the sum would overflow.
unfoldable pub add_bytes : ℤ → ℤ → Option ℤ
add_bytes left right = if ltb_ℤ (pos max_int64 -64 left) right then none else some (left +64 right)

-- The estimate of unbounded numbers.
abbrev pub exact_estimate : ℕ → ℕ
exact_estimate n = 3 * (n + (n / 16 + 1048576))

-- For a size that is an `int64` and not negative, the estimate is the exact one whenever that is
-- an `int64`, and an error otherwise: the sums never wrap.
pub enrollment_persistent_bytes-exact :
    (n : ℕ)
    → n ≤ max_int64
    → enrollment_persistent_bytes (pos n) ≡ (
        if ltb max_int64 (exact_estimate n)
        then err estimate_overflow
        else ok (pos (exact_estimate n)))
unfolding enrollment_persistent_bytes
enrollment_persistent_bytes-exact n h = ground (
  arith,
  +64-pos (n / 16) 1048576,
  -64-pos max_int64 (n / 16 + 1048576),
  +64-pos n (n / 16 + 1048576),
  *64-pos (n + (n / 16 + 1048576)) 3,
)

pub add_bytes-pos :
    (a b : ℕ)
    → a ≤ max_int64
    → b ≤ max_int64
    → add_bytes (pos a) (pos b) ≡ (if ltb max_int64 (a + b) then none else some (pos (a + b)))
unfolding add_bytes
add_bytes-pos a b h k = ground (arith, -64-pos max_int64 a, +64-pos a b)
