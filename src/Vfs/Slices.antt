-- ===== src/Vfs/Slices.antt =====
-- Stretches of bytes.
use codexfold.Prelude.{
  ℕ, zero, suc, ◌-◌, ◌≤◌, ◌≡◌, refl, ap, [], ◌∷◌, ◌++◌, length, take, drop, min, arith, length-drop,
}
use codexfold.Prelude.Bytes.{Bytes}

pub take-append_min :
    (m : ℕ) (xs ys : Bytes)
    → take m (xs ++ ys) ≡ take (min m (length xs)) xs ++ take (m - min m (length xs)) ys
take-append_min zero xs ys = let e : min 0 (length xs) ≡ 0 = omega arith in rw e refl
take-append_min (suc m) [] ys =
    let e : min (suc m) 0 ≡ 0 = omega arith in
    let d : suc m - 0 ≡ suc m = omega arith in rw (e, d) refl
take-append_min (suc m) (x ∷ xs) ys =
    let e : min (suc m) (suc (length xs)) ≡ suc (min m (length xs)) = omega arith in
    let d : suc m - suc (min m (length xs)) ≡ m - min m (length xs) = omega arith in
    rw (e, d) (ap (◌∷◌ x) (take-append_min m xs ys))

pub drop-append_le : (i : ℕ) (xs ys : Bytes) → i ≤ length xs → drop i (xs ++ ys) ≡ drop i xs ++ ys
drop-append_le zero xs ys h = refl
drop-append_le (suc i) [] ys h = absurd (omega arith)
drop-append_le (suc i) (x ∷ xs) ys h = drop-append_le i xs ys (omega arith)

-- A stretch that begins in the first of two pieces.
pub take-drop-append :
    (m i : ℕ) (xs ys : Bytes)
    → i ≤ length xs
    → take m (drop i (xs ++ ys))
      ≡ take (min m (length xs - i)) (drop i xs) ++ take (m - min m (length xs - i)) ys
take-drop-append m i xs ys h =
    rw (drop-append_le i xs ys h, take-append_min m (drop i xs) ys, length-drop i xs) refl

pub take-take : (n : ℕ) (bytes : Bytes) → take n (take n bytes) ≡ take n bytes
take-take zero bytes = refl
take-take (suc n) [] = refl
take-take (suc n) (b ∷ bs) = ap (◌∷◌ b) (take-take n bs)
