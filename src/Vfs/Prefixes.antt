-- ===== src/Vfs/Prefixes.antt =====
-- Beginnings of byte lists.
use codexfold.Prelude.{
  ℕ, zero, suc, ◌+◌, ◌-◌, ◌≤◌, ◌≡◌, refl, sym, ap, ◌∙◌, [], ◌∷◌, ◌++◌, length, take, drop, arith,
  take-append-drop, append_assoc, append-nil, length-append,
}
use codexfold.Prelude.Bytes.{Bytes}

abbrev pub IsPrefix : Bytes → Bytes → Type 0
IsPrefix xs ys = (rest : Bytes) × (xs ++ rest ≡ ys)

pub IsPrefix-refl : (xs : Bytes) → IsPrefix xs xs
IsPrefix-refl xs = ([], append-nil xs)

pub take-IsPrefix : (n : ℕ) (xs : Bytes) → IsPrefix (take n xs) xs
take-IsPrefix n xs = (drop n xs, take-append-drop n xs)

pub IsPrefix-trans : (xs ys zs : Bytes) → IsPrefix xs ys → IsPrefix ys zs → IsPrefix xs zs
IsPrefix-trans xs ys zs (r, h) (q, k) = (r ++ q, sym (append_assoc xs r q) ∙ ap (λ l. l ++ q) h ∙ k)

pub append-IsPrefix : (xs ys zs : Bytes) → IsPrefix ys zs → IsPrefix (xs ++ ys) (xs ++ zs)
append-IsPrefix xs ys zs (r, h) = (r, append_assoc xs ys r ∙ ap (◌++◌ xs) h)

pub cons-injective : (x y : ℕ) (xs ys : Bytes) → (x ∷ xs) ≡ (y ∷ ys) → (x ≡ y) × (xs ≡ ys)
cons-injective x y xs ys h = (cc, cc)

pub append-injective_left : (xs ys zs : Bytes) → (xs ++ ys) ≡ (xs ++ zs) → ys ≡ zs
append-injective_left [] ys zs h = h
append-injective_left (x ∷ xs) ys zs h =
    append-injective_left xs ys zs ((cons-injective x x (xs ++ ys) (xs ++ zs) h).1)

-- A beginning that is as long is all.
pub IsPrefix-all : (xs ys : Bytes) → IsPrefix xs ys → length xs ≡ length ys → xs ≡ ys
IsPrefix-all xs ys ([], h) e = sym (append-nil xs) ∙ h
IsPrefix-all xs ys (r ∷ rs, h) e = absurd (omega (arith, length-append xs (r ∷ rs), ap length h))

pub drop-IsPrefix :
    (n : ℕ) (xs ys : Bytes) → IsPrefix xs ys → n ≤ length xs → IsPrefix (drop n xs) (drop n ys)
drop-IsPrefix zero xs ys h k = h
drop-IsPrefix (suc n) [] ys h k = absurd (omega arith)
drop-IsPrefix (suc n) (x ∷ xs) [] (r, h) k = cc
drop-IsPrefix (suc n) (x ∷ xs) (y ∷ ys) (r, h) k =
    drop-IsPrefix n xs ys (r, (cons-injective x y (xs ++ r) ys h).1) (omega arith)

-- More of a list after a beginning of it.
pub extend-IsPrefix :
    (xs found ys : Bytes)
    → IsPrefix xs ys
    → IsPrefix found (drop (length xs) ys)
    → IsPrefix (xs ++ found) ys
extend-IsPrefix [] found ys h k = k
extend-IsPrefix (x ∷ xs) found [] (r, h) k = cc
extend-IsPrefix (x ∷ xs) found (y ∷ ys) (r, h) k =
    let (same, rest) = cons-injective x y (xs ++ r) ys h in
    let (q, e) = extend-IsPrefix xs found ys (r, rest) k in
    (q, ap (◌∷◌ x) e ∙ ap (λ b. b ∷ ys) same)

pub take-IsPrefix_eq : (xs ys : Bytes) → IsPrefix xs ys → take (length xs) ys ≡ xs
take-IsPrefix_eq [] ys h = refl
take-IsPrefix_eq (x ∷ xs) [] (r, h) = cc
take-IsPrefix_eq (x ∷ xs) (y ∷ ys) (r, h) =
    let (same, rest) = cons-injective x y (xs ++ r) ys h in
    ap (λ b. b ∷ take (length xs) ys) (sym same) ∙ ap (◌∷◌ x) (take-IsPrefix_eq xs ys (r, rest))

-- A beginning does not change where more is added at the end.
pub take-append_le : (n : ℕ) (xs ys : Bytes) → n ≤ length xs → take n (xs ++ ys) ≡ take n xs
take-append_le zero xs ys h = refl
take-append_le (suc n) [] ys h = absurd (omega arith)
take-append_le (suc n) (x ∷ xs) ys h = ap (◌∷◌ x) (take-append_le n xs ys (omega arith))

pub drop-append_ge :
    (n : ℕ) (xs ys : Bytes) → length xs ≤ n → drop n (xs ++ ys) ≡ drop (n - length xs) ys
drop-append_ge n [] ys h = ap (λ k. drop k ys) (omega arith)
drop-append_ge zero (x ∷ xs) ys h = absurd (omega arith)
drop-append_ge (suc n) (x ∷ xs) ys h =
    drop-append_ge n xs ys (omega arith) ∙ ap (λ k. drop k ys) (omega arith)

-- A stretch within the first `m` bytes.
pub take-drop-take :
    (m i n : ℕ) (xs : Bytes) → i + n ≤ m → take n (drop i (take m xs)) ≡ take n (drop i xs)
take-drop-take zero i n xs h =
    let i_is : i ≡ 0 = omega arith in let n_is : n ≡ 0 = omega arith in rw (i_is, n_is) refl
take-drop-take (suc m) zero zero xs h = refl
take-drop-take (suc m) zero (suc n) [] h = refl
take-drop-take (suc m) zero (suc n) (x ∷ xs) h = ap (◌∷◌ x) (take-drop-take m 0 n xs (omega arith))
take-drop-take (suc m) (suc i) n [] h = refl
take-drop-take (suc m) (suc i) n (x ∷ xs) h = take-drop-take m i n xs (omega arith)
