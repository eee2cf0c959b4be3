-- ===== src/Fold/Digests/Order.antt =====
-- The order of digests, and lists in it.
use codexfold.Prelude.{
  ◌≡◌, ◌≢◌, ◌⊎◌, ◌↔◌, inl, inr, refl, sym, ap, subst, ◌∙◌, true, false, List, [], ◌∷◌, Option, none,
  some, some-injective, arith, Bool-cases, All, OneOf,
}
use codexfold.Prelude.Bytes.{Bytes, bytes_eq, bytes_less, bytes_eq→eq, bytes_eq_refl}
use codexfold.Fold.Digests.{insert, sort, is_previous, without_repeats}

pub bytes_less_trans :
    (a b c : Bytes) → bytes_less a b ≡ true → bytes_less b c ≡ true → bytes_less a c ≡ true
unfolding bytes_less
bytes_less_trans a b [] h k = cc
bytes_less_trans a [] (z ∷ zs) h k = cc
bytes_less_trans [] (y ∷ ys) (z ∷ zs) h k = refl
bytes_less_trans (x ∷ xs) (y ∷ ys) (z ∷ zs) h k = ground (arith, bytes_less_trans xs ys zs)

pub bytes_less_total : (a b : Bytes) → (bytes_less a b ≡ true) ⊎ (a ≡ b) ⊎ (bytes_less b a ≡ true)
unfolding bytes_less
bytes_less_total [] [] = inr (inl refl)
bytes_less_total [] (y ∷ ys) = inl refl
bytes_less_total (x ∷ xs) [] = inr (inr refl)
bytes_less_total (x ∷ xs) (y ∷ ys) = ground (arith, bytes_less_total xs ys)

pub bytes_less_irrefl : (a : Bytes) → bytes_less a a ≡ false
unfolding bytes_less
bytes_less_irrefl [] = refl
bytes_less_irrefl (x ∷ xs) = ground (arith, bytes_less_irrefl xs)

-- `a` is not behind `b`.
abbrev pub Le : Bytes → Bytes → Type 0
Le a b = bytes_less b a ≡ false

abbrev pub Lt : Bytes → Bytes → Type 0
Lt a b = bytes_less a b ≡ true

pub Le-trans : (a b c : Bytes) → Le a b → Le b c → Le a c
Le-trans a b c h k = elim (Bool-cases (bytes_less c a)) [
  | inr fine ↦ fine
  | inl less ↦ elim (bytes_less_total a b) [
    | inl before ↦ cc (bytes_less_trans c a b less before)
    | inr (inl same) ↦ subst (λ x. Le x c) (sym same) k
    | inr (inr after) ↦ cc
  ]
]

pub Lt→Le : (a b : Bytes) → Lt a b → Le a b
Lt→Le a b h = elim (Bool-cases (bytes_less b a)) [
  | inr fine ↦ fine
  | inl less ↦ cc (bytes_less_trans a b a h less, bytes_less_irrefl a)
]

pub Le-Lt : (a b : Bytes) → Le a b → a ≢ b → Lt a b
Le-Lt a b h k = elim (bytes_less_total a b) [
  | inl before ↦ before
  | inr (inl same) ↦ absurd (k same)
  | inr (inr after) ↦ cc
]

pub Le-Lt_trans : (a b c : Bytes) → Le a b → Lt b c → Lt a c
Le-Lt_trans a b c h k = elim (bytes_less_total a b) [
  | inl before ↦ bytes_less_trans a b c before k
  | inr (inl same) ↦ subst (λ x. Lt x c) (sym same) k
  | inr (inr after) ↦ cc
]

-- In order, repeats allowed; and with none.
abbrev pub IsSorted : List Bytes → Type 0
IsSorted [] = Unit
IsSorted (d ∷ ds) = All (Le d) ds × IsSorted ds

abbrev pub IsAscending : List Bytes → Type 0
IsAscending [] = Unit
IsAscending (d ∷ ds) = All (Lt d) ds × IsAscending ds

pub All-map :
    (P Q : Bytes → Type 0) (ds : List Bytes) → ((e : Bytes) → P e → Q e) → All P ds → All Q ds
All-map P Q [] f h = tt
All-map P Q (d ∷ ds) f (h, hs) = (f d h, All-map P Q ds f hs)

pub IsAscending-IsSorted : (ds : List Bytes) → IsAscending ds → IsSorted ds
IsAscending-IsSorted [] h = tt
IsAscending-IsSorted (d ∷ ds) (h, hs) =
    (All-map (Lt d) (Le d) ds (λ e. Lt→Le d e) h, IsAscending-IsSorted ds hs)

-- The two lists have the same digests.
abbrev pub Same : List Bytes → List Bytes → Type 0
Same ds es = (e : Bytes) → OneOf e ds ↔ OneOf e es

pub insert-Same : (d : Bytes) (ds : List Bytes) → Same (insert d ds) (d ∷ ds)
unfolding insert
insert-Same d [] e = (λ h. h, λ h. h)
insert-Same d (x ∷ xs) e = elim (Bool-cases (bytes_less x d)) [
  | inr here ↦ rw here (λ h. h, λ h. h)
  | inl later ↦ rw later (
    λ h. elim h [
      | inl same ↦ inr (inl same)
      | inr at ↦ elim ((insert-Same d xs e).0 at) [ inl new ↦ inl new | inr old ↦ inr (inr old) ]
    ],
    λ h. elim h [
      | inl new ↦ inr ((insert-Same d xs e).1 (inl new))
      | inr at ↦ elim at [ inl same ↦ inl same | inr old ↦ inr ((insert-Same d xs e).1 (inr old)) ]
    ],
  )
]

insert-All :
    (P : Bytes → Type 0) (d : Bytes) (ds : List Bytes) → P d → All P ds → All P (insert d ds)
unfolding insert
insert-All P d [] h hs = (h, hs)
insert-All P d (x ∷ xs) h (k, ks) = elim (Bool-cases (bytes_less x d)) [
  | inr here ↦ rw here (h, (k, ks))
  | inl later ↦ rw later (k, insert-All P d xs h ks)
]

insert-IsSorted : (d : Bytes) (ds : List Bytes) → IsSorted ds → IsSorted (insert d ds)
unfolding insert
insert-IsSorted d [] h = (tt, tt)
insert-IsSorted d (x ∷ xs) (h, hs) = elim (Bool-cases (bytes_less x d)) [
  | inr here ↦ rw here ((here, All-map (Le x) (Le d) xs (λ e. Le-trans d x e here) h), (h, hs))
  | inl later ↦ rw later (insert-All (Le x) d xs (Lt→Le x d later) h, insert-IsSorted d xs hs)
]

pub sort-IsSorted : (ds : List Bytes) → IsSorted (sort ds)
unfolding sort
sort-IsSorted [] = tt
sort-IsSorted (d ∷ ds) = insert-IsSorted d (sort ds) (sort-IsSorted ds)

pub sort-Same : (ds : List Bytes) → Same (sort ds) ds
unfolding sort
sort-Same [] e = (λ h. h, λ h. h)
sort-Same (d ∷ ds) e = (
  λ h. elim ((insert-Same d (sort ds) e).0 h) [
    | inl new ↦ inl new
    | inr old ↦ inr ((sort-Same ds e).0 old)
  ],
  λ h.
      (insert-Same d (sort ds) e).1
        (elim h [ inl new ↦ inl new | inr old ↦ inr ((sort-Same ds e).1 old) ]),
)

-- What was written before is not behind what comes.
abbrev pub Follows : Option Bytes → Bytes → Type 0
Follows none e = Unit
Follows (some p) e = Le p e

abbrev pub Beyond : Option Bytes → Bytes → Type 0
Beyond none e = Unit
Beyond (some p) e = Lt p e

never_both : true ≡ false → ⊥
never_both h = cc

is_previous-Beyond :
    (previous : Option Bytes) (d : Bytes)
    → is_previous previous d ≡ false
    → Follows previous d
    → Beyond previous d
is_previous-Beyond none d h k = tt
is_previous-Beyond (some p) d h k = Le-Lt p d k (λ same. not_same p d same h)
  where
    not_same : (p d : Bytes) → p ≡ d → bytes_eq d p ≡ false → ⊥
    not_same p d same h =
        absurd (never_both (sym (bytes_eq_refl d) ∙ ap (bytes_eq d) (sym same) ∙ h))

Beyond-trans :
    (previous : Option Bytes) (d e : Bytes) → Follows previous d → Lt d e → Beyond previous e
Beyond-trans none d e h k = tt
Beyond-trans (some p) d e h k = Le-Lt_trans p d e h k

-- Without its repeats a sorted list is ascending, and lies beyond what was written before.
pub without_repeats-IsAscending :
    (previous : Option Bytes) (ds : List Bytes)
    → IsSorted ds
    → All (Follows previous) ds
    → All (Beyond previous) (without_repeats previous ds)
      × IsAscending (without_repeats previous ds)
unfolding without_repeats
without_repeats-IsAscending previous [] sorted follows = (tt, tt)
without_repeats-IsAscending previous (d ∷ ds) (h, hs) (f, fs) =
    let (beyond, ascending) = without_repeats-IsAscending (some d) ds hs h in
    let further =
      All-map (Lt d) (Beyond previous) (without_repeats (some d) ds)
        (λ e. Beyond-trans previous d e f) beyond in
    elim (Bool-cases (is_previous previous d)) [
      | inl again ↦ rw again (further, ascending)
      | inr new ↦ rw new ((is_previous-Beyond previous d new f, further), (beyond, ascending))
    ]

-- Each digest is still there, or was written before; and no other is.
pub without_repeats-covers :
    (previous : Option Bytes) (ds : List Bytes) (e : Bytes)
    → OneOf e ds
    → (previous ≡ some e) ⊎ OneOf e (without_repeats previous ds)
unfolding without_repeats
without_repeats-covers previous [] e h = absurd h
without_repeats-covers previous (d ∷ ds) e h = elim (Bool-cases (is_previous previous d)) [
  | inl again ↦ rw again (elim h [
    | inl same ↦ inl (previous_is previous d again ∙ ap some (sym same))
    | inr at ↦ elim (without_repeats-covers (some d) ds e at) [
      | inl same ↦ inl (previous_is previous d again ∙ same)
      | inr there ↦ inr there
    ]
  ])
  | inr new ↦ rw new (elim h [
    | inl same ↦ inr (inl same)
    | inr at ↦ elim (without_repeats-covers (some d) ds e at) [
      | inl same ↦ inr (inl (sym (some-injective _ _ same)))
      | inr there ↦ inr (inr there)
    ]
  ])
]
  where
    previous_is :
        (previous : Option Bytes) (d : Bytes) → is_previous previous d ≡ true → previous ≡ some d
    previous_is none d h = cc
    previous_is (some p) d h = ap some (sym (bytes_eq→eq d p h))

pub without_repeats-within :
    (previous : Option Bytes) (ds : List Bytes) (e : Bytes)
    → OneOf e (without_repeats previous ds)
    → OneOf e ds
unfolding without_repeats
without_repeats-within previous [] e = λ h. h
without_repeats-within previous (d ∷ ds) e = elim (Bool-cases (is_previous previous d)) [
  | inl again ↦ rw again (λ h. inr (without_repeats-within (some d) ds e h))
  | inr new ↦
      rw new (λ h. elim h [
        | inl same ↦ inl same
        | inr at ↦ inr (without_repeats-within (some d) ds e at)
      ])
]

pub without_repeats-Same : (ds : List Bytes) → Same (without_repeats none ds) ds
without_repeats-Same ds e = (
  without_repeats-within none ds e,
  λ h. elim (without_repeats-covers none ds e h) [ inl before ↦ cc | inr there ↦ there ],
)
