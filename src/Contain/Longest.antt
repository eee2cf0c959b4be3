-- ===== src/Contain/Longest.antt =====
-- The match that is kept while a text is read is the longest one.
use codexfold.Prelude.{
  ℕ, zero, suc, ◌-◌, ◌≤◌, ◌<◌, ◌≡◌, refl, sym, ap, subst, ◌∙◌, ◌↔◌, ◌⊎◌, inl, inr, true, false,
  List, [], ◌∷◌, ◌++◌, ltb, ◌==◌, length, get_or, arith, Bool-cases, length-append, append_assoc,
}
use codexfold.Contain.Records.{RecordFingerprint}
use codexfold.Contain.Matching.{same_at, fall_back, advance, build_from, build_prefix_table}
use codexfold.Contain.Borders.{At, same_at→At, At→same_At, Border, Border-Border}

-- The first entries of a table: each is the longest border that is shorter than what it is of.
abbrev pub IsTable : List RecordFingerprint → List ℕ → ℕ → Type 0
IsTable needle prefix n =
    (i : ℕ)
    → i < n
    → (get_or prefix i 0 ≤ i)
      × Border needle (get_or prefix i 0) (suc i)
      × ((k : ℕ) → k ≤ i → Border needle k (suc i) → k ≤ get_or prefix i 0)

-- The places where a match may stand: the shorter ones are borders of the longer ones.
pub record IsPlace (needle : List RecordFingerprint) (E : ℕ → Type 0) : Type 0 where
  pub nothing : E 0
  pub closed : (m k : ℕ) → E m → k < m → E k ↔ Border needle k m

fall_back-same :
    (needle : List RecordFingerprint) (prefix : List ℕ) (r : RecordFingerprint) (fuel m : ℕ)
    → same_at needle (suc m) r ≡ true
    → suc m ≡ fall_back needle prefix r (suc fuel) (suc m)
unfolding fall_back
fall_back-same needle prefix r fuel m h = ground (arith, h)

fall_back-other :
    (needle : List RecordFingerprint) (prefix : List ℕ) (r : RecordFingerprint) (fuel m : ℕ)
    → same_at needle (suc m) r ≡ false
    → fall_back needle prefix r fuel (get_or prefix m 0)
      ≡ fall_back needle prefix r (suc fuel) (suc m)
unfolding fall_back
fall_back-other needle prefix r fuel m h =
    let e : suc m - 1 ≡ m = omega arith in
    let positive : ltb 0 (suc m) ≡ true = ground arith in rw (h, positive, e) refl

module _ (needle : List RecordFingerprint) (prefix : List ℕ) (n : ℕ)
    (table : IsTable needle prefix n) (E : ℕ → Type 0) (place : IsPlace needle E)
    (r : RecordFingerprint) where
  -- No longer match goes on with the record.
  abbrev Most : ℕ → Type 0
  Most m = (k : ℕ) → E k → At needle k r → k ≤ m

  abbrev IsLongest : ℕ → Type 0
  IsLongest m = E m × ((m ≡ 0) ⊎ At needle m r) × Most m

  shorter :
      (m : ℕ)
      → suc m ≤ n
      → E (suc m)
      → same_at needle (suc m) r ≡ false
      → Most (suc m)
      → (get_or prefix m 0 ≤ m) × E (get_or prefix m 0) × Most (get_or prefix m 0)
  shorter m fits here other most =
      let (small, border, longest) = table m (omega arith) in
      let p = get_or prefix m 0 in
      (
        small,
        (place.closed (suc m) p here (omega (arith, small))).1 border,
        λ k e at.
            let le = most k e at in
            elim (Bool-cases (k == suc m)) [
              | inl equal ↦
                  let there : k ≡ suc m = ground arith in
                  absurd (
                    ground (
                      arith,
                      subst (λ j. same_at needle j r ≡ true) there (At→same_At needle k r at),
                    ))
              | inr apart ↦
                  let below : k ≤ m = ground arith in
                  longest k below ((place.closed (suc m) k here (omega (arith, below))).0 e)
            ],
      )

  fall_back-IsLongest :
      (fuel matched : ℕ)
      → matched ≤ fuel
      → matched ≤ n
      → E matched
      → Most matched
      → IsLongest (fall_back needle prefix r fuel matched)
  unfolding fall_back
  fall_back-IsLongest zero zero enough fits here most = (here, inl refl, most)
  fall_back-IsLongest zero (suc m) enough fits here most = absurd (omega arith)
  fall_back-IsLongest (suc fuel) zero enough fits here most = (here, inl refl, most)
  fall_back-IsLongest (suc fuel) (suc m) enough fits here most =
      elim (Bool-cases (same_at needle (suc m) r)) [
        | inl same ↦
            subst IsLongest (fall_back-same needle prefix r fuel m same)
              (here, inr (same_at→At needle (suc m) r same), most)
        | inr other ↦
            let (small, there, less) = shorter m fits here other most in
            subst IsLongest (fall_back-other needle prefix r fuel m other) (
              fall_back-IsLongest fuel (get_or prefix m 0) (omega (arith, small))
                (omega (arith, small)) there less)
      ]

  -- The match after one more record: `E'` is where one may stand then.
  pub advance-longest :
      (E' : ℕ → Type 0)
      → E' 0
      → ((k : ℕ) → E' (suc k) ↔ (E k × At needle k r))
      → (matched : ℕ) → matched ≤ n
      → E matched
      → Most matched
      → E' (advance needle prefix matched r)
        × ((k : ℕ) → E' k → k ≤ advance needle prefix matched r)
  unfolding advance
  advance-longest E' nothing next matched fits here most =
      let j = fall_back needle prefix r matched matched in
      let (at_j, stopped, longest) =
        fall_back-IsLongest matched matched (omega arith) fits here most in
      elim (Bool-cases (same_at needle j r)) [
        | inl same ↦ rw same ((next j).1 (at_j, same_at→At needle j r same), bounded j longest)
        | inr other ↦
            let none_left : j ≡ 0 = elim stopped [
              | inl zero_left ↦ zero_left
              | inr at ↦ absurd (ground (arith, At→same_At needle j r at))
            ] in
            rw other (subst E' (sym none_left) nothing, unmatched j none_left other longest)
      ]
    where
      bounded : (j : ℕ) → Most j → (k : ℕ) → E' k → k ≤ suc j
      bounded j longest zero e = omega arith
      bounded j longest (suc k) e = let (f, at) = (next k).0 e in omega (arith, longest k f at)

      unmatched : (j : ℕ) → j ≡ 0 → same_at needle j r ≡ false → Most j → (k : ℕ) → E' k → k ≤ j
      unmatched j none_left other longest zero e = omega arith
      unmatched j none_left other longest (suc k) e =
          let (f, at) = (next k).0 e in
          let same : k ≡ j = omega (arith, longest k f at) in
          absurd
            (ground (arith, subst (λ i. same_at needle i r ≡ true) same (At→same_At needle k r at)))

get_or-append_old :
    (prefix : List ℕ) (m i : ℕ)
    → i < length prefix
    → get_or (prefix ++ (m ∷ [])) i 0 ≡ get_or prefix i 0
get_or-append_old [] m i h = absurd (omega arith)
get_or-append_old (p ∷ ps) m zero h = refl
get_or-append_old (p ∷ ps) m (suc i) h = get_or-append_old ps m i (omega arith)

get_or-append_new : (prefix : List ℕ) (m : ℕ) → get_or (prefix ++ (m ∷ [])) (length prefix) 0 ≡ m
get_or-append_new [] m = refl
get_or-append_new (p ∷ ps) m = get_or-append_new ps m

-- What one entry of a table says.
abbrev IsEntry : List RecordFingerprint → ℕ → ℕ → Type 0
IsEntry needle i p =
    (p ≤ i) × Border needle p (suc i) × ((k : ℕ) → k ≤ i → Border needle k (suc i) → k ≤ p)

IsTable-append :
    (needle : List RecordFingerprint) (prefix : List ℕ) (m : ℕ)
    → IsTable needle prefix (length prefix)
    → IsEntry needle (length prefix) m
    → IsTable needle (prefix ++ (m ∷ [])) (suc (length prefix))
IsTable-append needle prefix m table entry i h = elim (Bool-cases (i == length prefix)) [
  | inl last ↦
      let here : i ≡ length prefix = ground arith in
      subst (λ j. IsEntry needle j (get_or (prefix ++ (m ∷ [])) j 0)) (sym here)
        (subst (IsEntry needle (length prefix)) (sym (get_or-append_new prefix m)) entry)
  | inr before ↦
      let early : i < length prefix = ground arith in
      subst (IsEntry needle i) (sym (get_or-append_old prefix m i early)) (table i early)
]

At-append :
    (before : List RecordFingerprint) (r : RecordFingerprint) (rs : List RecordFingerprint)
    → At (before ++ (r ∷ rs)) (length before) r
At-append [] r rs = refl
At-append (b ∷ bs) r rs = At-append bs r rs

abbrev Shorter : List RecordFingerprint → ℕ → ℕ → Type 0
Shorter needle i k = Border needle k i × (k < i)

Shorter-IsPlace :
    (needle : List RecordFingerprint) (i : ℕ) → 0 < i → IsPlace needle (Shorter needle i)
Shorter-IsPlace needle i pos = record {
  nothing = (tt, pos);
  closed = λ m k (border, less) below.
      let (to, from) = Border-Border needle m k i border below in
      ((λ (b, l). to b), (λ b. (from b, omega arith)));
}

build_from-IsTable :
    (needle before : List RecordFingerprint) (prefix : List ℕ) (matched : ℕ)
    (rs : List RecordFingerprint)
    → before ++ rs ≡ needle
    → length before ≡ length prefix
    → 0 < length prefix
    → IsTable needle prefix (length prefix)
    → Shorter needle (length prefix) matched
    → ((k : ℕ) → Shorter needle (length prefix) k → k ≤ matched)
    → IsTable needle (build_from needle prefix matched rs) (length needle)
unfolding build_from
build_from-IsTable needle before prefix matched [] split size pos table here most =
    λ i h. table i (omega (arith, ap length split, length-append before [], h))
build_from-IsTable needle before prefix matched (r ∷ rs) split size pos table here most =
    let i = length prefix in
    let m = advance needle prefix matched r in
    let grown : suc i ≡ length (prefix ++ (m ∷ [])) =
      omega (arith, length-append prefix (m ∷ [])) in
    let at : At needle i r =
      subst (λ j. At needle j r) size
        (subst (λ l. At l (length before) r) split (At-append before r rs)) in
    let (there, longest) =
      advance-longest needle prefix i table (Shorter needle i) (Shorter-IsPlace needle i pos) r
        (Shorter needle (suc i)) (tt, omega arith)
        (λ k. (
          (λ ((e, b), l). ((b, omega arith), e ∙ at)),
          (λ ((b, l), e). ((e ∙ sym at, b), omega arith)),
        ))
        matched (omega (arith, here.1)) here (λ k e a. most k e) in
    build_from-IsTable needle (before ++ (r ∷ [])) (prefix ++ (m ∷ [])) m rs
      (append_assoc before (r ∷ []) rs ∙ split)
      (omega (arith, length-append before (r ∷ []), length-append prefix (m ∷ [])))
      (omega (arith, length-append prefix (m ∷ [])))
      (subst (IsTable needle (prefix ++ (m ∷ []))) grown (
        IsTable-append needle prefix m table
          (omega (arith, there.1), there.0, (λ k le b. longest k (b, omega arith)))))
      (subst (λ n. Shorter needle n m) grown there)
      (subst (λ n. (k : ℕ) → Shorter needle n k → k ≤ m) grown longest)

-- Each entry of the table that is built for the records is the length of the longest of their
-- beginnings that is shorter than the records up to there and that ends them.
pub build_prefix_table-IsTable :
    (needle : List RecordFingerprint) → IsTable needle (build_prefix_table needle) (length needle)
unfolding build_prefix_table
build_prefix_table-IsTable [] = λ i h. absurd (omega arith)
build_prefix_table-IsTable (r ∷ rs) =
    build_from-IsTable (r ∷ rs) (r ∷ []) (0 ∷ []) 0 rs refl refl (omega arith) first
      (tt, omega arith) (λ k (b, less). omega arith)
  where
    first : IsTable (r ∷ rs) (0 ∷ []) 1
    first zero h = (omega arith, tt, (λ k le b. le))
    first (suc i) h = absurd (omega arith)
