-- ===== src/Contain/Progress.antt =====
-- The loops that shorten a match come to an end.
use codexfold.Prelude.{
  ℕ, zero, suc, ◌+◌, ◌-◌, ◌≤◌, ◌<◌, ◌≡◌, refl, ◌⊎◌, true, false, not, ◌&&◌, List, [], ◌∷◌, ◌++◌,
  ltb, length, get_or, arith, length-append, Bool-cases, inl, inr,
}
use codexfold.Contain.Records.{RecordFingerprint}
use codexfold.Contain.Matching.{same_at, fall_back, advance, build_from, build_prefix_table}

-- The entries of a table do not pass their indexes.
abbrev Bounded : ℕ → List ℕ → Type 0
Bounded d prefix = (k : ℕ) → get_or prefix k 0 ≤ d + k

Bounded-append :
    (d : ℕ) (prefix : List ℕ) (m : ℕ)
    → Bounded d prefix
    → m ≤ d + length prefix
    → Bounded d (prefix ++ m ∷ [])
Bounded-append d [] m h fits zero = omega arith
Bounded-append d [] m h fits (suc k) = omega arith
Bounded-append d (p ∷ ps) m h fits zero = h 0
Bounded-append d (p ∷ ps) m h fits (suc k) =
    let rest = Bounded-append (suc d) ps m (λ i. omega (arith, h (suc i))) (omega arith) k in
    omega (arith, rest)

-- Where the loop has stopped: no match is left, or the next record fits.
abbrev pub Settled : List RecordFingerprint → RecordFingerprint → ℕ → ℕ → Type 0
Settled needle r matched k = (k ≤ matched) × ((k ≡ 0) ⊎ (same_at needle k r ≡ true))

stops :
    (needle : List RecordFingerprint) (r : RecordFingerprint) (matched : ℕ)
    → (ltb 0 matched && not (same_at needle matched r)) ≡ false
    → (matched ≡ 0) ⊎ (same_at needle matched r ≡ true)
stops needle r zero h = inl refl
stops needle r (suc k) h = inr (ground arith)

fall_back-Settled :
    (needle : List RecordFingerprint) (prefix : List ℕ) (r : RecordFingerprint) (fuel matched : ℕ)
    → Bounded 0 prefix
    → matched ≤ fuel
    → Settled needle r matched (fall_back needle prefix r fuel matched)
unfolding fall_back
fall_back-Settled needle prefix r zero matched b h = (omega arith, inl (omega arith))
fall_back-Settled needle prefix r (suc fuel) matched b h =
    elim (Bool-cases (ltb 0 matched && not (same_at needle matched r))) [
      | inl differs ↦
          let shorter = b (matched - 1) in
          let (less, settled) =
            fall_back-Settled needle prefix r fuel (get_or prefix (matched - 1) 0) b
              (ground arith) in
          rw differs (ground arith, settled)
      | inr stands ↦ rw stands (omega arith, stops needle r matched stands)
    ]

advance-le :
    (needle : List RecordFingerprint) (prefix : List ℕ) (matched : ℕ) (r : RecordFingerprint)
    → Bounded 0 prefix
    → advance needle prefix matched r ≤ suc matched
unfolding advance
advance-le needle prefix matched r b =
    let (less, _) = fall_back-Settled needle prefix r matched matched b (omega arith) in
    elim (Bool-cases (same_at needle (fall_back needle prefix r matched matched) r)) [
      | inl same ↦ rw same (omega arith)
      | inr other ↦ rw other (omega arith)
    ]

build_from-Bounded :
    (records : List RecordFingerprint) (prefix : List ℕ) (matched : ℕ) (rs : List RecordFingerprint)
    → Bounded 0 prefix
    → matched < length prefix
    → Bounded 0 (build_from records prefix matched rs)
unfolding build_from
build_from-Bounded records prefix matched [] b h = b
build_from-Bounded records prefix matched (r ∷ rs) b h =
    let m = advance records prefix matched r in
    let small = advance-le records prefix matched r b in
    build_from-Bounded records (prefix ++ m ∷ []) m rs (Bounded-append 0 prefix m b (omega arith))
      (omega (arith, length-append prefix (m ∷ [])))

first_entry : Bounded 0 (0 ∷ [])
first_entry zero = omega arith
first_entry (suc k) = omega arith

build_prefix_table-Bounded :
    (records : List RecordFingerprint) → Bounded 0 (build_prefix_table records)
unfolding build_prefix_table
build_prefix_table-Bounded [] = λ k. omega arith
build_prefix_table-Bounded (r ∷ rs) =
    build_from-Bounded (r ∷ rs) (0 ∷ []) 0 rs first_entry (omega arith)

-- With the table that is built for the records, and a bound that is not below the length of the
-- match, the loop that shortens the match stops with no match left, or with one that the next
-- record goes on with.
pub fall_back-build_prefix_table :
    (needle : List RecordFingerprint) (r : RecordFingerprint) (matched fuel : ℕ)
    → matched ≤ fuel
    → Settled needle r matched (fall_back needle (build_prefix_table needle) r fuel matched)
fall_back-build_prefix_table needle r matched fuel h =
    fall_back-Settled needle (build_prefix_table needle) r fuel matched
      (build_prefix_table-Bounded needle) h
