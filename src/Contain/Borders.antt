-- ===== src/Contain/Borders.antt =====
-- Where the first records of the contained rollout end a text, and where they end one another: what
-- the prefix table of internal/contain/contain.go is about.
use codexfold.Prelude.{
  ℕ, zero, suc, ◌<◌, ◌≡◌, sym, ap, ◌∙◌, ◌↔◌, true, List, [], ◌∷◌, some, length, get_elem?, arith,
}
use codexfold.Prelude.Bytes.{bytes_eq→eq, bytes_eq_refl}
use codexfold.Contain.Records.{RecordFingerprint, same_fingerprint}
use codexfold.Contain.Matching.{same_at}

-- The record at an index.
abbrev pub At : List RecordFingerprint → ℕ → RecordFingerprint → Type 0
At needle k r = get_elem? needle k ≡ some r

same_fingerprint→eq : (x r : RecordFingerprint) → same_fingerprint x r ≡ true → x ≡ r
unfolding same_fingerprint
same_fingerprint→eq x r h =
    let d : x.digest ≡ r.digest = bytes_eq→eq x.digest r.digest (ground arith) in
    let s : x.size ≡ r.size = ground arith in λ i. record { digest = d i; size = s i }

same_fingerprint_refl : (r : RecordFingerprint) → same_fingerprint r r ≡ true
unfolding same_fingerprint
same_fingerprint_refl r = ground (arith, bytes_eq_refl r.digest)

pub same_at→At :
    (needle : List RecordFingerprint) (k : ℕ) (r : RecordFingerprint)
    → same_at needle k r ≡ true
    → At needle k r
unfolding same_at
same_at→At [] k r h = absurd (ground (arith, h))
same_at→At (x ∷ xs) zero r h = ap some (same_fingerprint→eq x r h)
same_at→At (x ∷ xs) (suc k) r h = same_at→At xs k r h

pub At→same_At :
    (needle : List RecordFingerprint) (k : ℕ) (r : RecordFingerprint)
    → At needle k r
    → same_at needle k r ≡ true
unfolding same_at
At→same_At needle k r h = rw h (same_fingerprint_refl r)

pub At-length :
    (needle : List RecordFingerprint) (k : ℕ) (r : RecordFingerprint)
    → At needle k r
    → k < length needle
At-length [] k r h = absurd (ground (arith, h))
At-length (x ∷ xs) zero r h = omega arith
At-length (x ∷ xs) (suc k) r h = omega (arith, At-length xs k r h)

-- The first `k` records end the text, whose last record stands first.
abbrev pub Ends : List RecordFingerprint → ℕ → List RecordFingerprint → Type 0
Ends needle zero text = Unit
Ends needle (suc k) [] = ⊥
Ends needle (suc k) (r ∷ text) = At needle k r × Ends needle k text

-- The first `k` records end the first `m`.
abbrev pub Border : List RecordFingerprint → ℕ → ℕ → Type 0
Border needle zero m = Unit
Border needle (suc k) zero = ⊥
Border needle (suc k) (suc m) = (get_elem? needle k ≡ get_elem? needle m) × Border needle k m

-- Of two ends of a text, the shorter one ends the longer one.
pub Ends-Border :
    (needle : List RecordFingerprint) (m k : ℕ) (text : List RecordFingerprint)
    → Ends needle m text
    → k < m
    → Ends needle k text ↔ Border needle k m
Ends-Border needle m zero text h le = ((λ x. x), (λ x. x))
Ends-Border needle zero (suc k) text h le = absurd (omega arith)
Ends-Border needle (suc m) (suc k) [] h le = absurd h
Ends-Border needle (suc m) (suc k) (r ∷ text) (at, h) le =
    let (to, from) = Ends-Border needle m k text h (omega arith) in
    ((λ (x, y). (x ∙ sym at, to y)), (λ (x, y). (x ∙ at, from y)))

pub Border-Border :
    (needle : List RecordFingerprint) (m k i : ℕ)
    → Border needle m i
    → k < m
    → Border needle k i ↔ Border needle k m
Border-Border needle m zero i h le = ((λ x. x), (λ x. x))
Border-Border needle zero (suc k) i h le = absurd (omega arith)
Border-Border needle (suc m) (suc k) zero h le = absurd h
Border-Border needle (suc m) (suc k) (suc i) (at, h) le =
    let (to, from) = Border-Border needle m k i h (omega arith) in
    ((λ (x, y). (x ∙ sym at, to y)), (λ (x, y). (x ∙ at, from y)))
