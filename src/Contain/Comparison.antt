-- ===== src/Contain/Comparison.antt =====
-- A containment that the search reports holds of the bytes.
use codexfold.Prelude.{
  take-nil, ℕ, zero, suc, ◌+◌, ◌-◌, ◌≤◌, ◌≡◌, refl, sym, ap, subst, ◌∙◌, ◌⊎◌, Bool, true, false,
  not, ◌||◌, List, [], ◌∷◌, ◌++◌, Outcome, ok, >>=-eq_ok, ok-injective, ltb, ◌==◌, length, take,
  drop, get_or, min, if◌then◌else◌, arith, length-drop, Bool-cases, inl, inr,
}
use codexfold.Prelude.Bytes.{Bytes, bytes_eq, bytes_eq→eq}
use codexfold.Contain.Records.{RecordInfo}
use codexfold.Contain.Matching.{
  Fault, buffer_size, equal_chunks, equal_file_ranges, Containment, Needle, found_at, verify,
  search_records, advance,
}

-- A stretch is its first chunk and the rest.
take-split :
    (k n : ℕ) (bytes : Bytes) → k ≤ n → take n bytes ≡ take k bytes ++ take (n - k) (drop k bytes)
take-split zero n bytes h = let e : n - 0 ≡ n = omega arith in ap (λ m. take m bytes) (sym e)
take-split (suc k) zero bytes h = absurd (omega arith)
take-split (suc k) (suc n) [] h = sym (take-nil (suc n - suc k))
take-split (suc k) (suc n) (b ∷ bs) h =
    let e : n - k ≡ suc n - suc k = omega arith in
    ap (◌∷◌ b) (take-split k n bs (omega arith)) ∙ ap (λ m. b ∷ (take k bs ++ take m (drop k bs))) e

-- The comparison succeeds only where both ranges are there and agree.
equal_chunks-true :
    (fuel : ℕ) (left right : Bytes) (n : ℕ)
    → equal_chunks fuel left right n ≡ ok true
    → (take n left ≡ take n right) × (n ≤ length left) × (n ≤ length right)
unfolding equal_chunks
equal_chunks-true fuel left right zero h = (refl, omega arith, omega arith)
equal_chunks-true zero left right (suc n) h = absurd (ground arith)
equal_chunks-true (suc fuel) left right (suc n) h =
    let chunk = min buffer_size (suc n) in
    elim (Bool-cases (ltb (length left) chunk || ltb (length right) chunk)) [
      | inl short ↦ absurd (ground (arith, rw short at h))
      | inr long ↦ elim (Bool-cases (not (bytes_eq (take chunk left) (take chunk right)))) [
        | inl differ ↦ absurd (ground (arith, rw (long, differ) at h))
        | inr agree ↦
            let (same, in_left, in_right) =
              equal_chunks-true fuel (drop chunk left) (drop chunk right) (suc n - chunk)
                (rw (long, agree) at h) in
            let same_chunk = bytes_eq→eq (take chunk left) (take chunk right) (ground arith) in
            (
              take-split chunk (suc n) left (omega arith)
                  ∙ ap (λ x. x ++ take (suc n - chunk) (drop chunk left)) same_chunk
                  ∙ ap (◌++◌ (take chunk right)) same
                  ∙ sym (take-split chunk (suc n) right (omega arith)),
              ground (arith, length-drop chunk left),
              ground (arith, length-drop chunk right),
            )
      ]
    ]

-- A containment that is reported holds of the bytes.
pub record Occurs (contained container : Bytes) (start size : ℕ) (c : Containment) : Type 0 where
  pub size_is : c.contained_bytes ≡ size
  pub ends_at : c.container_start_byte + size ≡ c.container_end_byte
  pub within : size ≤ length (drop c.container_start_byte container)
  pub agrees : take size (drop start contained) ≡ take size (drop c.container_start_byte container)

module _ (contained container : Bytes) (needle : Needle) where
  abbrev Reported : Containment → Type 0
  Reported c = (c.contained ≡ false) ⊎ Occurs contained container needle.start needle.size c

  verify-Reported :
      (r : RecordInfo) (rest : Outcome Fault Containment) (c : Containment)
      → ((d : Containment) → rest ≡ ok d → Reported d)
      → verify contained container needle r rest ≡ ok c
      → Reported c
  unfolding verify equal_file_ranges
  verify-Reported r rest c later h = elim (Bool-cases (ltb r.stop needle.size)) [
    | inl early ↦ absurd (ground (arith, rw early at h))
    | inr fits ↦
        let left = drop needle.start contained in
        let right = drop (r.stop - needle.size) container in
        let go = λ (exact : Bool). if exact then ok (found_at needle r) else rest in
        let (exact, e, k) =
          >>=-eq_ok (equal_chunks needle.size left right needle.size) go (rw fits at h) in
        elim (Bool-cases exact) [
          | inr different ↦ later c (rw different at k)
          | inl agrees ↦
              let (same, _, in_right) =
                equal_chunks-true needle.size left right needle.size (rw agrees at e) in
              subst Reported (ok-injective (rw agrees at k)) (
                inr (record {
                  size_is = refl;
                  ends_at = ground arith;
                  within = in_right;
                  agrees = same;
                }))
        ]
  ]

  pub search_records-Reported :
      (matched : ℕ) (rs : List RecordInfo) (c : Containment)
      → search_records contained container needle matched rs ≡ ok c
      → Reported c
  unfolding search_records
  search_records-Reported matched [] c h = inl (ap (λ d. d.contained) (sym (ok-injective h)))
  search_records-Reported matched (r ∷ rs) c h =
      let m = advance needle.fingerprints needle.prefix matched r.fingerprint in
      elim (Bool-cases (m == length needle.fingerprints)) [
        | inl full ↦
            verify-Reported r _ c
              (λ d k. search_records-Reported (get_or needle.prefix (m - 1) 0) rs d k)
              (rw full at h)
        | inr partial ↦ search_records-Reported m rs c (rw partial at h)
      ]
