-- ===== src/Contain/Complete.antt =====
-- A search that reports nothing has looked at every place: it misses no run of records with the
-- fingerprints of the contained rollout.
use codexfold.Prelude.{
  ℕ, zero, suc, ◌-◌, ◌≤◌, ◌<◌, ◌≡◌, ◌≢◌, refl, sym, ap, subst, ◌∙◌, inl, inr, Bool, true, false,
  not, ◌||◌, List, [], ◌∷◌, ◌++◌, Option, some, Outcome, ok, >>=-eq_ok, ok-injective, ltb, ◌==◌,
  length, get_or, take, drop, min, arith, Bool-cases, take-nil, if◌then◌else◌,
}
use codexfold.Prelude.Bytes.{Bytes, bytes_eq, bytes_eq_refl, is_empty}
use codexfold.Contain.Records.{RecordFingerprint, RecordInfo, scan_records}
use codexfold.Contain.Matching.{
  Fault, buffer_size, equal_chunks, equal_file_ranges, Containment, Needle, found_at, verify,
  search_records, advance, needle_of, check_needle, check,
}
use codexfold.Contain.Borders.{At-length, Ends, Ends-Border}
use codexfold.Contain.Longest.{IsTable, IsPlace, advance-longest, build_prefix_table-IsTable}

take-less : (k n : ℕ) (bytes : Bytes) → k ≤ n → take k (take n bytes) ≡ take k bytes
take-less zero n bytes h = refl
take-less (suc k) zero bytes h = absurd (omega arith)
take-less (suc k) (suc n) [] h = refl
take-less (suc k) (suc n) (b ∷ bs) h = ap (◌∷◌ b) (take-less k n bs (omega arith))

drop-take : (k n : ℕ) (bytes : Bytes) → k ≤ n → drop k (take n bytes) ≡ take (n - k) (drop k bytes)
drop-take zero n bytes h = ap (λ m. take m bytes) (omega arith)
drop-take (suc k) zero bytes h = absurd (omega arith)
drop-take (suc k) (suc n) [] h = sym (take-nil (suc n - suc k))
drop-take (suc k) (suc n) (b ∷ bs) h =
    drop-take k n bs (omega arith) ∙ ap (λ m. take m (drop k bs)) (omega arith)

-- The comparison fails only where the ranges differ.
equal_chunks-false :
    (fuel : ℕ) (left right : Bytes) (n : ℕ)
    → n ≤ fuel
    → equal_chunks fuel left right n ≡ ok false
    → take n left ≢ take n right
unfolding equal_chunks
equal_chunks-false fuel left right zero enough h same = absurd (ground (arith, h))
equal_chunks-false zero left right (suc n) enough h same = absurd (omega arith)
equal_chunks-false (suc fuel) left right (suc n) enough h same =
    let chunk = min buffer_size (suc n) in
    elim (Bool-cases (ltb (length left) chunk || ltb (length right) chunk)) [
      | inl short ↦ absurd (ground (arith, rw short at h))
      | inr long ↦ elim (Bool-cases (not (bytes_eq (take chunk left) (take chunk right)))) [
        | inl differ ↦
            let agree : take chunk left ≡ take chunk right =
              sym (take-less chunk (suc n) left (omega arith))
              ∙ ap (take chunk) same
              ∙ take-less chunk (suc n) right (omega arith) in
            absurd (
              ground (
                arith,
                subst (λ b. bytes_eq (take chunk left) b ≡ true) agree
                    (bytes_eq_refl (take chunk left)),
              ))
        | inr agree ↦
            equal_chunks-false fuel (drop chunk left) (drop chunk right) (suc n - chunk)
              (omega arith) (rw (long, agree) at h)
              (sym (drop-take chunk (suc n) left (omega arith))
                ∙ ap (drop chunk) same
                ∙ drop-take chunk (suc n) right (omega arith))
      ]
    ]

module _ (contained container : Bytes) (needle : Needle) where
  -- The bytes that end with the record are not those of the contained rollout.
  abbrev pub Differs : RecordInfo → Type 0
  Differs r =
      take needle.size (drop needle.start contained)
      ≢ take needle.size (drop (r.stop - needle.size) container)

  -- Where the fingerprints end what is read of the records, the last of which stands first, the
  -- bytes differ.
  abbrev pub NoMatch : List RecordFingerprint → List RecordInfo → Type 0
  NoMatch text [] = Unit
  NoMatch text (r ∷ rs) =
      (Ends needle.fingerprints (length needle.fingerprints) (r.fingerprint ∷ text) → Differs r)
      × NoMatch (r.fingerprint ∷ text) rs

  verify-goes_on :
      (r : RecordInfo) (rest : Outcome Fault Containment) (c : Containment)
      → verify contained container needle r rest ≡ ok c
      → c.contained ≡ false
      → Differs r × (rest ≡ ok c)
  unfolding verify equal_file_ranges
  verify-goes_on r rest c h nothing = elim (Bool-cases (ltb r.stop needle.size)) [
    | inl early ↦ absurd (ground (arith, rw early at h))
    | inr fits ↦
        let left = drop needle.start contained in
        let right = drop (r.stop - needle.size) container in
        let go = λ (exact : Bool). if exact then ok (found_at needle r) else rest in
        let (exact, e, k) =
          >>=-eq_ok (equal_chunks needle.size left right needle.size) go (rw fits at h) in
        elim (Bool-cases exact) [
          | inl agrees ↦
              let found : found_at needle r ≡ c = ok-injective (rw agrees at k) in
              absurd (ground (arith, ap (λ d. d.contained) found, nothing))
          | inr different ↦ (
            equal_chunks-false needle.size left right needle.size (omega arith) (rw different at e),
            rw different at k,
          )
        ]
  ]

  module _ (table : IsTable needle.fingerprints needle.prefix (length needle.fingerprints))
      (given : 0 < length needle.fingerprints) where
    abbrev Standing : List RecordFingerprint → ℕ → Type 0
    Standing text k = Ends needle.fingerprints k text × (k < length needle.fingerprints)

    Standing-IsPlace : (text : List RecordFingerprint) → IsPlace needle.fingerprints (Standing text)
    Standing-IsPlace text = record {
      nothing = (tt, given);
      closed = λ m k (ends, less) below.
          let (to, from) = Ends-Border needle.fingerprints m k text ends below in
          ((λ (b, l). to b), (λ b. (from b, omega arith)));
    }

    -- No match is longer than the one that is kept.
    abbrev IsKept : List RecordFingerprint → ℕ → Type 0
    IsKept text m = Standing text m × ((k : ℕ) → Standing text k → k ≤ m)

    fits_in :
        (text : List RecordFingerprint) (m : ℕ)
        → Ends needle.fingerprints m text
        → m ≤ length needle.fingerprints
    fits_in text zero e = omega arith
    fits_in [] (suc m) e = absurd e
    fits_in (r ∷ text) (suc m) (at, e) = omega (arith, At-length needle.fingerprints m r at)

    -- After a full match the search goes on with the longest shorter one.
    resumed :
        (text : List RecordFingerprint) (m : ℕ)
        → m ≡ length needle.fingerprints
        → Ends needle.fingerprints m text
        → IsKept text (get_or needle.prefix (m - 1) 0)
    resumed text zero full ends = absurd (omega arith)
    resumed text (suc m) full ends =
        let e : m ≡ suc m - 1 = omega arith in
        subst (λ j. IsKept text (get_or needle.prefix j 0)) e
          (let (small, border, longest) = table m (omega arith) in
            let p = get_or needle.prefix m 0 in
            (
              (
                (Ends-Border needle.fingerprints (suc m) p text ends (omega (arith, small))).1
                    border,
                omega (arith, small),
              ),
              λ k (e, less).
                  longest k (omega arith)
                    ((Ends-Border needle.fingerprints (suc m) k text ends (omega arith)).0 e),
            ))

    search_records-NoMatch :
        (text : List RecordFingerprint) (matched : ℕ) (rs : List RecordInfo) (c : Containment)
        → IsKept text matched
        → search_records contained container needle matched rs ≡ ok c
        → c.contained ≡ false
        → NoMatch text rs
    unfolding search_records
    search_records-NoMatch text matched [] c kept h nothing = tt
    search_records-NoMatch text matched (r ∷ rs) c (here, most) h nothing =
        let fs = needle.fingerprints in
        let m = advance fs needle.prefix matched r.fingerprint in
        let read = r.fingerprint ∷ text in
        let (there, longest) =
          advance-longest fs needle.prefix (length fs) table (Standing text) (Standing-IsPlace text)
            r.fingerprint (λ k. Ends fs k read) tt
            (λ k.
              ((λ (at, e). ((e, At-length fs k r.fingerprint at), at)), (λ ((e, l), at). (at, e))))
            matched (omega (arith, here.1)) here (λ k e at. most k e) in
        elim (Bool-cases (m == length fs)) [
          | inl full ↦
              let (differs, later) = verify-goes_on r _ c (rw full at h) nothing in
              (
                (λ e. differs),
                search_records-NoMatch read (get_or needle.prefix (m - 1) 0) rs c
                    (resumed read m (ground (arith, full)) there) later nothing,
              )
          | inr partial ↦
              let short : m < length fs = ground (arith, fits_in read m there, partial) in
              (
                (λ e. absurd (omega (arith, longest (length fs) e, short))),
                search_records-NoMatch read m rs c ((there, short), (λ k (e, l). longest k e))
                    (rw partial at h) nothing,
              )
        ]

check_needle-NoMatch :
    (sha256 : Bytes → Bytes) (envelope_type : Bytes → Option Bytes) (ignore : Bool)
    (contained container : Bytes) (r : RecordInfo) (rs : List RecordInfo) (c : Containment)
    → check_needle sha256 envelope_type ignore contained (some container) (r ∷ rs) ≡ ok c
    → c.contained ≡ false
    → NoMatch contained container
        (needle_of r rs)
        []
        (scan_records sha256 envelope_type ignore container)
check_needle-NoMatch sha256 envelope_type ignore contained container r rs c h nothing =
    let needle = needle_of r rs in
    search_records-NoMatch contained container needle
      (build_prefix_table-IsTable needle.fingerprints) (omega arith) [] 0
      (scan_records sha256 envelope_type ignore container) c
      ((tt, omega arith), empty needle.fingerprints) h nothing
  where
    empty : (fs : List RecordFingerprint) (k : ℕ) → Ends fs k [] × (k < length fs) → k ≤ 0
    empty fs zero e = omega arith
    empty fs (suc k) (e, l) = absurd e

check-NoMatch :
    (sha256 : Bytes → Bytes) (envelope_type : Bytes → Option Bytes) (ignore : Bool)
    (contained_path container_path contained container : Bytes) (r : RecordInfo)
    (rs : List RecordInfo) (c : Containment)
    → scan_records sha256 envelope_type ignore contained ≡ r ∷ rs
    → check sha256 envelope_type ignore contained_path
        (some contained)
        container_path
        (some container)
      ≡ ok c
    → c.contained ≡ false
    → NoMatch contained container
        (needle_of r rs)
        []
        (scan_records sha256 envelope_type ignore container)
unfolding check
check-NoMatch sha256 envelope_type ignore contained_path container_path contained container r rs c
      records h nothing =
    elim (Bool-cases (is_empty contained_path || is_empty container_path)) [
      | inl unnamed ↦ absurd (ground (arith, rw unnamed at h))
      | inr named ↦
          check_needle-NoMatch sha256 envelope_type ignore contained container r rs c
            (rw (named, records) at h) nothing
    ]

-- The fingerprints of records that were read, the last first.
abbrev pub passed : List RecordFingerprint → List RecordInfo → List RecordFingerprint
passed text [] = text
passed text (r ∷ rs) = passed (r.fingerprint ∷ text) rs

NoMatch-at :
    (contained container : Bytes) (needle : Needle) (text : List RecordFingerprint)
    (before : List RecordInfo) (last : RecordInfo) (after : List RecordInfo)
    → NoMatch contained container needle text (before ++ (last ∷ after))
    → Ends needle.fingerprints (length needle.fingerprints) (last.fingerprint ∷ passed text before)
    → Differs contained container needle last
NoMatch-at contained container needle text [] last after (h, hs) = h
NoMatch-at contained container needle text (b ∷ bs) last after (h, hs) =
    NoMatch-at contained container needle (b.fingerprint ∷ text) bs last after hs

-- When `Check` of two files that can be read reports no containment, then wherever the fingerprints
-- of all the records of the contained rollout stand in a row among those of the container, the
-- bytes that end with the last of these records are not those of the contained rollout: the search
-- misses no place.
pub check-Differs :
    (sha256 : Bytes → Bytes) (envelope_type : Bytes → Option Bytes) (ignore : Bool)
    (contained_path container_path contained container : Bytes) (r : RecordInfo)
    (rs : List RecordInfo) (c : Containment) (before : List RecordInfo) (last : RecordInfo)
    (after : List RecordInfo)
    → scan_records sha256 envelope_type ignore contained ≡ r ∷ rs
    → scan_records sha256 envelope_type ignore container ≡ before ++ (last ∷ after)
    → Ends
        (needle_of r rs).fingerprints
        (length (needle_of r rs).fingerprints)
        (last.fingerprint ∷ passed [] before)
    → check sha256 envelope_type ignore contained_path
        (some contained)
        container_path
        (some container)
      ≡ ok c
    → c.contained ≡ false
    → Differs contained container (needle_of r rs) last
check-Differs sha256 envelope_type ignore contained_path container_path contained container r rs c
      before last after records others stands h nothing =
    NoMatch-at contained container (needle_of r rs) [] before last after
      (subst (NoMatch contained container (needle_of r rs) []) others (
        check-NoMatch sha256 envelope_type ignore contained_path container_path contained container
          r rs c records h nothing))
      stands
