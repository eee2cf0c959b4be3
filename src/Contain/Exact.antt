-- ===== src/Contain/Exact.antt =====
-- What `Check` says when it reports a containment.
use codexfold.Prelude.{
  take-all, ℕ, ◌+◌, ◌-◌, ◌≤◌, ◌≡◌, refl, sym, ap, ◌∙◌, ◌⊎◌, Bool, true, ◌||◌, List, [], ◌∷◌, Option,
  some, ok, length, take, drop, arith, length-append, length-drop, Bool-cases, inl, inr,
}
use codexfold.Prelude.Bytes.{Bytes, is_empty}
use codexfold.Contain.Records.{RecordInfo, lines, scan_from, scan_records}
use codexfold.Contain.Matching.{Containment, last_stop, needle_of, check_needle, check}
use codexfold.Contain.Comparison.{Occurs, search_records-Reported}
use codexfold.Contain.Lines.{joined, joined-lines, first_line, Comparable, scan-Comparable}

first_line-le : (ls : List Bytes) → length (first_line ls) ≤ length (joined ls)
unfolding joined
first_line-le [] = omega arith
first_line-le (l ∷ ls) = omega (arith, length-append l (joined ls))

-- All of the contained rollout, but for its first line where that may be ignored, stands in the
-- container between the two places of the report.
pub record IsContained (ignore_session_meta : Bool) (contained container : Bytes) (c : Containment)
    : Type 0 where
  pub start : ℕ
  pub begins :
      (start ≡ 0) ⊎ ((ignore_session_meta ≡ true) × (start ≡ length (first_line (lines contained))))
  pub all_bytes : start + c.contained_bytes ≡ length contained
  pub ends_at : c.container_start_byte + c.contained_bytes ≡ c.container_end_byte
  pub verbatim :
      take c.contained_bytes (drop c.container_start_byte container) ≡ drop start contained

Occurs-IsContained :
    (sha256 : Bytes → Bytes) (envelope_type : Bytes → Option Bytes) (ignore : Bool)
    (contained container : Bytes) (r : RecordInfo) (rs : List RecordInfo) (c : Containment)
    → Comparable sha256 envelope_type ignore (lines contained) r rs
    → Occurs contained container r.start (last_stop r rs - r.start) c
    → IsContained ignore contained container c
Occurs-IsContained sha256 envelope_type ignore contained container r rs c k o =
    let whole : last_stop r rs ≡ length contained = k.ends ∙ ap length (joined-lines contained) in
    let early : r.start ≤ length contained = elim k.begins [
      | inl at_start ↦ omega arith
      | inr after ↦
          omega
            (arith, first_line-le (lines contained), ap length (joined-lines contained), after.1)
    ] in
    record {
      start = r.start;
      begins = k.begins;
      all_bytes = omega (arith, o.size_is, whole);
      ends_at = ap (λ n. c.container_start_byte + n) o.size_is ∙ o.ends_at;
      verbatim =
          ap (λ n. take n (drop c.container_start_byte container)) o.size_is
          ∙ sym o.agrees
          ∙ take-all _ (drop r.start contained)
              (omega (arith, whole, length-drop r.start contained));
    }

check_needle-IsContained :
    (sha256 : Bytes → Bytes) (envelope_type : Bytes → Option Bytes) (ignore : Bool)
    (contained container : Bytes) (records : List RecordInfo) {c : Containment}
    → scan_from sha256 envelope_type ignore 0 0 (lines contained) ≡ records
    → check_needle sha256 envelope_type ignore contained (some container) records ≡ ok c
    → c.contained ≡ true
    → IsContained ignore contained container c
check_needle-IsContained sha256 envelope_type ignore contained container [] e h reported =
    absurd (ground arith)
check_needle-IsContained sha256 envelope_type ignore contained container (r ∷ rs) {c} e h reported =
    elim (search_records-Reported contained container (needle_of r rs) 0 _ c h) [
      | inl nothing ↦ absurd (ground arith)
      | inr o ↦
          Occurs-IsContained sha256 envelope_type ignore contained container r rs c
            (scan-Comparable sha256 envelope_type ignore (lines contained) r rs e) o
    ]

-- When `Check` of two files that can be read reports a containment, all of the contained rollout
-- stands verbatim in the container at the reported place, but perhaps for its first line where
-- the session's metadata are ignored.
pub check-IsContained :
    (sha256 : Bytes → Bytes) (envelope_type : Bytes → Option Bytes) (ignore : Bool)
    (contained_path container_path contained container : Bytes) {c : Containment}
    → check sha256 envelope_type ignore contained_path
        (some contained)
        container_path
        (some container)
      ≡ ok c
    → c.contained ≡ true
    → IsContained ignore contained container c
unfolding check scan_records
check-IsContained sha256 envelope_type ignore contained_path container_path contained container {c}
      h reported =
    elim (Bool-cases (is_empty contained_path || is_empty container_path)) [
      | inl unnamed ↦ absurd (ground (arith, rw unnamed at h))
      | inr named ↦
          check_needle-IsContained sha256 envelope_type ignore contained container _ refl
            (rw named at h) reported
    ]
