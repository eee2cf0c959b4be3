-- ===== src/Contain/Lines.antt =====
-- The records of a file lie end to end, up to its end.
use codexfold.Prelude.{
  ℕ, suc, ◌+◌, ◌≡◌, refl, sym, ap, ◌∙◌, ◌⊎◌, Bool, true, false, ◌&&◌, List, [], ◌∷◌, ◌++◌, Option,
  leb, ◌==◌, length, arith, length-append, Bool-cases, inl, inr,
}
use codexfold.Prelude.Bytes.{Bytes}
use codexfold.Contain.Records.{
  RecordInfo, newline, lines, push, first_record_capture_limit, is_session_meta, scan_from,
}
use codexfold.Contain.Matching.{last_stop}

-- The lines, one after the other, are the file.
unfoldable pub joined : List Bytes → Bytes
joined [] = []
joined (l ∷ ls) = l ++ joined ls

joined-push : (c : ℕ) (ls : List Bytes) → joined (push c ls) ≡ c ∷ joined ls
unfolding joined
joined-push c [] = refl
joined-push c (l ∷ ls) = refl

pub joined-lines : (bytes : Bytes) → joined (lines bytes) ≡ bytes
unfolding joined lines
joined-lines [] = refl
joined-lines (c ∷ cs) = elim (Bool-cases (c == newline)) [
  | inl ends ↦ rw ends (ap (◌∷◌ c) (joined-lines cs))
  | inr goes_on ↦ rw goes_on (joined-push c (lines cs) ∙ ap (◌∷◌ c) (joined-lines cs))
]

end_of : ℕ → List RecordInfo → ℕ
end_of stop [] = stop
end_of stop (r ∷ rs) = end_of r.stop rs

start_of : ℕ → List RecordInfo → ℕ
start_of d [] = d
start_of d (r ∷ rs) = r.start

abbrev pub first_line : List Bytes → Bytes
first_line [] = []
first_line (l ∷ ls) = l

last_stop-end_of : (r : RecordInfo) (rs : List RecordInfo) → last_stop r rs ≡ end_of r.stop rs
unfolding end_of
last_stop-end_of r [] = refl
last_stop-end_of r (s ∷ ss) = last_stop-end_of s ss

module _ (sha256 : Bytes → Bytes) (envelope_type : Bytes → Option Bytes)
    (ignore_session_meta : Bool) where
  first_only : (index : ℕ) (a b : Bool) → (ignore_session_meta && suc index == 0 && a && b) ≡ false
  first_only index a b = ground arith

  -- From the second line on nothing is passed over.
  end_of-scan_from :
      (index start : ℕ) (ls : List Bytes)
      → end_of start (scan_from sha256 envelope_type ignore_session_meta (suc index) start ls)
        ≡ start + length (joined ls)
  unfolding scan_from end_of joined
  end_of-scan_from index start [] = omega arith
  end_of-scan_from index start (l ∷ ls) =
      let next = start + length l in
      let kept =
        first_only index (leb (length l) first_record_capture_limit)
          (is_session_meta sha256 envelope_type l) in
      rw kept (omega (arith, end_of-scan_from (suc index) next ls, length-append l (joined ls)))

  start_of-scan_from :
      (index start : ℕ) (l : Bytes) (ls : List Bytes)
      → start_of 0 (scan_from sha256 envelope_type ignore_session_meta (suc index) start (l ∷ ls))
        ≡ start
  unfolding scan_from start_of
  start_of-scan_from index start l ls =
      let kept =
        first_only index (leb (length l) first_record_capture_limit)
          (is_session_meta sha256 envelope_type l) in
      rw kept refl

  -- The comparable records of a file begin with it, or after its first line where that may be
  -- ignored, and end with it.
  pub record Comparable (ls : List Bytes) (r : RecordInfo) (rs : List RecordInfo) : Type 0 where
    pub begins : (r.start ≡ 0) ⊎ ((ignore_session_meta ≡ true) × (r.start ≡ length (first_line ls)))
    pub ends : last_stop r rs ≡ length (joined ls)

  skipped_start :
      (l : Bytes) (ls : List Bytes) (r : RecordInfo) (rs : List RecordInfo)
      → scan_from sha256 envelope_type ignore_session_meta 1 (0 + length l) ls ≡ r ∷ rs
      → r.start ≡ length l
  unfolding scan_from start_of
  skipped_start l [] r rs h = absurd (ground arith)
  skipped_start l (m ∷ ls) r rs h =
      let e = start_of-scan_from 0 (0 + length l) m ls in sym (ap (start_of 0) h) ∙ e ∙ omega arith

  pub scan-Comparable :
      (ls : List Bytes) (r : RecordInfo) (rs : List RecordInfo)
      → scan_from sha256 envelope_type ignore_session_meta 0 0 ls ≡ r ∷ rs
      → Comparable ls r rs
  unfolding scan_from end_of start_of joined
  scan-Comparable [] r rs h = absurd (ground arith)
  scan-Comparable (l ∷ ls) r rs h =
      let skips =
        ignore_session_meta
        && 0 == 0
        && leb (length l) first_record_capture_limit
        && is_session_meta sha256 envelope_type l in
      elim (Bool-cases skips) [
        | inr kept ↦
            let here = rw kept at h in
            record {
              begins = inl (sym (ap (start_of 0) here));
              ends =
                  last_stop-end_of r rs
                  ∙ sym (ap (end_of 0) here)
                  ∙ end_of-scan_from 0 (0 + length l) ls
                  ∙ omega (arith, length-append l (joined ls));
            }
        | inl skipped ↦
            let later = rw skipped at h in
            record {
              begins = inr (ground arith, skipped_start l ls r rs later);
              ends =
                  last_stop-end_of r rs
                  ∙ sym (ap (end_of (0 + length l)) later)
                  ∙ end_of-scan_from 0 (0 + length l) ls
                  ∙ omega (arith, length-append l (joined ls));
            }
      ]
