-- ===== src/Contain/Records.antt =====
-- internal/contain/contain.go: the records of a rollout, which are its lines. SHA-256 and the JSON
-- decoding of the first record are parameters; a file is its bytes, and `none` one that cannot be
-- read. The cancellation of the context is not modelled.
use codexfold.Prelude.{
  ℕ, suc, ◌+◌, Bool, false, ◌&&◌, List, [], ◌∷◌, Option, none, some, leb, ◌==◌, length,
  if◌then◌else◌,
}
use codexfold.Prelude.Bytes.{Bytes, bytes_eq}

pub record RecordFingerprint : Type 0 where
  pub digest : Bytes
  pub size : ℕ

pub record RecordInfo : Type 0 where
  pub index : ℕ
  pub start : ℕ
  pub stop : ℕ
  pub fingerprint : RecordFingerprint

unfoldable pub same_fingerprint : RecordFingerprint → RecordFingerprint → Bool
same_fingerprint a b = a.size == b.size && bytes_eq a.digest b.digest

abbrev pub newline : ℕ
newline = 10

abbrev pub push : ℕ → List Bytes → List Bytes
push c [] = (c ∷ []) ∷ []
push c (l ∷ ls) = (c ∷ l) ∷ ls

-- The lines with the newline at their end, which the last one may lack.
unfoldable pub lines : Bytes → List Bytes
lines [] = []
lines (c ∷ cs) = let rest = lines cs in if c == newline then (c ∷ []) ∷ rest else push c rest

abbrev pub first_record_capture_limit : ℕ
first_record_capture_limit = 8388608

-- `bytes.TrimSuffix(record, "\n")`
unfoldable pub trim_newline : Bytes → Bytes
trim_newline [] = []
trim_newline (c ∷ []) = if c == newline then [] else c ∷ []
trim_newline (c ∷ d ∷ cs) = c ∷ trim_newline (d ∷ cs)

-- "session_meta"
abbrev pub session_meta : Bytes
session_meta =
    b's' ∷ b'e' ∷ b's' ∷ b's' ∷ b'i' ∷ b'o' ∷ b'n' ∷ b'_' ∷ b'm' ∷ b'e' ∷ b't' ∷ b'a' ∷ []

abbrev has_type : Option Bytes → Bool
has_type none = false
has_type (some type) = bytes_eq type session_meta

module _ (sha256 : Bytes → Bytes) (envelope_type : Bytes → Option Bytes) where
  unfoldable pub is_session_meta : Bytes → Bool
  is_session_meta record_bytes = has_type (envelope_type (trim_newline record_bytes))

  abbrev pub info_of : ℕ → ℕ → Bytes → RecordInfo
  info_of index start line = record {
    index = index;
    start = start;
    stop = start + length line;
    fingerprint = record { digest = sha256 line; size = length line };
  }

  -- The records that `scanRecords` visits, from the line with this index and place on.
  unfoldable pub scan_from : Bool → ℕ → ℕ → List Bytes → List RecordInfo
  scan_from ignore_session_meta index start [] = []
  scan_from ignore_session_meta index start (line ∷ rest) =
      let later = scan_from ignore_session_meta (suc index) (start + length line) rest in
      if ignore_session_meta
        && index == 0
        && leb (length line) first_record_capture_limit
        && is_session_meta line
      then later
      else info_of index start line ∷ later

  unfoldable pub scan_records : Bool → Bytes → List RecordInfo
  scan_records ignore_session_meta bytes = scan_from ignore_session_meta 0 0 (lines bytes)
