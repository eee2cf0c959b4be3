-- ===== src/Contain/Matching.antt =====
-- internal/contain/contain.go: the prefix table, the search, and the comparison of the bytes that
-- it finds.
use codexfold.Prelude.{
  ℕ, zero, suc, ◌+◌, ◌-◌, Bool, true, false, not, ◌&&◌, ◌||◌, List, [], ◌∷◌, ◌++◌, map, Option,
  none, some, Outcome, ok, err, ◌>>=◌, ltb, ◌==◌, length, get_elem?, get_or, take, drop, min,
  if◌then◌else◌,
}
use codexfold.Prelude.Bytes.{Bytes, bytes_eq, is_empty}
use codexfold.Contain.Records.{RecordFingerprint, RecordInfo, same_fingerprint, scan_records}

abbrev same_as : Option RecordFingerprint → RecordFingerprint → Bool
same_as none r = false
same_as (some x) r = same_fingerprint x r

-- `sameFingerprint(needle[k], r)`
unfoldable pub same_at : List RecordFingerprint → ℕ → RecordFingerprint → Bool
same_at needle k r = same_as (get_elem? needle k) r

-- The loop that shortens the match; `matched` falls in each round, so that it bounds them.
unfoldable pub fall_back : List RecordFingerprint → List ℕ → RecordFingerprint → ℕ → ℕ → ℕ
fall_back needle prefix r zero matched = matched
fall_back needle prefix r (suc fuel) matched =
    let shorter = fall_back needle prefix r fuel (get_or prefix (matched - 1) 0) in
    if ltb 0 matched && not (same_at needle matched r) then shorter else matched

unfoldable pub advance : List RecordFingerprint → List ℕ → ℕ → RecordFingerprint → ℕ
advance needle prefix matched r =
    let k = fall_back needle prefix r matched matched in if same_at needle k r then suc k else k

-- The entries from the next index on; those before it are in `prefix`.
unfoldable pub build_from : List RecordFingerprint → List ℕ → ℕ → List RecordFingerprint → List ℕ
build_from records prefix matched [] = prefix
build_from records prefix matched (r ∷ rs) =
    let m = advance records prefix matched r in build_from records (prefix ++ m ∷ []) m rs

unfoldable pub build_prefix_table : List RecordFingerprint → List ℕ
build_prefix_table [] = []
build_prefix_table (r ∷ rs) = build_from (r ∷ rs) (0 ∷ []) 0 rs

pub data Fault : Type 0 where
  paths_required contained_unreadable no_records container_unreadable short_read : Fault

abbrev pub buffer_size : ℕ
buffer_size = 1048576

-- The loop of `equalFileRanges` over what is left of the two ranges.
unfoldable pub equal_chunks : ℕ → Bytes → Bytes → ℕ → Outcome Fault Bool
equal_chunks fuel left right zero = ok true
equal_chunks zero left right (suc n) = ok false
equal_chunks (suc fuel) left right (suc n) =
    let chunk = min buffer_size (suc n) in
    let rest = equal_chunks fuel (drop chunk left) (drop chunk right) (suc n - chunk) in
    if ltb (length left) chunk || ltb (length right) chunk
    then err short_read
    else if not (bytes_eq (take chunk left) (take chunk right))
    then ok false
    else rest

-- Each chunk has a byte at least, so that the size bounds the rounds.
unfoldable pub equal_file_ranges : Bytes → ℕ → Bytes → ℕ → ℕ → Outcome Fault Bool
equal_file_ranges left left_offset right right_offset size =
    equal_chunks size (drop left_offset left) (drop right_offset right) size

pub record Containment : Type 0 where
  pub contained : Bool
  pub verified_exact : Bool
  pub contained_records : ℕ
  pub contained_bytes : ℕ
  pub container_start_record : ℕ
  pub container_end_record : ℕ
  pub container_start_byte : ℕ
  pub container_end_byte : ℕ

-- What the search needs of the contained rollout.
pub record Needle : Type 0 where
  pub fingerprints : List RecordFingerprint
  pub prefix : List ℕ
  pub start : ℕ
  pub size : ℕ

abbrev pub not_found : Needle → Containment
not_found needle = record {
  contained = false;
  verified_exact = false;
  contained_records = length needle.fingerprints;
  contained_bytes = needle.size;
  container_start_record = 0;
  container_end_record = 0;
  container_start_byte = 0;
  container_end_byte = 0;
}

abbrev pub found_at : Needle → RecordInfo → Containment
found_at needle r = record {
  contained = true;
  verified_exact = true;
  contained_records = length needle.fingerprints;
  contained_bytes = needle.size;
  container_start_record = r.index + 1 - length needle.fingerprints;
  container_end_record = r.index;
  container_start_byte = r.stop - needle.size;
  container_end_byte = r.stop;
}

module _ (contained container : Bytes) (needle : Needle) where
  -- A full match is found only if the bytes agree; the search goes on otherwise.
  unfoldable pub verify : RecordInfo → Outcome Fault Containment → Outcome Fault Containment
  verify r rest = if ltb r.stop needle.size then err short_read else (do
    exact ← equal_file_ranges contained needle.start container (r.stop - needle.size) needle.size
    if exact then ok (found_at needle r) else rest)

  unfoldable pub search_records : ℕ → List RecordInfo → Outcome Fault Containment
  search_records matched [] = ok (not_found needle)
  search_records matched (r ∷ rs) =
      let m = advance needle.fingerprints needle.prefix matched r.fingerprint in
      let full = m == length needle.fingerprints in
      let rest = search_records (if full then get_or needle.prefix (m - 1) 0 else m) rs in
      if full then verify r rest else rest

abbrev pub last_stop : RecordInfo → List RecordInfo → ℕ
last_stop r [] = r.stop
last_stop r (s ∷ ss) = last_stop s ss

abbrev pub needle_of : RecordInfo → List RecordInfo → Needle
needle_of r rs =
    let fingerprints = map (λ (x : RecordInfo). x.fingerprint) (r ∷ rs) in
    record {
      fingerprints = fingerprints;
      prefix = build_prefix_table fingerprints;
      start = r.start;
      size = last_stop r rs - r.start;
    }

module _ (sha256 : Bytes → Bytes) (envelope_type : Bytes → Option Bytes)
    (ignore_session_meta : Bool) where
  abbrev pub check_needle : Bytes → Option Bytes → List RecordInfo → Outcome Fault Containment
  check_needle contained container [] = err no_records
  check_needle contained none (r ∷ rs) = err container_unreadable
  check_needle contained (some container) (r ∷ rs) =
      search_records contained container (needle_of r rs) 0
        (scan_records sha256 envelope_type ignore_session_meta container)

  -- `Check`, of two paths with the bytes that stand there.
  unfoldable pub check : Bytes → Option Bytes → Bytes → Option Bytes → Outcome Fault Containment
  check contained_path contained container_path container =
      if is_empty contained_path || is_empty container_path
      then err paths_required
      else elim contained [
        | none ↦ err contained_unreadable
        | some bytes ↦
            check_needle bytes container
              (scan_records sha256 envelope_type ignore_session_meta bytes)
      ]
