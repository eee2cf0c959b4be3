-- ===== src/Pack/Format.antt =====
-- internal/pack/format.go: the index, and the validation that it must pass before objects are read
-- by it. Offsets and sizes are `int64`, and the running offset wraps as it does there.
use codexfold.Prelude.{
  Bool, false, not, ◌&&◌, ◌||◌, List, [], ◌∷◌, map, Outcome, ok, err, ◌>>=◌, ◌>>◌, ◌==◌, length,
  if◌then◌else◌,
}
use codexfold.Prelude.Int.{ℤ, pos, max_int64, eq_ℤ, ltb_ℤ, is_negative, ◌+64◌}
use codexfold.Prelude.Bytes.{Bytes, bytes_eq, is_empty}
use codexfold.FilePath.{base}

pub record Block : Type 0 where
  pub pack : Bytes
  pub pack_offset : ℤ
  pub stored_bytes : ℤ
  pub raw_offset : ℤ
  pub raw_bytes : ℤ
  pub sha256 : Bytes
  pub encoding : Bytes

pub record Object : Type 0 where
  pub sha256 : Bytes
  pub raw_bytes : ℤ
  pub blocks : List Block

pub record Index : Type 0 where
  pub version : ℤ
  pub kind : Bytes
  pub generation : Bytes
  pub created_at : Bytes
  pub block_bytes : ℤ
  pub objects : List Object

-- "pack-v2", "pack-v1", "zstd", "raw"
abbrev pub index_kind : Bytes
index_kind = b'p' ∷ b'a' ∷ b'c' ∷ b'k' ∷ b'-' ∷ b'v' ∷ b'2' ∷ []

abbrev pub legacy_index_kind : Bytes
legacy_index_kind = b'p' ∷ b'a' ∷ b'c' ∷ b'k' ∷ b'-' ∷ b'v' ∷ b'1' ∷ []

abbrev pub encoding_zstd : Bytes
encoding_zstd = b'z' ∷ b's' ∷ b't' ∷ b'd' ∷ []

abbrev pub encoding_raw : Bytes
encoding_raw = b'r' ∷ b'a' ∷ b'w' ∷ []

abbrev pub dot : Bytes
dot = b'.' ∷ []

abbrev pub dot_dot : Bytes
dot_dot = b'.' ∷ b'.' ∷ []

pub data Fault : Type 0 where
  unsupported_version invalid_generation invalid_object duplicate_object : Fault
  invalid_block invalid_encoding wrong_total : Fault

unfoldable pub safe_generation : Bytes → Bool
safe_generation generation =
    not (is_empty generation)
    && not (bytes_eq generation dot)
    && not (bytes_eq generation dot_dot)
    && bytes_eq (base generation) generation

unfoldable pub is_current : Index → Bool
is_current index = eq_ℤ index.version (pos 2) && bytes_eq index.kind index_kind

unfoldable pub is_legacy : Index → Bool
is_legacy index = eq_ℤ index.version (pos 1) && bytes_eq index.kind legacy_index_kind

abbrev pub is_positive : ℤ → Bool
is_positive a = ltb_ℤ (pos 0) a

-- The conditions on one block at the offset that is expected of it.
unfoldable pub bad_block : ℤ → Block → Bool
bad_block expected b =
    not (bytes_eq (base b.pack) b.pack)
    || bytes_eq b.pack dot
    || bytes_eq b.pack dot_dot
    || is_negative b.pack_offset
    || not (is_positive b.stored_bytes)
    || ltb_ℤ (pos max_int64) b.stored_bytes
    || not (is_positive b.raw_bytes)
    || not (eq_ℤ b.raw_offset expected)
    || not (length b.sha256 == 64)

unfoldable pub bad_encoding : Bool → Block → Bool
bad_encoding current b =
    not (bytes_eq b.encoding encoding_zstd)
    && (not current || not (bytes_eq b.encoding encoding_raw))

-- The offset after the block.
unfoldable pub check_block : Bool → ℤ → Block → Outcome Fault ℤ
check_block current expected b =
    if bad_block expected b
    then err invalid_block
    else if bad_encoding current b
    then err invalid_encoding
    else ok (expected +64 b.raw_bytes)

unfoldable pub check_blocks : Bool → ℤ → List Block → Outcome Fault ℤ
check_blocks current expected [] = ok expected
check_blocks current expected (b ∷ bs) = do
  next ← check_block current expected b
  check_blocks current next bs

-- A Go map, of which only the keys matter.
unfoldable pub seen : Bytes → List Bytes → Bool
seen k [] = false
seen k (x ∷ xs) = bytes_eq k x || seen k xs

unfoldable pub check_total : Object → ℤ → Outcome Fault (Unit {0})
check_total o total = if eq_ℤ total o.raw_bytes then ok tt else err wrong_total

unfoldable pub check_object : Bool → List Bytes → Object → Outcome Fault (Unit {0})
check_object current known o =
    if not (length o.sha256 == 64) || is_negative o.raw_bytes
    then err invalid_object
    else if seen o.sha256 known
    then err duplicate_object
    else (do total ← check_blocks current (pos 0) o.blocks; check_total o total)

unfoldable pub check_objects : Bool → List Bytes → List Object → Outcome Fault (Unit {0})
check_objects current known [] = ok tt
check_objects current known (o ∷ os) = do
  check_object current known o
  check_objects current (o.sha256 ∷ known) os

unfoldable pub validate_index : Index → Outcome Fault (Unit {0})
validate_index index =
    if not (is_current index) && not (is_legacy index)
    then err unsupported_version
    else if not (safe_generation index.generation) || not (is_positive index.block_bytes)
    then err invalid_generation
    else check_objects (is_current index) [] index.objects

unfoldable pub normalize_block : Block → Block
normalize_block b = record b {
  encoding = if is_empty b.encoding then encoding_zstd else b.encoding;
}

abbrev pub normalize_object : Object → Object
normalize_object o = record o { blocks = map normalize_block o.blocks }

unfoldable pub normalize_legacy_index : Index → Index
normalize_legacy_index index =
    if not (is_legacy index)
    then index
    else record index { objects = map normalize_object index.objects }
