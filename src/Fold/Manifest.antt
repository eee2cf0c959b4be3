-- ===== src/Fold/Manifest.antt =====
-- internal/fold/manifest.go: the data of a manifest, and what makes one valid. JSON and files are not
-- modelled.
use codexfold.Prelude.{
  Bool, not, ◌&&◌, ◌||◌, List, [], ◌∷◌, Outcome, ok, err, ◌>>◌, ◌==◌, length, if◌then◌else◌,
}
use codexfold.Prelude.Int.{ℤ, pos, eq_ℤ, is_negative}
use codexfold.Prelude.Bytes.{Bytes, bytes_eq, is_empty, contains_any}

pub record ObjectRef : Type 0 where
  pub sha256 : Bytes
  pub raw_bytes : ℤ
  pub stored_bytes : ℤ

pub record Part : Type 0 where
  pub kind : Bytes
  pub json_path : Bytes
  pub object : ObjectRef

pub record ManifestSession : Type 0 where
  pub id : Bytes
  pub title : Bytes
  pub cwd : Bytes
  pub rollout_path : Bytes
  pub archived : Bool

pub record ManifestSource : Type 0 where
  pub bytes : ℤ
  pub sha256 : Bytes

pub record ManifestSettings : Type 0 where
  pub field_threshold : ℤ
  pub max_json_line_bytes : ℤ
  pub cdc_min_bytes : ℤ
  pub cdc_average_bytes : ℤ
  pub cdc_max_bytes : ℤ
  pub compression : Bytes
  pub record_threshold : ℤ

pub record Manifest : Type 0 where
  pub version : ℤ
  pub kind : Bytes
  pub created_at : Bytes
  pub session : ManifestSession
  pub source : ManifestSource
  pub settings : ManifestSettings
  pub parts : List Part

-- "fold-v1", "fold-v2", "residual", "field", "record"
abbrev pub manifest_kind : Bytes
manifest_kind = b'f' ∷ b'o' ∷ b'l' ∷ b'd' ∷ b'-' ∷ b'v' ∷ b'1' ∷ []

abbrev pub manifest_kind_v2 : Bytes
manifest_kind_v2 = b'f' ∷ b'o' ∷ b'l' ∷ b'd' ∷ b'-' ∷ b'v' ∷ b'2' ∷ []

abbrev pub part_residual : Bytes
part_residual = b'r' ∷ b'e' ∷ b's' ∷ b'i' ∷ b'd' ∷ b'u' ∷ b'a' ∷ b'l' ∷ []

abbrev pub part_field : Bytes
part_field = b'f' ∷ b'i' ∷ b'e' ∷ b'l' ∷ b'd' ∷ []

abbrev pub part_record : Bytes
part_record = b'r' ∷ b'e' ∷ b'c' ∷ b'o' ∷ b'r' ∷ b'd' ∷ []

unfoldable pub supported_manifest : ℤ → Bytes → Bool
supported_manifest version kind =
    (eq_ℤ version (pos 1) && bytes_eq kind manifest_kind)
    || (eq_ℤ version (pos 2) && bytes_eq kind manifest_kind_v2)

unfoldable pub supported_part : ℤ → Bytes → Bool
supported_part version kind =
    bytes_eq kind part_residual
    || bytes_eq kind part_field
    || (eq_ℤ version (pos 2) && bytes_eq kind part_record)

pub data Fault : Type 0 where
  unsupported_kind missing_identity unsafe_session_id unsupported_part invalid_reference : Fault

unfoldable pub validate_session_id : Bytes → Outcome Fault (Unit {0})
validate_session_id id =
    if is_empty id
      || bytes_eq id (b'.' ∷ [])
      || bytes_eq id (b'.' ∷ b'.' ∷ [])
      || contains_any (λ c. c == b'/' || c == b'\\' || c == 0) id
    then err unsafe_session_id
    else ok tt

unfoldable pub validate_part : ℤ → Part → Outcome Fault (Unit {0})
validate_part version part =
    if not (supported_part version part.kind)
    then err unsupported_part
    else if not (length part.object.sha256 == 64) || is_negative part.object.raw_bytes
    then err invalid_reference
    else ok tt

unfoldable pub validate_parts : ℤ → List Part → Outcome Fault (Unit {0})
validate_parts version [] = ok tt
validate_parts version (part ∷ parts) = do validate_part version part; validate_parts version parts

unfoldable pub validate_manifest : Manifest → Outcome Fault (Unit {0})
validate_manifest manifest =
    if not (supported_manifest manifest.version manifest.kind)
    then err unsupported_kind
    else if is_empty manifest.session.id || is_empty manifest.source.sha256
    then err missing_identity
    else (do
      validate_session_id manifest.session.id
      validate_parts manifest.version manifest.parts)
