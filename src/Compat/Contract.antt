-- ===== src/Compat/Contract.antt =====
-- internal/compat/contract.go: contracts and their evaluation. The files that they stand in are not
-- modelled.
use codexfold.Prelude.{
  Bool, true, false, not, ◌&&◌, ◌||◌, List, [], ◌∷◌, ◌++◌, Outcome, ok, err, ◌>>◌, ◌==◌, length,
  if◌then◌else◌,
}
use codexfold.Prelude.Int.{ℤ, pos, eq_ℤ, ltb_ℤ}
use codexfold.Prelude.Bytes.{Bytes, bytes_eq, is_empty, contains_any}

pub record Signature : Type 0 where
  pub value : Bytes
  pub count : ℤ

pub record Operation : Type 0 where
  pub name : Bytes
  pub count : ℤ
  pub signatures : List Signature

pub record Contract : Type 0 where
  pub version : ℤ
  pub platform : Bytes
  pub client_kind : Bytes
  pub client_version : Bytes
  pub operations : List Operation
  pub trace_sha256 : Bytes

pub record ClientVersion : Type 0 where
  pub platform : Bytes
  pub kind : Bytes
  pub version : Bytes

pub record Evaluation : Type 0 where
  pub approved : Bool
  pub quarantine : Bool
  pub unknown : List ClientVersion

pub data Fault : Type 0 where
  invalid_metadata invalid_operation invalid_signature : Fault

abbrev is_positive : ℤ → Bool
is_positive a = ltb_ℤ (pos 0) a

unfoldable pub validate_signatures : List Signature → Outcome Fault (Unit {0})
validate_signatures [] = ok tt
validate_signatures (s ∷ ss) =
    let rest = validate_signatures ss in
    if is_empty s.value
      || not (is_positive s.count)
      || contains_any (λ c. c == b'/' || c == b'\\') s.value
    then err invalid_signature
    else rest

unfoldable pub validate_operations : List Operation → Outcome Fault (Unit {0})
validate_operations [] = ok tt
validate_operations (o ∷ os) =
    let rest = validate_operations os in
    if is_empty o.name || not (is_positive o.count)
    then err invalid_operation
    else (do validate_signatures o.signatures; rest)

unfoldable pub validate_contract : Contract → Outcome Fault (Unit {0})
validate_contract c =
    if not (eq_ℤ c.version (pos 1))
      || is_empty c.platform
      || is_empty c.client_kind
      || is_empty c.client_version
      || not (length c.trace_sha256 == 64)
    then err invalid_metadata
    else validate_operations c.operations

abbrev pub is_ok : Outcome Fault (Unit {0}) → Bool
is_ok (ok _) = true
is_ok (err _) = false

-- The three parts with a zero byte between them.
unfoldable pub key_of : Bytes → Bytes → Bytes → Bytes
key_of platform kind version = platform ++ 0 ∷ (kind ++ 0 ∷ version)

-- The keys of the valid contracts, which Go keeps in a map.
unfoldable pub known_keys : List Contract → List Bytes
known_keys [] = []
known_keys (c ∷ cs) =
    let rest = known_keys cs in
    if is_ok (validate_contract c)
    then key_of c.platform c.client_kind c.client_version ∷ rest
    else rest

unfoldable pub has_key : Bytes → List Bytes → Bool
has_key key [] = false
has_key key (k ∷ ks) = bytes_eq k key || has_key key ks

unfoldable pub is_known : List Bytes → ClientVersion → Bool
is_known known client =
    has_key (key_of client.platform client.kind client.version) known
    && not (is_empty client.kind)
    && not (is_empty client.version)

unfoldable pub unknown_of : List Bytes → List ClientVersion → List ClientVersion
unknown_of known [] = []
unknown_of known (c ∷ cs) =
    let rest = unknown_of known cs in if is_known known c then rest else c ∷ rest

abbrev pub verdict : List ClientVersion → Evaluation
verdict [] = record { approved = true; quarantine = false; unknown = [] }
verdict (c ∷ cs) = record { approved = false; quarantine = true; unknown = c ∷ cs }

unfoldable pub evaluate : List ClientVersion → List Contract → Evaluation
evaluate installed contracts = verdict (unknown_of (known_keys contracts) installed)
