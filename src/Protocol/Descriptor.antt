-- ===== src/Protocol/Descriptor.antt =====
-- internal/fskitproto/protocol.go: the resource descriptor, which tells a client where the daemon
-- listens.
pub mod RoundTrip
pub mod Validity
use codexfold.Prelude.{
  ℕ, ◌+◌, ◌≤◌, ◌<◌, ◌≡◌, refl, Bool, true, false, ◌&&◌, ◌||◌, not, List, [], ◌∷◌, ◌++◌, ltb, leb,
  ◌==◌, if◌then◌else◌, length, Outcome, ok, err, arith,
}
use codexfold.Prelude.Bytes.{Bytes, bytes_eq, is_empty}
use codexfold.Protocol.Codec.{
  Error, truncated, bad_magic, bad_generation, bad_socket, bad_token, bad_version, Encoder,
  new_encoder, Write, put_raw, put_uint16, put_uint64, put_string, put_bytes, Decoder, new_decoder,
  Read, ◌>>=◌, ◌>>◌, pure, fail, require, get_raw, get_uint16, get_uint64, get_string, get_bytes,
  done,
}

pub record Descriptor : Type 0 where
  pub generation : ℕ
  pub socket_path : Bytes
  pub token : Bytes

-- "CFSR"
abbrev pub descriptor_magic : Bytes
descriptor_magic = 0x43 ∷ 0x46 ∷ 0x53 ∷ 0x52 ∷ []

abbrev pub version : ℕ
version = 2

unfoldable pub put_descriptor : Descriptor → Write
put_descriptor d e =
    let e1 = put_raw descriptor_magic e in
    let e2 = put_uint16 version e1 in
    let e3 = put_uint16 0 e2 in
    let e4 = put_uint64 d.generation e3 in
    let e5 = put_string d.socket_path e4 in put_bytes d.token e5

unfoldable pub encode_descriptor : Descriptor → Outcome Error Bytes
encode_descriptor d =
    if d.generation == 0
    then err bad_generation
    else if is_empty d.socket_path || ltb 4096 (length d.socket_path)
    then err bad_socket
    else if ltb (length d.token) 16 || ltb 256 (length d.token)
    then err bad_token
    else ok (put_descriptor d new_encoder).buffer

unfoldable pub check_version : ℕ → Read (Unit {0})
check_version v = if v == version then pure tt else fail (bad_version v)

-- The fields, up to the check for trailing bytes.
unfoldable pub get_descriptor : Read Descriptor
unfolding check_version
get_descriptor = do
  require (get_raw 4) (λ m. bytes_eq m descriptor_magic) bad_magic
  v ← get_uint16
  check_version v
  get_uint16
  generation ← require get_uint64 (λ g. not (g == 0)) bad_generation
  socket_path ← require (get_string 4096) (λ p. not (is_empty p)) bad_socket
  token ← require (get_bytes 256) (λ t. leb 16 (length t)) bad_token
  pure (record { generation = generation; socket_path = socket_path; token = token })

unfoldable pub decode_descriptor : Bytes → Outcome Error Descriptor
decode_descriptor bytes = ((do d ← get_descriptor; done; pure d) (new_decoder bytes)).0
