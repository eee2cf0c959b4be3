-- ===== src/Protocol/Descriptor/RoundTrip.antt =====
-- `DecodeDescriptor` after `EncodeDescriptor`.
use codexfold.Prelude.{◌≤◌, ◌<◌, ◌≡◌, refl, true, not, ◌++◌, length, leb, ◌==◌, ok, arith}
use codexfold.Prelude.Bytes.{Bytes, bytes_eq, is_empty}
use codexfold.Protocol.Codec.{le_bytes, Encoder, new_encoder}
use codexfold.Protocol.Wire.{
  Reads, Reads-bind, Reads-last, Reads-pure, Reads-require, Reads-get_raw, Reads-get_uint16,
  Reads-get_uint64, Reads-get_string, Reads-get_bytes, Reads-done, field_wire,
}
use codexfold.Protocol.RoundTrip.{wire_laws}
use codexfold.Protocol.Descriptor.{
  Descriptor, descriptor_magic, version, put_descriptor, encode_descriptor, check_version,
  get_descriptor, decode_descriptor,
}

abbrev descriptor_wire : Descriptor → Bytes
descriptor_wire d =
    descriptor_magic
    ++ (le_bytes 2 version
        ++ (le_bytes 2 0
            ++ (le_bytes 8 d.generation ++ (field_wire d.socket_path ++ field_wire d.token))))

put_descriptor-wire :
    (d : Descriptor) (e : Encoder) → (put_descriptor d e).buffer ≡ e.buffer ++ descriptor_wire d
unfolding put_descriptor
put_descriptor-wire d e = simp wire_laws

-- What `EncodeDescriptor` requires.
pub record IsSendable (d : Descriptor) : Type 0 where
  pub generation_set : not (d.generation == 0) ≡ true
  pub socket_set : not (is_empty d.socket_path) ≡ true
  pub socket_fits : length d.socket_path ≤ 4096
  pub token_long : leb 16 (length d.token) ≡ true
  pub token_fits : length d.token ≤ 256

Reads-get_descriptor :
    (d : Descriptor)
    → IsSendable d
    → d.generation < 18446744073709551616
    → Reads get_descriptor (descriptor_wire d) d
unfolding get_descriptor check_version bytes_eq
Reads-get_descriptor d h g =
    Reads-bind _ (Reads-require _ _ (Reads-get_raw 4 descriptor_magic refl) refl) (
      Reads-bind _ (Reads-get_uint16 version (omega arith)) (
        Reads-bind _ (Reads-pure tt) (
          Reads-bind _ (Reads-get_uint16 0 (omega arith)) (
            Reads-bind _ (Reads-require _ _ (Reads-get_uint64 _ g) h.generation_set) (
              Reads-bind _
                (Reads-require _ _ (Reads-get_string 4096 _ (omega arith) h.socket_fits)
                  h.socket_set)
                (Reads-last _
                  (Reads-require _ _ (Reads-get_bytes 256 _ (omega arith) h.token_fits)
                    h.token_long)
                  (Reads-pure d)))))))

encode_descriptor-IsSendable :
    (d : Descriptor) {bytes : Bytes} → encode_descriptor d ≡ ok bytes → IsSendable d
unfolding encode_descriptor
encode_descriptor-IsSendable d h = ground arith

encode_descriptor-wire :
    (d : Descriptor) {bytes : Bytes}
    → encode_descriptor d ≡ ok bytes
    → bytes ≡ (put_descriptor d new_encoder).buffer
unfolding encode_descriptor
encode_descriptor-wire d h = ground arith

-- A descriptor that `EncodeDescriptor` accepts is read back as it was by `DecodeDescriptor`, the
-- generation being a 64-bit number.
pub decode_descriptor-encode_descriptor :
    (d : Descriptor) {bytes : Bytes}
    → d.generation < 18446744073709551616
    → encode_descriptor d ≡ ok bytes
    → decode_descriptor bytes ≡ ok d
unfolding decode_descriptor
decode_descriptor-encode_descriptor d g h =
    rw (encode_descriptor-wire d h, put_descriptor-wire d new_encoder)
      (Reads-done (Reads-get_descriptor d (encode_descriptor-IsSendable d h) g))
