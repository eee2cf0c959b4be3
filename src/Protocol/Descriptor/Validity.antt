-- ===== src/Protocol/Descriptor/Validity.antt =====
-- What `DecodeDescriptor` lets through.
use codexfold.Prelude.{
  ℕ, ◌≤◌, ◌<◌, ◌≡◌, ap, ◌&&◌, ok-injective, ltb, length, drop, ok, arith, length-take, length-drop,
}
use codexfold.Prelude.Bytes.{Bytes}
use codexfold.Protocol.Codec.{
  new_encoder, new_decoder, remaining, get_raw, get_uint16, get_uint32, get_uint64, get_bytes,
  get_string, bad_magic, over_limit, pure, require, done, ◌>>◌,
}
use codexfold.Protocol.Inversion.{
  bind-eq_ok, Ensures, Ensures-any, Ensures-pure, Ensures-bind, Ensures-require, if_fail-eq_ok,
}
use codexfold.Protocol.Descriptor.{
  Descriptor, put_descriptor, encode_descriptor, check_version, get_descriptor, decode_descriptor,
}
use codexfold.Protocol.Descriptor.RoundTrip.{IsSendable}

Ensures-get_raw : (n : ℕ) → Ensures (λ bs. length bs ≡ n) (get_raw n)
unfolding get_raw remaining
Ensures-get_raw n = record {
  holds =
      λ d bs h. ground (arith, length-take n (drop d.offset d.input), length-drop d.offset d.input);
}

Ensures-get_string : (limit : ℕ) → 0 < limit → Ensures (λ bs. length bs ≤ limit) (get_string limit)
unfolding get_string get_bytes
Ensures-get_string limit h = Ensures-bind _ _ get_uint32 _ (Ensures-any get_uint32) (λ n _. record {
  holds = λ d bs k.
      let (within, k') =
        if_fail-eq_ok (ltb 0 limit && ltb limit n) (over_limit n) (get_raw n) d k in
      let size = (Ensures-get_raw n).holds d bs k' in ground arith;
})

Ensures-get_bytes : (limit : ℕ) → 0 < limit → Ensures (λ bs. length bs ≤ limit) (get_bytes limit)
Ensures-get_bytes limit h = unfold get_string in Ensures-get_string limit h

Ensures-get_descriptor : Ensures IsSendable get_descriptor
unfolding get_descriptor
Ensures-get_descriptor =
    Ensures-bind _ _ _ _ (Ensures-any (require (get_raw 4) _ bad_magic)) (λ _ _.
      Ensures-bind _ _ _ _ (Ensures-any get_uint16) (λ v _.
        Ensures-bind _ _ _ _ (Ensures-any (check_version v)) (λ _ _.
          Ensures-bind _ _ _ _ (Ensures-any get_uint16) (λ _ _.
            Ensures-bind _ _ _ _ (Ensures-require _ _ _ _ (Ensures-any get_uint64)) (λ g hg.
              Ensures-bind _ _ _ _ (Ensures-require _ _ _ _ (Ensures-get_string 4096 (omega arith)))
                (λ p hp.
                  Ensures-bind _ _ _ _
                    (Ensures-require _ _ _ _ (Ensures-get_bytes 256 (omega arith)))
                    (λ t ht. Ensures-pure _ _ (record {
                      generation_set = hg.1;
                      socket_set = hp.1;
                      socket_fits = hp.0;
                      token_long = ht.1;
                      token_fits = ht.0;
                    }))))))))

encode_descriptor-of_IsSendable :
    (d : Descriptor) → IsSendable d → encode_descriptor d ≡ ok (put_descriptor d new_encoder).buffer
unfolding encode_descriptor
encode_descriptor-of_IsSendable d h = ground arith

-- Whatever bytes `DecodeDescriptor` accepts, the descriptor that it returns is one that
-- `EncodeDescriptor` accepts too.
pub encode_descriptor-decode_descriptor :
    (bytes : Bytes) {d : Descriptor}
    → decode_descriptor bytes ≡ ok d
    → encode_descriptor d ≡ ok (put_descriptor d new_encoder).buffer
unfolding decode_descriptor
encode_descriptor-decode_descriptor bytes {d} h =
    let (d', s, e, k) = bind-eq_ok get_descriptor (λ x. done >> pure x) (new_decoder bytes) h in
    let (_, s', _, l) = bind-eq_ok done (λ _. pure d') s k in
    let sendable : IsSendable d' =
      Ensures-get_descriptor.holds (new_decoder bytes) d' (ap (λ p. p.0) e) in
    let same : d' ≡ d = unfold pure in ok-injective l in
    rw (← same) (encode_descriptor-of_IsSendable d' sendable)
