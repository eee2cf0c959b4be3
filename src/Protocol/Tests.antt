-- ===== src/Protocol/Tests.antt =====
-- Concrete frames, entries and descriptors, and the theorems of the protocol at them.
use codexfold.Prelude.{
  ℕ, ◌≤◌, ◌≡◌, refl, ap, sym, ◌∙◌, zero, suc, false, [], ◌∷◌, ◌++◌, length, take, none, min, Option,
  ok, arith,
}
use codexfold.Prelude.Int.{pos, negsuc, to_uint32, of_uint32, to_uint64, of_uint64}
use codexfold.Prelude.Bytes.{Bytes, bytes_eq}
use codexfold.Protocol.Codec.{
  Error, Time, zero_time, le_bytes, of_le, new_encoder, put_raw, put_uint16, put_uint32, put_uint64,
  put_int64, put_string, put_bytes, put_time, new_decoder, get_time, get_raw, get_int64, get_uint64,
  get_uint32, time_of, pure, remaining, lift, fail, ◌>>=◌,
}
use codexfold.Protocol.Message.{Entry, put_entry, get_entry, StatFs}
use codexfold.Protocol.RoundTrip.{IsEntry, delivered, get_entry-put_entry}
use codexfold.Protocol.Descriptor.{Descriptor, put_descriptor, encode_descriptor, decode_descriptor}
use codexfold.Protocol.Descriptor.RoundTrip.{decode_descriptor-encode_descriptor}
use codexfold.Protocol.Descriptor.Validity.{encode_descriptor-decode_descriptor}
use codexfold.Protocol.Frame.{
  Frame, Writer, read_frame, read_full, check_header, read_payload, header_bytes, write_all,
  write_frame, write_frame_header, write_frame_payload, payload_limit,
}
use codexfold.Protocol.Frame.Stream.{IsFrame, read_frame-header, read_frame_bounded}
use codexfold.Protocol.Frame.Writing.{Willing, write_all_total, read_frame-write_frame}

abbrev noon : Time
noon = record { seconds = negsuc 41; nanosecond = 500 }

abbrev epoch : Time
epoch = record { seconds = pos 0; nanosecond = 0 }

abbrev rollout : Entry
rollout = record {
  path = b'/' ∷ b'a' ∷ [];
  name = b'a' ∷ [];
  node_id = 7;
  parent_id = 1;
  kind = 1;
  mode = 420;
  uid = 501;
  gid = 20;
  size = 4096;
  alloc_size = 8192;
  mod_time = noon;
  change_time = epoch;
  access_time = zero_time;
  namespace_id = 3;
  content_generation = 9;
}

rollout-IsEntry : IsEntry rollout
rollout-IsEntry = omega arith

get_entry-put_entry_example :
    get_entry false (new_decoder ((put_entry rollout false new_encoder).buffer ++ 255 ∷ [])) ≡ (
      ok (delivered rollout false),
      record {
        input = (put_entry rollout false new_encoder).buffer ++ 255 ∷ [];
        offset = length (put_entry rollout false new_encoder).buffer;
      },
    )
get_entry-put_entry_example = get_entry-put_entry rollout false (255 ∷ []) rollout-IsEntry

-- The epoch does not survive the wire.
epoch_lost : (get_time (new_decoder (put_time epoch new_encoder).buffer)).0 ≡ ok zero_time
unfolding get_time put_time put_int64 put_uint64 put_uint32 get_int64 get_uint64 get_uint32 get_raw
    time_of le_bytes of_le to_uint64 of_uint64 ◌>>=◌ pure remaining
epoch_lost = refl

abbrev volume : StatFs
volume = record {
  block_size = 4096;
  io_size = 1048576;
  total_bytes = 1000000;
  available_bytes = 5000;
  free_bytes = 6000;
  used_bytes = 994000;
  total_files = 12;
  free_files = 3;
}

abbrev sixteen : Bytes
sixteen = 1 ∷ 2 ∷ 3 ∷ 4 ∷ 5 ∷ 6 ∷ 7 ∷ 8 ∷ 9 ∷ 10 ∷ 11 ∷ 12 ∷ 13 ∷ 14 ∷ 15 ∷ 16 ∷ []

abbrev daemon : Descriptor
daemon = record { generation = 5; socket_path = b'/' ∷ b's' ∷ []; token = sixteen }

abbrev daemon_bytes : Bytes
daemon_bytes =
    0x43 ∷ 0x46 ∷ 0x53 ∷ 0x52 ∷ 2 ∷ 0 ∷ 0 ∷ 0 ∷ 5 ∷ 0 ∷ 0 ∷ 0 ∷ 0 ∷ 0 ∷ 0 ∷ 0 ∷ 2 ∷ 0 ∷ 0 ∷ 0 ∷ b'/'
    ∷ b's' ∷ 16 ∷ 0 ∷ 0 ∷ 0 ∷ sixteen

daemon_encoded : encode_descriptor daemon ≡ ok daemon_bytes
unfolding encode_descriptor put_descriptor put_raw put_uint16 put_uint64 put_string put_bytes
    put_uint32 le_bytes
daemon_encoded = refl

decode_descriptor-encode_descriptor_example : decode_descriptor daemon_bytes ≡ ok daemon
decode_descriptor-encode_descriptor_example =
    decode_descriptor-encode_descriptor daemon (omega arith) daemon_encoded

encode_descriptor-decode_descriptor_example :
    encode_descriptor daemon ≡ ok (put_descriptor daemon new_encoder).buffer
encode_descriptor-decode_descriptor_example =
    encode_descriptor-decode_descriptor daemon_bytes decode_descriptor-encode_descriptor_example

abbrev ping : Frame
ping = record {
  kind = 1;
  op = 2;
  flags = 0;
  request_id = 300;
  generation = 5;
  status = negsuc 4;
  payload = 8 ∷ 9 ∷ [];
}

-- A writer that takes at most three bytes in a call.
abbrev slow_write : Bytes → Bytes → ℕ × Option Error × Bytes
slow_write s bytes = (min 3 (length bytes), none, s ++ take 3 bytes)

take-min : (n : ℕ) (bytes : Bytes) → take (min n (length bytes)) bytes ≡ take n bytes
take-min zero bytes = let e : min 0 (length bytes) ≡ 0 = omega arith in ap (λ k. take k bytes) e
take-min (suc n) [] = let e : min (suc n) 0 ≡ 0 = omega arith in ap (λ k. take {A = ℕ} k []) e
take-min (suc n) (b ∷ bs) =
    let e : min (suc n) (suc (length bs)) ≡ suc (min n (length bs)) = omega arith in
    ap (λ k. take k (b ∷ bs)) e ∙ ap (◌∷◌ b) (take-min n bs)

abbrev slow : Writer
slow = record {
  State = Bytes;
  write = slow_write;
  written = λ s. s;
  write_at_most = λ s bytes. omega arith;
  write_appends = λ s bytes. ap (λ t. s ++ t) (sym (take-min 3 bytes));
}

ping-IsFrame : IsFrame ping
ping-IsFrame = omega arith

read_frame-header_example :
    read_frame 0 (header_bytes ping 2 ++ (ping.payload ++ 7 ∷ [])) ≡ (ok ping, 7 ∷ [])
read_frame-header_example =
    read_frame-header ping 0 (7 ∷ []) ping-IsFrame (omega arith) (omega arith)

ping_written : (write_frame slow ping 0 []).0 ≡ ok tt
unfolding write_frame write_frame_header write_frame_payload write_all header_bytes le_bytes
    to_uint32 fail ◌>>=◌
ping_written = refl

read_frame-write_frame_example :
    read_frame 0 ((write_frame slow ping 0 []).1 ++ 7 ∷ []) ≡ (ok ping, 7 ∷ [])
read_frame-write_frame_example =
    read_frame-write_frame slow ping 0 [] (7 ∷ []) ping-IsFrame (omega arith) refl ping_written

abbrev ping_stream : Bytes
ping_stream =
    0x43 ∷ 0x46 ∷ 0x53 ∷ 0x50 ∷ 2 ∷ 0 ∷ 1 ∷ 2 ∷ 0 ∷ 0 ∷ 0 ∷ 0 ∷ 44 ∷ 1 ∷ 0 ∷ 0 ∷ 0 ∷ 0 ∷ 0 ∷ 0 ∷ 5
    ∷ 0 ∷ 0 ∷ 0 ∷ 0 ∷ 0 ∷ 0 ∷ 0 ∷ 0xfb ∷ 0xff ∷ 0xff ∷ 0xff ∷ 2 ∷ 0 ∷ 0 ∷ 0 ∷ 0 ∷ 0 ∷ 0 ∷ 0 ∷ 8 ∷ 9
    ∷ []

ping_stream_lem : (read_frame 0 ping_stream).0 ≡ ok ping
unfolding read_frame read_full check_header read_payload bytes_eq of_le of_uint32 lift pure ◌>>=◌
ping_stream_lem = refl

read_frame_bounded_example : length ping.payload ≤ payload_limit 0
read_frame_bounded_example = read_frame_bounded 0 ping_stream ping_stream_lem

slow-Willing : Willing slow
slow-Willing s b bs = (refl, omega arith)

write_all_total_example : (write_all slow 2 (8 ∷ 9 ∷ []) []).0 ≡ ok tt
write_all_total_example = write_all_total slow slow-Willing 2 (8 ∷ 9 ∷ []) [] (omega arith)
