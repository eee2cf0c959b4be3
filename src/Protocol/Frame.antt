-- ===== src/Protocol/Frame.antt =====
-- internal/fskitproto/protocol.go: frames on a stream. A stream is the bytes that are still to
-- come; a writer is a parameter, with what `io.Writer` documents as its contract.
pub mod Stream
pub mod Writing
use codexfold.Prelude.{
  ℕ, zero, suc, ◌+◌, ◌-◌, ◌%◌, ◌≤◌, ◌≡◌, Bool, true, false, not, List, [], ◌∷◌, ◌++◌, ltb, leb,
  ◌==◌, if◌then◌else◌, length, take, drop, get_or, Option, none, some, Outcome, Action, ok, err,
}
use codexfold.Prelude.Int.{ℤ, to_uint32, of_uint32}
use codexfold.Prelude.Bytes.{Bytes, bytes_eq, is_empty}
use codexfold.Protocol.Codec.{
  Error, end_of_stream, short_stream, bad_magic, bad_version, over_limit, short_write, out_of_fuel,
  le_bytes, of_le, ◌>>=◌, ◌>>◌, pure, fail, lift,
}
use codexfold.Protocol.Descriptor.{version}

pub record Frame : Type 0 where
  pub kind : ℕ
  pub op : ℕ
  pub flags : ℕ
  pub request_id : ℕ
  pub generation : ℕ
  pub status : ℤ
  pub payload : Bytes

abbrev pub header_size : ℕ
header_size = 40

-- 32 << 20
abbrev pub default_max_payload : ℕ
default_max_payload = 33554432

-- "CFSP"
abbrev pub frame_magic : Bytes
frame_magic = 0x43 ∷ 0x46 ∷ 0x53 ∷ 0x50 ∷ []

abbrev pub payload_limit : ℕ → ℕ
payload_limit max_payload = if max_payload == 0 then default_max_payload else max_payload

-- `io.ReadFull`: all `n` bytes, or the end of the stream.
unfoldable pub read_full : ℕ → Action Error Bytes Bytes
read_full n stream =
    if leb n (length stream)
    then (ok (take n stream), drop n stream)
    else (err (if is_empty stream then end_of_stream else short_stream), [])

abbrev pub slice : ℕ → ℕ → Bytes → Bytes
slice lo hi bytes = take (hi - lo) (drop lo bytes)

abbrev pub frame_of : Bytes → Bytes → Frame
frame_of header payload = record {
  kind = get_or header 6 0;
  op = get_or header 7 0;
  flags = of_le (slice 8 12 header);
  request_id = of_le (slice 12 20 header);
  generation = of_le (slice 20 28 header);
  status = of_uint32 (of_le (slice 28 32 header));
  payload = payload;
}

-- What `ReadFrame` makes of a header: the length of the payload, or the reason to refuse it.
unfoldable pub check_header : ℕ → Bytes → Outcome Error ℕ
check_header max_payload header =
    let payload_length = of_le (slice 32 36 header) in
    if not (bytes_eq (take 4 header) frame_magic)
    then err bad_magic
    else if not (of_le (slice 4 6 header) == version)
    then err (bad_version (of_le (slice 4 6 header)))
    else if ltb (payload_limit max_payload) payload_length
    then err (over_limit payload_length)
    else ok payload_length

-- The payload behind an accepted header.
unfoldable pub read_payload : Bytes → ℕ → Action Error Bytes Frame
read_payload header n = do payload ← read_full n; pure (frame_of header payload)

unfoldable pub read_frame : ℕ → Action Error Bytes Frame
read_frame max_payload = do
  header ← read_full header_size
  n ← lift (check_header max_payload header)
  read_payload header n

-- The 40 bytes that `WriteFrameHeader` fills in; the last four stay 0.
unfoldable pub header_bytes : Frame → ℕ → Bytes
header_bytes f payload_length =
    frame_magic
    ++ (le_bytes 2 version
        ++ (f.kind
            ∷ f.op
            ∷ (le_bytes 4 f.flags
                ++ (le_bytes 8 f.request_id
                    ++ (le_bytes 8 f.generation
                        ++ (le_bytes 4 (to_uint32 f.status)
                            ++ (le_bytes 4 (payload_length % 4294967296)
                                ++ (0 ∷ 0 ∷ 0 ∷ 0 ∷ []))))))))

-- An `io.Writer`: a call writes some of the bytes, and says how many and whether it failed.
pub record Writer : Type 1 where
  pub State : Type 0
  pub write : State → Bytes → ℕ × Option Error × State
  pub written : State → Bytes
  pub write_at_most : (s : State) (bytes : Bytes) → (write s bytes).0 ≤ length bytes
  pub write_appends :
      (s : State) (bytes : Bytes)
      → written ((write s bytes).2) ≡ written s ++ take ((write s bytes).0) bytes

module _ (w : Writer) where
  open w use {State, write}

  abbrev after_write :
      ℕ → Option Error → State → Outcome Error (Unit {0}) × State → Outcome Error (Unit {0}) × State
  after_write n (some e) s rest = (err e, s)
  after_write n none s rest = if n == 0 then (err short_write, s) else rest

  -- `writeAll`, with a bound on the number of rounds.
  unfoldable pub write_all : ℕ → Bytes → Action Error State (Unit {0})
  write_all fuel [] s = (ok tt, s)
  write_all zero (b ∷ bs) s = (err out_of_fuel, s)
  write_all (suc fuel) (b ∷ bs) s =
      let (n, failure, s') = write s (b ∷ bs) in
      let rest = write_all fuel (drop n (b ∷ bs)) s' in after_write n failure s' rest

  unfoldable pub write_frame_header : Frame → ℕ → ℕ → Action Error State (Unit {0})
  write_frame_header f payload_length max_payload =
      if ltb (payload_limit max_payload) payload_length
      then fail (over_limit payload_length)
      else write_all header_size (header_bytes f payload_length)

  unfoldable pub write_frame_payload : Bytes → Action Error State (Unit {0})
  write_frame_payload payload = write_all (length payload) payload

  unfoldable pub write_frame : Frame → ℕ → Action Error State (Unit {0})
  write_frame f max_payload = do
    write_frame_header f (length f.payload) max_payload
    write_frame_payload f.payload
