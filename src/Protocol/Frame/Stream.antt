-- ===== src/Protocol/Frame/Stream.antt =====
-- `ReadFrame` on a stream that begins with a written frame.
use codexfold.Prelude.{
  ℕ, ◌%◌, ◌≤◌, ◌<◌, ◌≡◌, refl, ap, ◌∙◌, true, false, ◌++◌, length, take, get_or, ltb, ok, arith,
  take-append, drop-append, length-append, length-take,
}
use codexfold.Prelude.Int.{IsInt32, to_uint32, to_uint32-lt, of_uint32-to_uint32}
use codexfold.Prelude.Bytes.{Bytes, bytes_eq}
use codexfold.Protocol.Codec.{le_bytes, of_le, ◌>>=◌, pure, lift}
use codexfold.Protocol.Inversion.{bind-eq_ok}
use codexfold.Protocol.Wire.{of_le-le_bytes}
use codexfold.Protocol.Descriptor.{version}
use codexfold.Protocol.Frame.{
  Frame, header_size, frame_of, check_header, frame_magic, payload_limit, read_full, slice,
  read_payload, read_frame, header_bytes,
}

read_full-append :
    (n : ℕ) (front rest : Bytes) → length front ≡ n → read_full n (front ++ rest) ≡ (ok front, rest)
unfolding read_full
read_full-append n front rest h =
    ground (arith, length-append front rest, take-append front rest, drop-append front rest)

length-header_bytes : (f : Frame) (n : ℕ) → length (header_bytes f n) ≡ header_size
unfolding header_bytes le_bytes
length-header_bytes f n = refl

pub record IsFrame (f : Frame) : Type 0 where
  pub flags_fit : f.flags < 4294967296
  pub request_id_fits : f.request_id < 18446744073709551616
  pub generation_fits : f.generation < 18446744073709551616
  pub status_fits : IsInt32 f.status

module _ (f : Frame) (n : ℕ) where
  magic_field : bytes_eq (take 4 (header_bytes f n)) frame_magic ≡ true
  unfolding header_bytes bytes_eq
  magic_field = refl

  version_field : of_le (slice 4 6 (header_bytes f n)) ≡ version
  unfolding header_bytes le_bytes of_le
  version_field = refl

  kind_field : get_or (header_bytes f n) 6 0 ≡ f.kind
  unfolding header_bytes le_bytes
  kind_field = refl

  op_field : get_or (header_bytes f n) 7 0 ≡ f.op
  unfolding header_bytes le_bytes
  op_field = refl

  flags_field : f.flags < 4294967296 → of_le (slice 8 12 (header_bytes f n)) ≡ f.flags
  unfolding header_bytes le_bytes
  flags_field h = of_le-le_bytes 4 f.flags h

  request_id_field :
      f.request_id < 18446744073709551616 → of_le (slice 12 20 (header_bytes f n)) ≡ f.request_id
  unfolding header_bytes le_bytes
  request_id_field h = of_le-le_bytes 8 f.request_id h

  generation_field :
      f.generation < 18446744073709551616 → of_le (slice 20 28 (header_bytes f n)) ≡ f.generation
  unfolding header_bytes le_bytes
  generation_field h = of_le-le_bytes 8 f.generation h

  status_field : of_le (slice 28 32 (header_bytes f n)) ≡ to_uint32 f.status
  unfolding header_bytes le_bytes
  status_field = of_le-le_bytes 4 (to_uint32 f.status) (to_uint32-lt f.status)

  length_field : n < 4294967296 → of_le (slice 32 36 (header_bytes f n)) ≡ n
  unfolding header_bytes le_bytes
  length_field h =
      let fits : n % 4294967296 ≡ n = omega arith in
      of_le-le_bytes 4 (n % 4294967296) (omega arith) ∙ fits

check_header-header :
    (f : Frame) (n max_payload : ℕ)
    → n < 4294967296
    → n ≤ payload_limit max_payload
    → check_header max_payload (header_bytes f n) ≡ ok n
unfolding check_header
check_header-header f n max_payload small allowed =
    let fits : ltb (payload_limit max_payload) n ≡ false = ground arith in
    rw (magic_field f n, version_field f n, length_field f n small, fits) refl

frame_of-header :
    (f : Frame) → IsFrame f → frame_of (header_bytes f (length f.payload)) f.payload ≡ f
frame_of-header f h =
    let n = length f.payload in
    rw
      (
        kind_field f n,
        op_field f n,
        flags_field f n h.flags_fit,
        request_id_field f n h.request_id_fits,
        generation_field f n h.generation_fits,
        status_field f n,
        of_uint32-to_uint32 f.status h.status_fits,
      )
      refl

-- `ReadFrame` takes a written frame, whose fields are in range and whose payload is within a
-- 32-bit limit, off the stream, whole, and leaves what follows it.
pub read_frame-header :
    (f : Frame) (max_payload : ℕ) (rest : Bytes)
    → IsFrame f
    → length f.payload < 4294967296
    → length f.payload ≤ payload_limit max_payload
    → read_frame max_payload (header_bytes f (length f.payload) ++ (f.payload ++ rest))
      ≡ (ok f, rest)
unfolding read_frame read_payload ◌>>=◌ lift pure
read_frame-header f max_payload rest h small allowed =
    let n = length f.payload in
    let header = header_bytes f n in
    rw
      (
        read_full-append header_size header (f.payload ++ rest) (length-header_bytes f n),
        check_header-header f n max_payload small allowed,
        read_full-append n f.payload rest refl,
        frame_of-header f h,
      )
      refl

length-read_full :
    (n : ℕ) (stream : Bytes) {bytes : Bytes} → (read_full n stream).0 ≡ ok bytes → length bytes ≡ n
unfolding read_full
length-read_full n stream h = ground (arith, length-take n stream)

check_header_bounded :
    (max_payload : ℕ) (header : Bytes) {n : ℕ}
    → check_header max_payload header ≡ ok n
    → n ≤ payload_limit max_payload
unfolding check_header
check_header_bounded max_payload header h = ground arith

length-read_payload :
    (header : Bytes) (n : ℕ) (stream : Bytes) {f : Frame}
    → (read_payload header n stream).0 ≡ ok f
    → length f.payload ≡ n
unfolding read_payload
length-read_payload header n stream h =
    let (payload, s, e, k) = bind-eq_ok (read_full n) (λ x. pure (frame_of header x)) stream h in
    unfold pure in ground (arith, length-read_full n stream (ap (λ p. p.0) e), k)

-- Whatever the stream holds, a frame that `ReadFrame` accepts is within the limit.
pub read_frame_bounded :
    (max_payload : ℕ) (stream : Bytes) {f : Frame}
    → (read_frame max_payload stream).0 ≡ ok f
    → length f.payload ≤ payload_limit max_payload
unfolding read_frame
read_frame_bounded max_payload stream h =
    let check = λ (x : Bytes). lift {S = Bytes} (check_header max_payload x) in
    let (header, s, _, k) =
      bind-eq_ok (read_full header_size) (λ x. check x >>= λ n. read_payload x n) stream h in
    let (n, s', e, l) = bind-eq_ok (check header) (read_payload header) s k in
    let accepted : check_header max_payload header ≡ ok n = unfold lift in ap (λ p. p.0) e in
    omega
      (arith, length-read_payload header n s' l, check_header_bounded max_payload header accepted)
