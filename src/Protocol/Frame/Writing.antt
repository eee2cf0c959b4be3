-- ===== src/Protocol/Frame/Writing.antt =====
-- `writeAll` and `WriteFrame` over any writer that keeps the contract of `io.Writer`.
use codexfold.Prelude.{
  ℕ, zero, suc, ◌≤◌, ◌<◌, ◌≡◌, ◌≢◌, refl, sym, ap, ◌∙◌, [], ◌∷◌, ◌++◌, length, take, drop, ltb,
  Option, none, some, Outcome, ok, arith, append_assoc, append-nil, length-drop, take-append-drop,
  Bool-cases, inl, inr,
}
use codexfold.Prelude.Bytes.{Bytes}
use codexfold.Protocol.Codec.{Error, ◌>>=◌, fail}
use codexfold.Protocol.Inversion.{bind-eq_ok}
use codexfold.Protocol.Frame.{
  Frame, header_size, payload_limit, read_frame, header_bytes, Writer, after_write, write_all,
  write_frame_header, write_frame_payload, write_frame,
}
use codexfold.Protocol.Frame.Stream.{IsFrame, read_frame-header}

module _ (w : Writer) where
  open w use {State, write, written, write_at_most, write_appends}

  after_write-eq_ok :
      (n : ℕ) (failure : Option Error) (s : State) (rest : Outcome Error (Unit {0}) × State)
      → (after_write w n failure s rest).0 ≡ ok tt
      → (n ≢ 0) × (after_write w n failure s rest ≡ rest)
  after_write-eq_ok n none s rest h = ground arith
  after_write-eq_ok n (some e) s rest h = cc

  write_all-step :
      (fuel b : ℕ) (bs : Bytes) (s : State)
      → write_all w (suc fuel) (b ∷ bs) s
        ≡ after_write w
            ((write s (b ∷ bs)).0)
            ((write s (b ∷ bs)).1)
            ((write s (b ∷ bs)).2)
            (write_all w fuel (drop ((write s (b ∷ bs)).0) (b ∷ bs)) ((write s (b ∷ bs)).2))
  unfolding write_all
  write_all-step fuel b bs s = refl

  write_all-nil : (fuel : ℕ) (s : State) → write_all w fuel [] s ≡ (ok tt, s)
  unfolding write_all
  write_all-nil fuel s = refl

  write_all-no_fuel : (b : ℕ) (bs : Bytes) (s : State) → (write_all w 0 (b ∷ bs) s).0 ≢ ok tt
  unfolding write_all
  write_all-no_fuel b bs s h = cc

  -- One round, then the rest.
  rejoin :
      (n : ℕ) (bytes : Bytes) (s s' s'' : State)
      → written s' ≡ written s ++ take n bytes
      → written s'' ≡ written s' ++ drop n bytes
      → written s'' ≡ written s ++ bytes
  rejoin n bytes s s' s'' p q =
      q
      ∙ ap (λ x. x ++ drop n bytes) p
      ∙ append_assoc (written s) _ _
      ∙ ap (◌++◌ (written s)) (take-append-drop n bytes)

  -- Success means that every byte is on the stream, however the writer split them up.
  pub write_all-ok :
      (fuel : ℕ) (bytes : Bytes) (s : State)
      → (write_all w fuel bytes s).0 ≡ ok tt
      → written ((write_all w fuel bytes s).1) ≡ written s ++ bytes
  write_all-ok fuel [] s h = rw write_all-nil (sym (append-nil (written s)))
  write_all-ok zero (b ∷ bs) s h = absurd (write_all-no_fuel b bs s h)
  write_all-ok (suc fuel) (b ∷ bs) s h =
      let bytes : Bytes = b ∷ bs in
      let n = (write s bytes).0 in
      let s' = (write s bytes).2 in
      let (_, e) = after_write-eq_ok n _ s' _ (rw (write_all-step fuel b bs s) at h) in
      let same = write_all-step fuel b bs s ∙ e in
      rw same (
        rejoin n bytes s s' _ (write_appends s bytes)
          (write_all-ok fuel (drop n bytes) s' (rw same at h)))

  -- A writer that takes at least one byte in each call, and does not fail.
  abbrev pub Willing : Type 0
  Willing =
      (s : State) (b : ℕ) (bs : Bytes) → ((write s (b ∷ bs)).1 ≡ none) × ((write s (b ∷ bs)).0 ≢ 0)

  after_write-willing :
      (n : ℕ) (failure : Option Error) (s : State) (rest : Outcome Error (Unit {0}) × State)
      → failure ≡ none
      → n ≢ 0
      → after_write w n failure s rest ≡ rest
  after_write-willing n failure s rest h k = ground arith

  -- With a writer that takes at least one byte in each call and does not fail, the loop of
  -- `writeAll` succeeds within as many rounds as there are bytes: the bound is never the reason
  -- to stop.
  pub write_all_total :
      Willing
      → (fuel : ℕ) (bytes : Bytes) (s : State) → length bytes ≤ fuel
      → (write_all w fuel bytes s).0 ≡ ok tt
  write_all_total willing fuel [] s h = ap (λ p. p.0) (write_all-nil fuel s)
  write_all_total willing zero (b ∷ bs) s h = absurd (omega arith)
  write_all_total willing (suc fuel) (b ∷ bs) s h =
      let bytes : Bytes = b ∷ bs in
      let n = (write s bytes).0 in
      let s' = (write s bytes).2 in
      let (none_failed, some_taken) = willing s b bs in
      let shorter : length (drop n bytes) ≤ fuel = omega (arith, length-drop n bytes) in
      rw (write_all-step fuel b bs s, after_write-willing n _ s' _ none_failed some_taken)
        (write_all_total willing fuel (drop n bytes) s' shorter)

  write_frame_header-ok :
      (f : Frame) (n max_payload : ℕ) (s : State)
      → (write_frame_header w f n max_payload s).0 ≡ ok tt
      → (n ≤ payload_limit max_payload)
        × (written ((write_frame_header w f n max_payload s).1) ≡ written s ++ header_bytes f n)
  unfolding write_frame_header fail
  write_frame_header-ok f n max_payload s h =
      elim (Bool-cases (ltb (payload_limit max_payload) n)) [
        | inl over ↦ cc (rw over at h)
        | inr fits ↦
            (ground arith, rw fits (write_all-ok header_size (header_bytes f n) s (rw fits at h)))
      ]

  -- Where `WriteFrame` returns no error, header and payload are on the stream, in this order,
  -- and the payload is within the limit.
  pub write_frame-ok :
      (f : Frame) (max_payload : ℕ) (s : State)
      → (write_frame w f max_payload s).0 ≡ ok tt
      → (length f.payload ≤ payload_limit max_payload)
        × (written ((write_frame w f max_payload s).1)
            ≡ written s ++ (header_bytes f (length f.payload) ++ f.payload))
  unfolding write_frame write_frame_payload ◌>>=◌
  write_frame-ok f max_payload s h =
      let n = length f.payload in
      let (_, s', e, k) =
        bind-eq_ok (write_frame_header w f n max_payload) (λ _. write_frame_payload w f.payload) s
          h in
      let (fits, header) = write_frame_header-ok f n max_payload s (ap (λ p. p.0) e) in
      let header' : written s' ≡ written s ++ header_bytes f n = rw e at header in
      (
        fits,
        rw e (
            write_all-ok n f.payload s' k
            ∙ ap (λ x. x ++ f.payload) header'
            ∙ append_assoc (written s) (header_bytes f n) f.payload),
      )

-- A frame whose fields are in range, and which `WriteFrame` puts on an empty stream without an
-- error under a 32-bit limit, is the frame that `ReadFrame` takes off it under the same limit,
-- whatever follows and however the writer split the bytes up.
pub read_frame-write_frame :
    (w : Writer) (f : Frame) (max_payload : ℕ) (s : w.State) (rest : Bytes)
    → IsFrame f
    → max_payload < 4294967296
    → w.written s ≡ []
    → (write_frame w f max_payload s).0 ≡ ok tt
    → read_frame max_payload (w.written ((write_frame w f max_payload s).1) ++ rest) ≡ (ok f, rest)
read_frame-write_frame w f max_payload s rest h small fresh done =
    let (fits, bytes) = write_frame-ok w f max_payload s done in
    let header = header_bytes f (length f.payload) in
    rw (bytes, fresh, append_assoc header f.payload rest)
      (read_frame-header f max_payload rest h (ground arith) fits)
