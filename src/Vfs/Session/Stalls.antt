-- ===== src/Vfs/Session/Stalls.antt =====
-- Where MaterializeCurrent of internal/vfs/session.go never returns.
use codexfold.Prelude.{
  ℕ, zero, suc, ◌-◌, ◌≤◌, ◌<◌, ◌≡◌, refl, true, false, not, ◌&&◌, [], ◌++◌, err, ltb, length, drop,
  take, min, arith, length-append, length-take, length-drop, Bool-cases, inl, inr,
}
use codexfold.Prelude.Bytes.{Bytes}
use codexfold.Vfs.Session.State.{Host, Files, bytes_at, out_of_fuel, write_temporary}
use codexfold.Vfs.Session.Readers.{ReadHandle, filled}
use codexfold.Vfs.Session.Copying.{grown, copy_buffer_size}
use codexfold.Vfs.Session.Materializing.{heed, after_chunk, materialize_round, materialize_loop}
use codexfold.Vfs.Session.Exact.{IsWell, read_backed-exact}

-- A reader of a backing file that is shorter by now, on a host that is well.
module _ (host : Host) (files : Files) (h : ReadHandle) (well : IsWell host)
    (writes_on : (n : ℕ) → host.fails (write_temporary n) ≡ false) (unclosed : h.closed ≡ false)
    (backed : h.backing ≡ true) (short : length (bytes_at files h.path) < h.size) where
  abbrev kept : Bytes
  kept = take h.size (bytes_at files h.path)

  heed-filled :
      (out found : Bytes) (need : ℕ) → heed out found ((filled need found).1) ≡ grown (out ++ found)
  unfolding heed
  heed-filled out found need = elim (Bool-cases (ltb (length found) need)) [
    | inl less ↦ rw less refl
    | inr full ↦ rw full refl
  ]

  chunk_grows :
      (out found : Bytes) (need : ℕ)
      → after_chunk host out (filled need found) ≡ grown (out ++ found)
  unfolding after_chunk
  chunk_grows out found need =
      let fine : ltb 0 (length found) && host.fails (write_temporary (length out)) ≡ false =
        ground (arith, writes_on (length out)) in
      rw fine (heed-filled out found need)

  round_grows :
      (out : Bytes)
      → length out ≤ length kept
      → (o : Bytes) × (materialize_round host files h out ≡ grown o) × (length o ≤ length kept)
  unfolding materialize_round
  round_grows out sofar =
      let need = min copy_buffer_size (h.size - length out) in
      let found = take need (drop (length out) kept) in
      let size : length kept < h.size = omega (arith, length-take h.size (bytes_at files h.path)) in
      let below : not (ltb (length out) h.size) ≡ false = ground arith in
      (
        out ++ found,
        rw
            (
              below,
              well.goes_on (length out),
              read_backed-exact host files h need (length out) well unclosed backed,
            )
            (chunk_grows out found need),
        omega (
          arith,
          length-append out found,
          length-take need (drop (length out) kept),
          length-drop (length out) kept,
        ),
      )

  stalls_from :
      (fuel : ℕ) (out : Bytes)
      → length out ≤ length kept
      → materialize_loop host files h fuel out ≡ err out_of_fuel
  unfolding materialize_loop
  stalls_from zero out sofar = refl
  stalls_from (suc fuel) out sofar =
      let (o, grows, still) = round_grows out sofar in
      rw (grows, materialize_loop) (stalls_from fuel o still)

  -- Where the backing file of an open reader has become shorter than it was, on a host that breaks
  -- no read off, does not cancel and writes the temporary file without error, the loop of
  -- MaterializeCurrent never ends: no number of rounds is enough.
  pub materialize_loop-stalls : (fuel : ℕ) → materialize_loop host files h fuel [] ≡ err out_of_fuel
  materialize_loop-stalls fuel = stalls_from fuel [] (omega arith)
