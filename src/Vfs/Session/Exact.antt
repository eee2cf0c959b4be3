-- ===== src/Vfs/Session/Exact.antt =====
-- What the readers of a session read where the host is well.
use codexfold.Prelude.{
  ℕ, zero, suc, ◌+◌, ◌-◌, ◌≤◌, ◌≡◌, refl, sym, ap, ◌∙◌, true, false, not, ◌&&◌, [], ◌∷◌, ◌++◌,
  Option, none, ltb, leb, ◌==◌, length, take, drop, min, arith, length-take, length-drop,
  length-append, Bool-cases, inl, inr, take-nil, drop-all, append-nil,
}
use codexfold.Prelude.Bytes.{Bytes}
use codexfold.Prelude.Int.{pos}
use codexfold.Vfs.View.{Fault}
use codexfold.Vfs.Slices.{take-append_min, drop-append_le}
use codexfold.Vfs.Prefixes.{drop-append_ge, take-drop-take}
use codexfold.Vfs.Session.State.{Host, Files, bytes_at, context}
use codexfold.Vfs.Session.Readers.{
  ReadHandle, read_file, read_own, broken_off, is_tolerable, filled, take_part, read_backing,
  read_delta, read_base, read_handle,
}
use codexfold.Vfs.Session.Reads.{IsReadable, handle_bytes, read_delta_full}

take-bounded : (n k : ℕ) (xs : Bytes) → length xs ≤ k → take (min n k) xs ≡ take n xs
take-bounded n k [] h = take-nil _ ∙ sym (take-nil n)
take-bounded zero k (x ∷ xs) h = let e : min 0 k ≡ 0 = omega arith in ap (λ n. take n (x ∷ xs)) e
take-bounded (suc n) zero (x ∷ xs) h = absurd (omega arith)
take-bounded (suc n) (suc k) (x ∷ xs) h =
    let e : min (suc n) (suc k) ≡ suc (min n k) = omega arith in
    rw e (ap (◌∷◌ x) (take-bounded n k xs (omega arith)))

-- A stretch that is bounded by what is there.
bounded_stretch :
    (n need i m : ℕ) (xs : Bytes)
    → m ≤ length xs
    → need ≡ min n (m - i)
    → i ≤ m
    → take need (drop i xs) ≡ take n (drop i (take m xs))
bounded_stretch n need i m xs there need_is within =
    let e : length (drop i (take m xs)) ≡ m - i =
      omega (arith, length-drop i (take m xs), length-take m xs) in
    rw need_is (
      sym (take-drop-take m i (min n (m - i)) xs (omega arith))
      ∙ take-bounded n (m - i) (drop i (take m xs)) (omega (arith, e)))

-- The host breaks no read off, and the context is not cancelled.
pub record IsWell (host : Host) : Type 0 where
  pub reads_on : (offset : ℕ) → host.reads offset ≡ none
  pub goes_on : (offset : ℕ) → host.fails (context offset) ≡ false

read_file-filled :
    (host : Host) (bytes : Bytes) (need offset : ℕ)
    → host.reads offset ≡ none
    → read_file host bytes need offset ≡ filled need (take need (drop offset bytes))
unfolding read_file broken_off
read_file-filled host bytes need offset h = rw h refl

read_own-filled :
    (host : Host) (files : Files) (h : ReadHandle) (need offset : ℕ)
    → h.closed ≡ false
    → host.reads offset ≡ none
    → read_own host files h need offset
      ≡ filled need (take need (drop offset (bytes_at files h.path)))
unfolding read_own
read_own-filled host files h need offset still reads_on =
    rw still (read_file-filled host (bytes_at files h.path) need offset reads_on)

filled-is_tolerable : (need : ℕ) (out : Bytes) → is_tolerable ((filled need out).1) ≡ true
filled-is_tolerable need out = ground arith

take_part_all :
    (out found : Bytes) (need : ℕ) (go_on : Bytes → Bytes × Option Fault)
    → length found ≡ need
    → take_part out need go_on (filled need found) ≡ go_on (out ++ found)
unfolding take_part
take_part_all out found need go_on h =
    let e : (length found == need) ≡ true = ground arith in
    let f : ltb (length found) need ≡ false = ground arith in rw (e, f) refl

module _ (host : Host) (base : Bytes) (files : Files) (h : ReadHandle)
    (readable : IsReadable host base files h) (well : IsWell host) (delta_only : h.backing ≡ false)
    (wanted : ℕ) where
  abbrev delta : Bytes
  delta = take h.delta_bytes (bytes_at files h.path)

  length-delta : length delta ≡ h.delta_bytes
  length-delta =
      omega (arith, readable.there delta_only, length-take h.delta_bytes (bytes_at files h.path))

  read_delta-exact :
      (offset : ℕ) (out : Bytes)
      → h.base_bytes ≤ offset
      → length out ≤ wanted
      → read_delta host files h wanted offset out
        ≡ filled wanted (out ++ take (wanted - length out) (drop (offset - h.base_bytes) delta))
  unfolding read_delta
  read_delta-exact offset out above room =
      let inside = offset - h.base_bytes in
      let need = min (wanted - length out) (h.delta_bytes - inside) in
      let bytes = bytes_at files h.path in
      elim (Bool-cases (ltb (length out) wanted && leb h.base_bytes offset && ltb offset h.size)) [
        | inl more ↦
            let within : inside ≤ h.delta_bytes = ground (arith, readable.whole delta_only) in
            let there = readable.there delta_only in
            let full : length (take need (drop inside bytes)) ≡ need =
              omega (arith, length-take need (drop inside bytes), length-drop inside bytes) in
            rw
              (
                more,
                read_own-filled host files h need inside readable.unclosed (well.reads_on inside),
              )
              (take_part_all out _ need (filled wanted) full
                ∙ ap (λ b. filled wanted (out ++ b))
                    (bounded_stretch (wanted - length out) need inside h.delta_bytes bytes there
                      refl within))
        | inr done ↦
            let nothing : take (wanted - length out) (drop inside delta) ≡ [] =
              elim (Bool-cases (ltb (length out) wanted)) [
                | inl wants ↦
                    ap (take (wanted - length out)) (
                      drop-all inside delta
                        (ground (arith, length-delta, readable.whole delta_only)))
                    ∙ take-nil _
                | inr full ↦
                    let e : wanted - length out ≡ 0 = ground arith in
                    ap (λ n. take n (drop inside delta)) e
              ] in
            rw (done, nothing, append-nil out) refl
      ]

  after_base :
      (offset need : ℕ)
      → need ≡ min wanted (h.base_bytes - offset)
      → offset ≤ h.base_bytes
      → read_delta host files h wanted (offset + need) (take need (drop offset base))
        ≡ filled wanted (take wanted (drop offset base ++ delta))
  after_base offset need need_is within =
      let found = take need (drop offset base) in
      let size : length (drop offset base) ≡ h.base_bytes - offset =
        omega (arith, length-drop offset base, readable.base_size) in
      let split = take-append_min wanted (drop offset base) delta in
      let full : length found ≡ need = omega (arith, length-take need (drop offset base)) in
      let need_min : min wanted (length (drop offset base)) ≡ need = omega arith in
      elim (Bool-cases (leb (h.base_bytes - offset) wanted)) [
        | inl all ↦
            let end : (offset + need) - h.base_bytes ≡ 0 = ground arith in
            read_delta-exact (offset + need) found (ground arith) (omega arith)
            ∙ ap (filled wanted) (rw (split, need_min, full, end) refl)
        | inr not_all ↦
            let left : wanted - need ≡ 0 = ground arith in
            read_delta_full host base files h readable delta_only wanted (offset + need) found
              (ground arith)
            ∙ ap (filled wanted) (rw (split, need_min, left, append-nil found) refl)
      ]

  read_base-exact :
      (offset : ℕ)
      → read_base host files h wanted offset
        ≡ filled wanted (take wanted (drop offset (base ++ delta)))
  unfolding read_base
  read_base-exact offset =
      let need = min wanted (h.base_bytes - offset) in
      let size = readable.base_size in
      elim (Bool-cases (ltb offset h.base_bytes)) [
        | inl within ↦
            let full : length (take need (drop offset base)) ≡ need =
              ground (arith, length-take need (drop offset base), length-drop offset base) in
            rw (within, readable.based need offset, drop-append_le offset base delta (ground arith))
              (take_part_all [] _ need _ full ∙ after_base offset need refl (ground arith))
        | inr past ↦
            let e = drop-append_ge offset base delta (ground arith) in
            let f : drop (offset - length base) delta ≡ drop (offset - h.base_bytes) delta =
              ap (λ n. drop (offset - n) delta) size in
            let g : wanted - 0 ≡ wanted = omega arith in
            rw (past, e, f)
              (read_delta-exact offset [] (ground arith) (omega arith)
                ∙ ap (λ n. filled wanted (take n (drop (offset - h.base_bytes) delta))) g)
      ]

  read_based-exact :
      (offset : ℕ)
      → read_handle host files h wanted (pos offset)
        ≡ filled wanted (take wanted (drop offset (base ++ delta)))
  unfolding read_handle
  read_based-exact offset = elim (Bool-cases (wanted == 0)) [
    | inl nothing ↦ let e : wanted ≡ 0 = ground arith in rw (nothing, e) refl
    | inr wants ↦ elim (Bool-cases (leb h.size offset)) [
      | inl past ↦
          let gone : drop offset (base ++ delta) ≡ [] = drop-all offset (base ++ delta) (
            ground (
              arith,
              length-append base delta,
              length-delta,
              readable.base_size,
              readable.whole delta_only,
            )) in
          let short : ltb 0 wanted ≡ true = ground arith in
          rw (wants, well.goes_on offset, past, gone, take-nil wanted, short) refl
      | inr within ↦
          rw (wants, well.goes_on offset, within) (simp delta_only (read_base-exact offset))
    ]
  ]

-- A stretch of a file that is cut off at `size`.
within_file :
    (n size offset : ℕ) (xs : Bytes)
    → offset ≤ size
    → take (min n (size - offset)) (drop offset xs) ≡ take n (drop offset (take size xs))
within_file n size offset xs within =
    sym (take-drop-take size offset (min n (size - offset)) xs (omega arith))
    ∙ take-bounded n (size - offset) (drop offset (take size xs))
        (omega (arith, length-drop offset (take size xs), length-take size xs))

read_backing-exact :
    (host : Host) (files : Files) (h : ReadHandle) (wanted offset : ℕ)
    → IsWell host
    → h.closed ≡ false
    → offset ≤ h.size
    → read_backing host files h wanted offset
      ≡ filled wanted (take wanted (drop offset (take h.size (bytes_at files h.path))))
unfolding read_backing
read_backing-exact host files h wanted offset well still within =
    let need = min wanted (h.size - offset) in
    let bytes = bytes_at files h.path in
    let found = take need (drop offset bytes) in
    let r = read_own-filled host files h need offset still (well.reads_on offset) in
    let fine : not (is_tolerable ((filled need found).1)) ≡ false =
      ap not (filled-is_tolerable need found) in
    rw (r, fine) (ap (filled wanted) (within_file wanted h.size offset bytes within))

pub read_backed-exact :
    (host : Host) (files : Files) (h : ReadHandle) (wanted offset : ℕ)
    → IsWell host
    → h.closed ≡ false
    → h.backing ≡ true
    → read_handle host files h wanted (pos offset)
      ≡ filled wanted (take wanted (drop offset (take h.size (bytes_at files h.path))))
unfolding read_handle
read_backed-exact host files h wanted offset well still backed =
    let kept = take h.size (bytes_at files h.path) in
    elim (Bool-cases (wanted == 0)) [
      | inl nothing ↦ let e : wanted ≡ 0 = ground arith in rw (nothing, e) refl
      | inr wants ↦ elim (Bool-cases (leb h.size offset)) [
        | inl past ↦
            let gone : drop offset kept ≡ [] =
              drop-all offset kept (ground (arith, length-take h.size (bytes_at files h.path))) in
            let short : ltb 0 wanted ≡ true = ground arith in
            rw (wants, well.goes_on offset, past, gone, take-nil wanted, short) refl
        | inr within ↦
            rw (wants, well.goes_on offset, within)
              (simp backed
                (read_backing-exact host files h wanted offset well still (ground arith)))
      ]
    ]

-- `ReadAt` of an open handle at an offset that is not negative puts what the files of the handle
-- hold at the time of the read, from the offset on, into the destination, and reports the end of the
-- file exactly where that is too little. It is the base and the delta as one file, or the backing
-- file, the delta and the backing file up to the size that the handle has for them: of a backing
-- file that was overwritten since it was opened, the new bytes. The base serves its file, the sizes
-- of the handle add up, the delta is not shorter than the handle has it, and the host breaks no read
-- off and does not cancel.
pub read_handle-exact :
    (host : Host) (base : Bytes) (files : Files) (h : ReadHandle) (wanted offset : ℕ)
    → IsReadable host base files h
    → IsWell host
    → read_handle host files h wanted (pos offset)
      ≡ filled wanted (take wanted (drop offset (handle_bytes base files h)))
unfolding handle_bytes
read_handle-exact host base files h wanted offset readable well = elim (Bool-cases h.backing) [
  | inl backed ↦
      simp backed (read_backed-exact host files h wanted offset well readable.unclosed backed)
  | inr based ↦ simp based (read_based-exact host base files h readable well based wanted offset)
]
