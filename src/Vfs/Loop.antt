-- ===== src/Vfs/Loop.antt =====
-- The loops of `ReadAt`, up to their end.
use codexfold.Prelude.{
  take-nil, ℕ, ◌+◌, ◌-◌, ◌≤◌, ◌<◌, ◌≡◌, refl, sym, ap, ◌∙◌, ◌⊎◌, Bool, false, ◌&&◌, List, [], ◌∷◌,
  ◌++◌, Option, ltb, length, take, drop, arith, append_assoc, append-nil, length-append,
  length-take, length-drop, drop-nil, Bool-cases, inl, inr,
}
use codexfold.Prelude.Bytes.{Bytes}
use codexfold.Fold.Manifest.{ObjectRef}
use codexfold.Vfs.View.{
  raw, Extent, Answer, Checkpoint, Source, finished, need_of, out_of_parts, read_parts,
}
use codexfold.Vfs.Slices.{take-drop-append}
use codexfold.Vfs.Chain.{
  Store, content, Serves, NeverCancelled, bytes_of, Chain, Chain-le, Chain-InFirst, InFirst, Ready,
}
use codexfold.Vfs.Rounds.{visit-Advanced, visit-full}

module _ (read_object : ObjectRef → ℕ → ℕ → Answer) (is_cancelled : Checkpoint → ℕ → Bool)
    (size wanted : ℕ) where
  module _ (store : Store) (serves : Serves store read_object)
      (never : NeverCancelled is_cancelled) where
    abbrev pub wanted_from : Bytes → List Extent → ℕ → ℕ → Bytes
    wanted_from out xs start offset =
        out ++ take (wanted - length out) (drop (offset - start) (bytes_of store xs))

    full-wanted_from :
        (out : Bytes) (xs : List Extent) (start offset : ℕ)
        → length out ≡ wanted
        → wanted_from out xs start offset ≡ out
    full-wanted_from out xs start offset full =
        let e : wanted - length out ≡ 0 = omega arith in rw e (append-nil out)

    piece-length :
        (x : Extent) (out : Bytes) (inside : ℕ)
        → inside ≤ raw x.part
        → length (content store x.part.object) ≡ raw x.part
        → (let need = need_of read_object is_cancelled size wanted x out inside in
            length (out ++ take need (drop inside (content store x.part.object)))
            ≡ length out + need)
    piece-length x out inside within has =
        let need = need_of read_object is_cancelled size wanted x out inside in
        let rest = drop inside (content store x.part.object) in
        omega (
          arith,
          length-append out (take need rest),
          length-take need rest,
          length-drop inside (content store x.part.object),
          has,
        )

    take-drop_stop :
        (k d : ℕ) (bytes : Bytes) → (k ≡ 0) ⊎ (d ≡ 0) → take k (drop d bytes) ≡ take k bytes
    take-drop_stop k d bytes (inl h) = rw h refl
    take-drop_stop k d bytes (inr h) = rw h refl

    nil-wanted_from : (out : Bytes) (start offset : ℕ) → wanted_from out [] start offset ≡ out
    nil-wanted_from out start offset =
        ap (λ z. out ++ take (wanted - length out) z) (drop-nil (offset - start))
        ∙ ap (λ z. out ++ z) (take-nil (wanted - length out))
        ∙ append-nil out

    -- After one part the same bytes are wanted as before it.
    step-wanted_from :
        (x : Extent) (xs : List Extent) (out : Bytes) (offset : ℕ)
        → x.start ≤ offset
        → offset < x.stop
        → x.stop ≡ x.start + raw x.part
        → length (content store x.part.object) ≡ raw x.part
        → length out < wanted
        → (let inside = offset - x.start in
            let need = need_of read_object is_cancelled size wanted x out inside in
            wanted_from
              (out ++ take need (drop inside (content store x.part.object)))
              xs
              x.stop
              (offset + need)
            ≡ wanted_from out (x ∷ xs) x.start offset)
    step-wanted_from x xs out offset above below to has room =
        let inside = offset - x.start in
        let need = need_of read_object is_cancelled size wanted x out inside in
        let bytes = content store x.part.object in
        let piece = take need (drop inside bytes) in
        let m = wanted - length out in
        let filled : length (out ++ piece) ≡ length out + need =
          piece-length x out inside (omega arith) has in
        let left : wanted - length (out ++ piece) ≡ m - need = omega (arith, filled) in
        let whole : take m (drop inside (bytes ++ bytes_of store xs))
            ≡ piece ++ take (m - need) (bytes_of store xs) =
          rw has at (take-drop-append m inside bytes (bytes_of store xs) (omega arith)) in
        append_assoc out piece _
        ∙ ap (λ z. out ++ (piece ++ z))
            (ap (λ k. take k (drop (offset + need - x.stop) (bytes_of store xs))) left
              ∙ take-drop_stop (m - need) (offset + need - x.stop) (bytes_of store xs)
                  (ground arith))
        ∙ ap (◌++◌ out) (sym whole)

    no_room :
        (start : ℕ) {source : Option Source} (out : Bytes) (offset : ℕ)
        → start ≡ size
        → Ready store wanted start source [] out offset
        → (ltb (length out) wanted && ltb offset size) ≡ false
    no_room start out offset c r = ground (arith, r.placed)

    still_placed :
        {start : ℕ} {source : Option Source} {xs : List Extent} {out : Bytes} {offset : ℕ}
        → Ready store wanted start source xs out offset
        → length out < wanted
        → (start ≤ offset) × InFirst xs offset
    still_placed r room = elim r.placed [ inl full ↦ absurd (omega arith) | inr p ↦ p ]

    next_placed :
        (x : Extent) (xs : List Extent) (out : Bytes) (offset : ℕ)
        → x.start ≤ offset
        → offset < x.stop
        → x.stop ≡ x.start + raw x.part
        → offset - x.start ≤ raw x.part
        → length (content store x.part.object) ≡ raw x.part
        → Chain store x.stop xs size
        → length out ≤ wanted
        → (let inside = offset - x.start in
            let need = need_of read_object is_cancelled size wanted x out inside in
            (length (out ++ take need (drop inside (content store x.part.object))) ≡ wanted)
            ⊎ ((x.stop ≤ offset + need) × InFirst xs (offset + need)))
    next_placed x xs out offset above below to within has rest room =
        let inside = offset - x.start in
        let need = need_of read_object is_cancelled size wanted x out inside in
        let filled = piece-length x out inside within has in
        elim (Bool-cases (ltb (length out + need) wanted)) [
          | inl more ↦
              let at_stop : offset + need ≡ x.stop = ground arith in
              inr (omega arith, Chain-InFirst store x.stop xs size (offset + need) rest at_stop)
          | inr full ↦ inl (ground (arith, filled))
        ]

    pub read_parts-exact :
        (xs : List Extent) (source : Option Source) (start : ℕ) (out : Bytes) (offset : ℕ)
        → Chain store start xs size
        → Ready store wanted start source xs out offset
        → read_parts read_object is_cancelled size wanted source xs out offset
          ≡ finished read_object is_cancelled size wanted (wanted_from out xs start offset)
    unfolding read_parts finished out_of_parts
    read_parts-exact [] source start out offset c r =
        let shut : (ltb (length out) wanted && ltb offset size) ≡ false =
          no_room start out offset c r in
        rw (read_parts, out_of_parts, shut, nil-wanted_from out start offset) refl
    read_parts-exact (x ∷ xs) source start out offset (from, to, some_bytes, has, rest) r =
        elim (Bool-cases (ltb (length out) wanted)) [
          | inr full ↦
              let full' : length out ≡ wanted = ground (arith, r.filled) in
              rw
                (
                  read_parts,
                  visit-full read_object is_cancelled size wanted store serves never source x out
                      offset full',
                  full-wanted_from out (x ∷ xs) start offset full',
                )
                refl
          | inl room ↦
              let (above, below) = still_placed r (ground arith) in
              let a =
                visit-Advanced read_object is_cancelled size wanted store serves never source start
                  x out offset from to has (ground arith)
                  (omega (arith, Chain-le store x.stop xs size rest)) above below r.fits in
              let inside = offset - x.start in
              let need = need_of read_object is_cancelled size wanted x out inside in
              let filled = piece-length x out inside (omega arith) has in
              let next_ready : Ready store wanted x.stop a.next xs
                  (out ++ take need (drop inside (content store x.part.object))) (offset + need) =
                record {
                  filled = omega (arith, filled);
                  placed =
                      next_placed x xs out offset (omega arith) (omega arith) (omega arith)
                        (omega arith) has rest r.filled;
                  fits = rw filled a.next_fits;
                } in
              rw (read_parts, a.visit_is)
                (read_parts-exact xs a.next x.stop _ (offset + need) rest next_ready
                  ∙ ap (finished read_object is_cancelled size wanted) (
                      step-wanted_from x xs out offset (omega arith) below (omega arith) has
                        (ground arith)
                      ∙ ap (λ n. wanted_from out (x ∷ xs) n offset) from))
        ]
