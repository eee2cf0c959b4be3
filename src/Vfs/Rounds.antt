-- ===== src/Vfs/Rounds.antt =====
-- One round of the loops of `ReadAt`.
use codexfold.Prelude.{
  take-all, ℕ, ◌+◌, ◌-◌, ◌≤◌, ◌<◌, ◌≡◌, refl, ap, ◌∙◌, ◌⊎◌, Bool, true, false, ◌&&◌, ◌++◌, Option,
  none, some, ltb, ◌==◌, length, take, drop, if◌then◌else◌, arith, Bool-cases, inl, inr,
}
use codexfold.Prelude.Int.{ℤ, pos, ltb_ℤ}
use codexfold.Prelude.Bytes.{Bytes}
use codexfold.Fold.Manifest.{ObjectRef}
use codexfold.Vfs.View.{
  Fault, end_of_file, raw, Extent, same_object_bytes, Answer, Checkpoint, reading, copying, Source,
  onward, finished, stop_with, take_answer, need_of, read_part, visit,
}
use codexfold.Vfs.Chain.{Store, content, Serves, NeverCancelled, Fits, same_object-content}

module _ (read_object : ObjectRef → ℕ → ℕ → Answer) (is_cancelled : Checkpoint → ℕ → Bool)
    (size wanted : ℕ) where
  -- What the loops carry on with after a part that was read.
  abbrev pub read_source : Extent → ℕ → ℕ → Bytes → Option Source
  read_source x inside need bytes =
      if inside == 0 && need == raw x.part
      then some (record { object = x.part.object; bytes = bytes })
      else none

  take_answer-exact :
      (x : Extent) (out : Bytes) (offset inside need : ℕ) (count : ℤ) (bytes : Bytes)
      (failure : Option Fault)
      → count ≡ pos need
      → (failure ≡ none) ⊎ (failure ≡ some end_of_file)
      → take_answer read_object is_cancelled size wanted x out offset inside need
          (record { count = count; bytes = bytes; failure = failure })
        ≡ onward
            (read_source x inside need (take need bytes))
            (out ++ take need bytes)
            (offset + need)
  unfolding take_answer
  take_answer-exact x out offset inside need count bytes failure c f =
      let not_less : ltb_ℤ (pos need) (pos need) ≡ false = ground arith in
      let same : (need == need) ≡ true = ground arith in
      elim f [
        | inl fine ↦ rw (c, fine, not_less, same) refl
        | inr at_end ↦ rw (c, at_end, not_less, same) refl
      ]

  module _ (store : Store) (serves : Serves store read_object)
      (never : NeverCancelled is_cancelled) where
    -- A part that is not passed yet, and a destination with room.
    pub read_part-exact :
        (x : Extent) (out : Bytes) (offset : ℕ)
        → length out < wanted
        → offset < size
        → x.start ≤ offset
        → offset < x.start + raw x.part
        → length (content store x.part.object) ≡ raw x.part
        → (let inside = offset - x.start in
            let need = need_of read_object is_cancelled size wanted x out inside in
            let bytes = take need (drop inside (content store x.part.object)) in
            read_part read_object is_cancelled size wanted x out offset
            ≡ onward (read_source x inside need bytes) (out ++ bytes) (offset + need))
    unfolding read_part
    read_part-exact x out offset room short from below has =
        let inside = offset - x.start in
        let need = need_of read_object is_cancelled size wanted x out inside in
        let within : inside + need ≤ length (content store x.part.object) = omega arith in
        let open1 : ltb (length out) wanted ≡ true = ground arith in
        let open2 : ltb offset size ≡ true = ground arith in
        rw
          (
            open1,
            open2,
            never reading (length out),
            ← serves.delivers x.part.object need inside within,
          )
          (take_answer-exact x out offset inside need _ _ _
            (serves.counts x.part.object need inside within)
            (serves.succeeds x.part.object need inside within))

    -- Where a whole part was read, its bytes may be copied from then on.
    pub read_source-Fits :
        (start : ℕ) (x : Extent) (out : Bytes) (offset : ℕ)
        → x.start ≡ start
        → x.stop ≡ start + raw x.part
        → start ≤ offset
        → length (content store x.part.object) ≡ raw x.part
        → (let inside = offset - x.start in
            let need = need_of read_object is_cancelled size wanted x out inside in
            Fits store x.stop
              (read_source x inside need (take need (drop inside (content store x.part.object))))
              (length out + need)
              wanted
              (offset + need))
    read_source-Fits start x out offset from to above has =
        let inside = offset - x.start in
        let need = need_of read_object is_cancelled size wanted x out inside in
        elim (Bool-cases (inside == 0 && need == raw x.part)) [
          | inl whole ↦
              let inside_is : inside ≡ 0 = ground arith in
              let need_is : need ≡ raw x.part = ground arith in
              rw whole (
                ap (λ i. take need (drop i (content store x.part.object))) inside_is
                    ∙ take-all need (content store x.part.object) (omega (arith, need_is, has)),
                inr (omega arith),
              )
          | inr piece ↦ rw piece tt
        ]

    copied-Fits :
        (s : Source) (start : ℕ) (x : Extent) (out : Bytes) (offset : ℕ)
        → x.stop ≡ start + raw x.part
        → s.bytes ≡ content store s.object
        → offset ≡ start
        → (let k = need_of read_object is_cancelled size wanted x out 0 in
            Fits store x.stop
              (if ltb k (raw x.part) then none else some s)
              (length out + k)
              wanted
              (offset + k))
    copied-Fits s start x out offset to bytes_are at_start =
        let k = need_of read_object is_cancelled size wanted x out 0 in
        elim (Bool-cases (ltb k (raw x.part))) [
          | inl piece ↦ rw piece tt
          | inr whole ↦ rw whole (bytes_are, inr (ground arith))
        ]

    -- One round of the loops reads, or copies, what is wanted of the part.
    pub record Advanced (source : Option Source) (x : Extent) (out : Bytes) (offset : ℕ)
        : Type 0 where
      pub next : Option Source
      pub visit_is :
          (let inside = offset - x.start in
            let need = need_of read_object is_cancelled size wanted x out inside in
            visit read_object is_cancelled size wanted source x out offset
            ≡ onward next
                (out ++ take need (drop inside (content store x.part.object)))
                (offset + need))
      pub next_fits :
          (let need = need_of read_object is_cancelled size wanted x out (offset - x.start) in
            Fits store x.stop next (length out + need) wanted (offset + need))

    pub visit-Advanced :
        (source : Option Source) (start : ℕ) (x : Extent) (out : Bytes) (offset : ℕ)
        → x.start ≡ start
        → x.stop ≡ start + raw x.part
        → length (content store x.part.object) ≡ raw x.part
        → length out < wanted
        → offset < size
        → start ≤ offset
        → offset < x.stop
        → Fits store start source (length out) wanted offset
        → Advanced source x out offset
    unfolding visit
    visit-Advanced none start x out offset from to has room short above below fits = record {
      next = _;
      visit_is = read_part-exact x out offset room short (omega arith) (omega arith) has;
      next_fits = read_source-Fits start x out offset from to above has;
    }
    visit-Advanced (some s) start x out offset from to has room short above below (bytes_are, f) =
        let open1 : ltb (length out) wanted ≡ true = ground arith in
        elim (Bool-cases (same_object_bytes s.object x.part.object)) [
          | inl same ↦
              let inside : offset - x.start ≡ 0 = ground arith in
              let bytes = bytes_are ∙ same_object-content store s.object x.part.object same in
              record {
                next =
                    if ltb (need_of read_object is_cancelled size wanted x out 0) (raw x.part)
                    then none
                    else some s;
                visit_is = rw (open1, never copying (length out), same, inside, bytes) refl;
                next_fits =
                    rw inside (copied-Fits s start x out offset to bytes_are (ground arith));
              }
          | inr other ↦ record {
            next =
                (let inside = offset - x.start in
                  let need = need_of read_object is_cancelled size wanted x out inside in
                  read_source x inside need
                    (take need (drop inside (content store x.part.object))));
            visit_is =
                rw (open1, never copying (length out), other)
                  (read_part-exact x out offset room short (omega arith) (omega arith) has);
            next_fits = read_source-Fits start x out offset from to above has;
          }
        ]

    pub visit-full :
        (source : Option Source) (x : Extent) (out : Bytes) (offset : ℕ)
        → length out ≡ wanted
        → visit read_object is_cancelled size wanted source x out offset
          ≡ stop_with read_object is_cancelled size wanted
              (finished read_object is_cancelled size wanted out)
    unfolding visit read_part
    visit-full none x out offset full =
        let shut : ltb (length out) wanted ≡ false = ground arith in rw shut refl
    visit-full (some s) x out offset full =
        let shut : ltb (length out) wanted ≡ false = ground arith in rw shut refl
