-- ===== src/Vfs/Room.antt =====
-- No read passes the end of its destination, whatever the reader of objects answers.
use codexfold.Prelude.{
  ℕ, ◌+◌, ◌-◌, ◌≤◌, Bool, not, ◌&&◌, ◌||◌, List, [], ◌∷◌, ◌++◌, Option, none, some, ltb, leb, ◌==◌,
  length, take, arith, length-append, length-take, Bool-cases, inl, inr,
}
use codexfold.Prelude.Int.{ℤ, pos, pos_part, ltb_ℤ, is_negative}
use codexfold.Prelude.Bytes.{Bytes}
use codexfold.Fold.Manifest.{ObjectRef}
use codexfold.Vfs.View.{
  Fault, View, view_size, Extent, same_object_bytes, Answer, Checkpoint, reading, copying, entering,
  Source, Next, stopped, onward, finished, tolerated, take_answer, read_part, visit, out_of_parts,
  read_parts, read_from, read_at,
}

module _ (read_object : ObjectRef → ℕ → ℕ → Answer) (is_cancelled : Checkpoint → ℕ → Bool)
    (size wanted : ℕ) where
  abbrev Fits : Next → Type 0
  Fits (stopped out fault) = length out ≤ wanted
  Fits (onward source out offset) = length out ≤ wanted

  joined_fits :
      (out bytes : Bytes) (n room : ℕ)
      → length out + room ≤ wanted
      → n ≤ room
      → length (out ++ take n bytes) ≤ wanted
  joined_fits out bytes n room h k =
      omega (arith, length-append out (take n bytes), length-take n bytes)

  take_answer-Fits :
      (x : Extent) (out : Bytes) (offset inside need : ℕ) (answer : Answer)
      → length out + need ≤ wanted
      → Fits (take_answer read_object is_cancelled size wanted x out offset inside need answer)
  unfolding take_answer
  take_answer-Fits x out offset inside need answer h =
      let n = pos_part answer.count in
      elim (Bool-cases (is_negative answer.count || ltb_ℤ (pos need) answer.count)) [
        | inl bad ↦ rw bad (omega arith)
        | inr counted ↦
            let fits = joined_fits out answer.bytes n need h (ground arith) in
            elim (Bool-cases (not (n == need))) [
              | inl short ↦ rw (counted, short) fits
              | inr full ↦
                  elim (Bool-cases
                    (not (tolerated read_object is_cancelled size wanted answer.failure))) [
                      | inl bad ↦ rw (counted, full, bad) fits
                      | inr fine ↦ rw (counted, full, fine) fits
                    ]
            ]
      ]

  read_part-Fits :
      (x : Extent) (out : Bytes) (offset : ℕ)
      → length out ≤ wanted
      → Fits (read_part read_object is_cancelled size wanted x out offset)
  unfolding read_part finished
  read_part-Fits x out offset h =
      elim (Bool-cases (not (ltb (length out) wanted && ltb offset size))) [
        | inl over ↦ rw over h
        | inr more ↦ elim (Bool-cases (is_cancelled reading (length out))) [
          | inl stop ↦ rw (more, stop) h
          | inr go ↦ rw (more, go) (take_answer-Fits x out offset _ _ _ (omega arith))
        ]
      ]

  visit-Fits :
      (source : Option Source) (x : Extent) (out : Bytes) (offset : ℕ)
      → length out ≤ wanted
      → Fits (visit read_object is_cancelled size wanted source x out offset)
  unfolding visit
  visit-Fits none x out offset h = read_part-Fits x out offset h
  visit-Fits (some s) x out offset h = elim (Bool-cases (not (ltb (length out) wanted))) [
    | inl full ↦ rw full (read_part-Fits x out offset h)
    | inr room ↦ elim (Bool-cases (is_cancelled copying (length out))) [
      | inl stop ↦ rw (room, stop) h
      | inr go ↦ elim (Bool-cases (not (same_object_bytes s.object x.part.object))) [
        | inl other ↦ rw (room, go, other) (read_part-Fits x out offset h)
        | inr same ↦
            rw (room, go, same)
              (joined_fits out s.bytes _ (wanted - length out) (omega arith) (omega arith))
      ]
    ]
  ]

  out_of_parts-Fits :
      (out : Bytes) (offset : ℕ)
      → length out ≤ wanted
      → length ((out_of_parts read_object is_cancelled size wanted out offset).0) ≤ wanted
  unfolding out_of_parts finished
  out_of_parts-Fits out offset h =
      elim (Bool-cases (not (ltb (length out) wanted && ltb offset size))) [
        | inl over ↦ rw over h
        | inr more ↦ elim (Bool-cases (is_cancelled reading (length out))) [
          | inl stop ↦ rw (more, stop) h
          | inr go ↦ rw (more, go) h
        ]
      ]

  -- What holds of one part and of the rest holds of the loops.
  carried :
      (next : Next) (xs : List Extent)
      → Fits next
      → ((source : Option Source) (out : Bytes) (offset : ℕ)
          → length out ≤ wanted
          → length ((read_parts read_object is_cancelled size wanted source xs out offset).0)
            ≤ wanted)
      → length (
          (elim next as (λ n. Bytes × Option Fault) [
            | stopped out fault ↦ (out, fault)
            | onward source out offset ↦
                read_parts read_object is_cancelled size wanted source xs out offset
          ]).0)
        ≤ wanted
  carried (stopped out fault) xs h rest = h
  carried (onward source out offset) xs h rest = rest source out offset h

  read_parts-Fits :
      (xs : List Extent) (source : Option Source) (out : Bytes) (offset : ℕ)
      → length out ≤ wanted
      → length ((read_parts read_object is_cancelled size wanted source xs out offset).0) ≤ wanted
  unfolding read_parts
  read_parts-Fits [] source out offset h = out_of_parts-Fits out offset h
  read_parts-Fits (x ∷ xs) source out offset h =
      carried (visit read_object is_cancelled size wanted source x out offset) xs
        (visit-Fits source x out offset h)
        (λ source' out' offset' k. read_parts-Fits xs source' out' offset' k)

  read_from-Fits :
      (xs : List Extent) (offset : ℕ)
      → length ((read_from read_object is_cancelled size wanted xs offset).0) ≤ wanted
  read_from-Fits [] offset = omega arith
  read_from-Fits (x ∷ xs) offset = read_parts-Fits (x ∷ xs) none [] offset (omega arith)

-- Whatever the reader of objects answers, and wherever the context is cancelled, `ReadAt` reports no
-- more bytes than the destination has.
pub read_at_bounded :
    (read_object : ObjectRef → ℕ → ℕ → Answer) (is_cancelled : Checkpoint → ℕ → Bool) (v : View)
    (wanted : ℕ) (offset : ℤ)
    → length ((read_at read_object is_cancelled v wanted offset).0) ≤ wanted
unfolding read_at
read_at_bounded read_object is_cancelled v wanted offset = elim (Bool-cases (is_negative offset)) [
  | inl before ↦ rw before (omega arith)
  | inr at ↦ elim (Bool-cases (wanted == 0)) [
    | inl nothing ↦ rw (at, nothing) (omega arith)
    | inr something ↦ elim (Bool-cases (is_cancelled entering 0)) [
      | inl stop ↦ rw (at, something, stop) (omega arith)
      | inr go ↦ elim (Bool-cases (leb (view_size v) (pos_part offset))) [
        | inl past ↦ rw (at, something, go, past) (omega arith)
        | inr within ↦
            rw (at, something, go, within)
              (read_from-Fits read_object is_cancelled (view_size v) wanted _ (pos_part offset))
      ]
    ]
  ]
]
