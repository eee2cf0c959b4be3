-- ===== src/Vfs/Session/Copied.antt =====
-- What the copy on write copies: the loop ends within its fuel, and what it hands on is the content
-- of its reader.
use codexfold.Prelude.{
  ℕ, zero, suc, ◌-◌, ◌<◌, ◌≡◌, ◌≢◌, refl, ◌∙◌, not, ◌&&◌, ◌||◌, [], ◌++◌, Option, none, some,
  Outcome, ok, err, ltb, ◌==◌, length, drop, arith, length-append, Bool-cases, inl, inr,
}
use codexfold.Prelude.Bytes.{Bytes, bytes_eq, bytes_eq→eq}
use codexfold.Vfs.View.{Fault, is_end_of_file}
use codexfold.Vfs.Prefixes.{IsPrefix, extend-IsPrefix, IsPrefix-all}
use codexfold.Vfs.Session.State.{
  Host, Files, Trouble, out_of_fuel, write_temporary, context, sync_temporary, close_temporary,
  hash_temporary, create_temporary, chmod_temporary,
}
use codexfold.Vfs.Session.Readers.{ReadHandle}
use codexfold.Vfs.Session.Copying.{
  Round, broken, ended, grown, grow, weigh, after_read, copy_round, copy_loop, check_copy,
  check_looped, copy_out,
}
use codexfold.Vfs.Session.Reads.{IsReadable, handle_bytes, read_handle-IsPrefix}

-- Two contents of one hash are the same.
abbrev pub CollisionFree : Host → Type 0
CollisionFree host = (a b : Bytes) → host.sha256 a ≡ host.sha256 b → a ≡ b

-- A copy that is handed on is the whole content, and the fuel suffices.
abbrev pub Copies : Bytes → Outcome Trouble Bytes → Type 0
Copies content (ok bytes) = bytes ≡ content
Copies content (err e) = e ≢ out_of_fuel

abbrev Fair : Bytes → ℕ → Bytes → Round → Type 0
Fair content size out (broken e) = e ≢ out_of_fuel
Fair content size out (ended o) = IsPrefix o content
Fair content size out (grown o) = IsPrefix o content × (length out < length o) × (length out < size)

grow-Fair :
    (content : Bytes) (size : ℕ) (out found : Bytes)
    → IsPrefix out content
    → length out < size
    → IsPrefix (out ++ found) content
    → Fair content size out (grow out found)
unfolding grow
grow-Fair content size out found sofar below more = elim (Bool-cases (length found == 0)) [
  | inl nothing ↦ rw nothing sofar
  | inr something ↦ rw something (more, ground (arith, length-append out found), below)
]

weigh-Fair :
    (content : Bytes) (size : ℕ) (out found : Bytes) (failure : Option Fault)
    → IsPrefix out content
    → length out < size
    → IsPrefix (out ++ found) content
    → Fair content size out (weigh out found failure)
unfolding weigh
weigh-Fair content size out found none sofar below more =
    grow-Fair content size out found sofar below more
weigh-Fair content size out found (some e) sofar below more =
    elim (Bool-cases (not (is_end_of_file e))) [
      | inl bad ↦ rw bad (λ h. cc)
      | inr end ↦ rw end (grow-Fair content size out found sofar below more)
    ]

after_read-Fair :
    (host : Host) (content : Bytes) (size : ℕ) (out : Bytes) (r : Bytes × Option Fault)
    → IsPrefix out content
    → length out < size
    → IsPrefix (r.0) (drop (length out) content)
    → Fair content size out (after_read host out r)
unfolding after_read
after_read-Fair host content size out (found, failure) sofar below fits =
    let more = extend-IsPrefix out found content sofar fits in
    elim (Bool-cases (ltb 0 (length found) && host.fails (write_temporary (length out)))) [
      | inl bad ↦ rw bad (λ h. cc)
      | inr written ↦ rw written (weigh-Fair content size out found failure sofar below more)
    ]

module _ (host : Host) (base : Bytes) (files : Files) (h : ReadHandle)
    (readable : IsReadable host base files h) where
  abbrev content : Bytes
  content = handle_bytes base files h

  copy_round-Fair :
      (out : Bytes) → IsPrefix out content → Fair content h.size out (copy_round host files h out)
  unfolding copy_round
  copy_round-Fair out sofar = elim (Bool-cases (not (ltb (length out) h.size))) [
    | inl full ↦ rw full sofar
    | inr below ↦ elim (Bool-cases (host.fails (context (length out)))) [
      | inl bad ↦ rw (below, bad) (λ h. cc)
      | inr fine ↦
          rw (below, fine)
            (after_read-Fair host content h.size out _ sofar (ground arith)
              (read_handle-IsPrefix host base files h _ (length out) readable))
    ]
  ]

  abbrev Looped : Outcome Trouble Bytes → Type 0
  Looped (ok o) = IsPrefix o content
  Looped (err e) = e ≢ out_of_fuel

  copy_loop-Looped :
      (fuel : ℕ) (out : Bytes)
      → h.size - length out < fuel
      → IsPrefix out content
      → Looped (copy_loop host files h fuel out)
  unfolding copy_loop
  copy_loop-Looped zero out enough sofar = absurd (omega arith)
  copy_loop-Looped (suc fuel) out enough sofar =
      round_on fuel out (copy_round host files h out) (copy_round-Fair out sofar) enough
        (copy_loop-Looped fuel)
    where
      round_on :
          (fuel : ℕ) (out : Bytes) (r : Round)
          → Fair content h.size out r
          → h.size - length out < suc fuel
          → ((o : Bytes)
              → h.size - length o < fuel
              → IsPrefix o content
              → Looped (copy_loop host files h fuel o))
          → Looped (elim r as (λ _. Outcome Trouble Bytes) [
            | broken e ↦ err e
            | ended out' ↦ ok out'
            | grown out' ↦ copy_loop host files h fuel out'
          ])
      round_on fuel out (broken e) fair enough rest = fair
      round_on fuel out (ended o) fair enough rest = fair
      round_on fuel out (grown o) (more, longer, below) enough rest = rest o (omega arith) more

  module _ (collision_free : CollisionFree host) (size_is : length content ≡ h.size) where
    check_copy-Copies :
        (out : Bytes) → IsPrefix out content → Copies content (check_copy host files h out)
    unfolding check_copy
    check_copy-Copies out sofar = elim (Bool-cases (not (length out == h.size))) [
      | inl short ↦ rw short (λ h. cc)
      | inr full ↦ elim (Bool-cases (host.fails sync_temporary)) [
        | inl bad ↦ rw (full, bad) (λ h. cc)
        | inr synced ↦ elim (Bool-cases (host.fails close_temporary)) [
          | inl bad ↦ rw (full, synced, bad) (λ h. cc)
          | inr closed ↦ elim (Bool-cases (host.fails hash_temporary)) [
            | inl bad ↦ rw (full, synced, closed, bad) (λ h. cc)
            | inr hashed ↦
                elim (Bool-cases (
                  not (length (host.settles out) == h.size)
                  || not (bytes_eq (host.sha256 (host.settles out)) (host.sha256 out)))) [
                    | inl bad ↦ rw (full, synced, closed, hashed, bad) (λ h. cc)
                    | inr same ↦
                        rw (full, synced, closed, hashed, same)
                          (collision_free (host.settles out) out (bytes_eq→eq _ _ (ground arith))
                            ∙ IsPrefix-all out content sofar (ground (arith, size_is)))
                  ]
          ]
        ]
      ]
    ]

    check_looped-Copies :
        (r : Outcome Trouble Bytes) → Looped r → Copies content (check_looped host files h r)
    check_looped-Copies (ok out) sofar = check_copy-Copies out sofar
    check_looped-Copies (err e) other = other

    -- The copy of a handle whose content is still there ends within its fuel, one round more than
    -- there are bytes, whatever else of the host fails; and where it succeeds it is just the content
    -- of the handle. No two contents have one hash, and the handle counts as many bytes as it has.
    pub copy_out-Copies : Copies content (copy_out host files h)
    unfolding copy_out
    copy_out-Copies =
        elim (Bool-cases (
          not (
            host.grants (record {
              additional_persistent_bytes = h.size;
              temporary_bytes = h.size;
              temporary_persistent_overlap_bytes = h.size;
              reclaimable_bytes = 0;
            })))) [
              | inl bad ↦ rw bad (λ h. cc)
              | inr granted ↦ elim (Bool-cases (host.fails create_temporary)) [
                | inl bad ↦ rw (granted, bad) (λ h. cc)
                | inr created ↦ elim (Bool-cases (host.fails chmod_temporary)) [
                  | inl bad ↦ rw (granted, created, bad) (λ h. cc)
                  | inr fine ↦
                      rw (granted, created, fine)
                        (check_looped-Copies _
                          (copy_loop-Looped (suc h.size) [] (omega arith) (content, refl)))
                ]
              ]
            ]
