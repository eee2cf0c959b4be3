-- ===== src/Cdc/Restart.antt =====
-- A boundary starts the chunker afresh, so that equal bytes behind a boundary give equal chunks.
use codexfold.Prelude.{
  ℕ, ◌≡◌, refl, sym, ap, subst, ◌∙◌, Bool, true, false, List, [], ◌∷◌, ◌++◌, Outcome, ok, length,
  length-append, arith, append_assoc, append-nil, Bool-cases, inl, inr, ok-injective, ◌||◌, not,
  ◌-◌, ◌==◌,
}
use codexfold.Prelude.Int.{pos_part, ltb_ℤ}
use Prim.Native.Nat.{bit_and}
use codexfold.Prelude.Bytes.{Bytes}
use codexfold.Cdc.{
  Options, Chunk, Chunker, with_defaults, new_with, new, append_byte, at_boundary, chunk_of,
  after_emit, emit_chunk, write_byte, go_on, write,
}

-- A chunker whose callback has taken other chunks before.
abbrev behind : List Chunk → Chunker → Chunker
behind taken c = record c { emitted = taken ++ c.emitted }

-- The state that `Write` does not change, and the gear at a boundary.
abbrev IsFresh : Chunker → Chunker → Type 0
IsFresh d c = (c.options ≡ d.options) × (c.mask ≡ d.mask) × (c.chunk ≡ [] → c.gear ≡ d.gear)

module _ (sha256 : Bytes → Bytes) (E : Type 0) (emit : List Chunk → Chunk → Outcome E (Unit {0}))
    (accepts : (taken : List Chunk) (chunk : Chunk) → emit taken chunk ≡ ok tt) where
  settled : Bool → Chunker → Chunker
  settled true c = record c {
    chunk = [];
    gear = 0;
    emitted = c.emitted ++ chunk_of sha256 E emit c ∷ [];
  }
  settled false c = c

  -- What a byte does to a chunker whose callback takes all.
  next : ℕ → Chunker → Chunker
  next value c = settled (at_boundary (append_byte value c)) (append_byte value c)

  write_byte-next :
      (value : ℕ) (c : Chunker) → write_byte sha256 E emit value c ≡ (ok tt, next value c)
  unfolding next settled write_byte emit_chunk after_emit
  write_byte-next value c =
      let c' = append_byte value c in
      elim (Bool-cases (at_boundary c')) [
        | inl ends ↦ rw (ends, accepts c'.emitted (chunk_of sha256 E emit c')) refl
        | inr goes ↦ rw goes refl
      ]

  settled-behind :
      (taken : List Chunk) (b : Bool) (c : Chunker)
      → settled b (behind taken c) ≡ behind taken (settled b c)
  unfolding settled
  settled-behind taken true c =
      ap (λ l. record c { chunk = []; gear = 0; emitted = l })
        (append_assoc taken c.emitted (chunk_of sha256 E emit c ∷ []))
  settled-behind taken false c = refl

  next-behind :
      (taken : List Chunk) (value : ℕ) (c : Chunker)
      → next value (behind taken c) ≡ behind taken (next value c)
  unfolding next append_byte at_boundary
  next-behind taken value c =
      settled-behind taken (at_boundary (append_byte value c)) (append_byte value c)

  writes : Bytes → Chunker → Chunker
  writes [] c = c
  writes (value ∷ values) c = writes values (next value c)

  write-writes :
      (values : Bytes) (c : Chunker) → write sha256 E emit values c ≡ (ok tt, writes values c)
  unfolding write writes go_on
  write-writes [] c = refl
  write-writes (value ∷ values) c =
      rw (write_byte-next value c) (write-writes values (next value c))

  writes-behind :
      (taken : List Chunk) (values : Bytes) (c : Chunker)
      → writes values (behind taken c) ≡ behind taken (writes values c)
  unfolding writes
  writes-behind taken [] c = refl
  writes-behind taken (value ∷ values) c =
      ap (writes values) (next-behind taken value c) ∙ writes-behind taken values (next value c)

  writes-append : (xs ys : Bytes) (c : Chunker) → writes (xs ++ ys) c ≡ writes ys (writes xs c)
  unfolding writes
  writes-append [] ys c = refl
  writes-append (x ∷ xs) ys c = writes-append xs ys (next x c)

  next-IsFresh :
      (d : Chunker) (value : ℕ) (c : Chunker) → d.gear ≡ 0 → IsFresh d c → IsFresh d (next value c)
  unfolding next settled append_byte
  next-IsFresh d value c calm (o, m, g) = fresh_again (at_boundary (append_byte value c))
    where
      fresh_again : (b : Bool) → IsFresh d (settled b (append_byte value c))
      fresh_again true = (o, m, λ e. sym calm)
      fresh_again false =
          (o, m, λ e. absurd (omega (arith, ap length e, length-append c.chunk (value ∷ []))))

  writes-IsFresh :
      (d : Chunker) (values : Bytes) (c : Chunker)
      → d.gear ≡ 0
      → IsFresh d c
      → IsFresh d (writes values c)
  unfolding writes
  writes-IsFresh d [] c calm fresh = fresh
  writes-IsFresh d (value ∷ values) c calm fresh =
      writes-IsFresh d values (next value c) calm (next-IsFresh d value c calm fresh)

  -- At a boundary the chunker is what it was at first, but for what the callback has taken.
  boundary :
      (c d : Chunker)
      → d.chunk ≡ []
      → d.emitted ≡ []
      → IsFresh d c
      → c.chunk ≡ []
      → c ≡ behind c.emitted d
  boundary c d empty none_taken (o, m, g) ends =
      let e : c.emitted ≡ c.emitted ++ d.emitted =
        sym (append-nil c.emitted) ∙ ap (◌++◌ c.emitted) (sym none_taken) in
      λ i. record {
        options = o i;
        mask = m i;
        gear = g ends i;
        chunk = (ends ∙ sym empty) i;
        emitted = e i;
      }

-- A new chunker has read nothing.
abbrev IsCalm : Chunker → Type 0
IsCalm d = (d.gear ≡ 0) × (d.chunk ≡ []) × (d.emitted ≡ [])

new_with-IsCalm : (o : Options) (d : Chunker) → new_with o ≡ ok d → IsCalm d
unfolding new_with
new_with-IsCalm o d h =
    let n = pos_part o.average_bytes in
    elim (Bool-cases (ltb_ℤ o.average_bytes o.min_bytes || ltb_ℤ o.max_bytes o.average_bytes)) [
      | inl bad ↦ absurd (ground (arith, rw bad at h))
      | inr ordered ↦ elim (Bool-cases (not (bit_and n (n - 1) == 0))) [
        | inl bad ↦ absurd (ground (arith, rw (ordered, bad) at h))
        | inr power ↦ subst IsCalm (ok-injective (rw (ordered, power) at h)) (refl, refl, refl)
      ]
    ]

new-IsCalm : (o : Options) (d : Chunker) → new o ≡ ok d → IsCalm d
unfolding new
new-IsCalm o d h = new_with-IsCalm (with_defaults o) d h

-- Where the callback takes every chunk and the first bytes that are written to a new chunker end in a
-- boundary, the chunks of them and of what follows are their chunks and those that a new chunker with
-- the same options makes of what follows alone; and so is what is left for the next chunk.
pub write-restart :
    (sha256 : Bytes → Bytes) (E : Type 0) (emit : List Chunk → Chunk → Outcome E (Unit {0}))
    (o : Options) (d : Chunker) (xs ys : Bytes)
    → ((taken : List Chunk) (chunk : Chunk) → emit taken chunk ≡ ok tt)
    → new o ≡ ok d
    → (write sha256 E emit xs d).1.chunk ≡ []
    → ((write sha256 E emit (xs ++ ys) d).1.emitted
        ≡ (write sha256 E emit xs d).1.emitted ++ (write sha256 E emit ys d).1.emitted)
      × ((write sha256 E emit (xs ++ ys) d).1.chunk ≡ (write sha256 E emit ys d).1.chunk)
write-restart sha256 E emit o d xs ys accepts made ends =
    let (calm, empty, none_taken) = new-IsCalm o d made in
    let run = writes sha256 E emit accepts in
    let written = λ (bytes : Bytes). ap (λ r. r.1) (write-writes sha256 E emit accepts bytes d) in
    let first = run xs d in
    let start : first ≡ behind first.emitted d =
      boundary sha256 E emit accepts first d empty none_taken
        (writes-IsFresh sha256 E emit accepts d xs d calm (refl, refl, λ e. refl))
        (sym (ap (λ c. c.chunk) (written xs)) ∙ ends) in
    let whole : run (xs ++ ys) d ≡ behind first.emitted (run ys d) =
      writes-append sha256 E emit accepts xs ys d
      ∙ ap (run ys) start
      ∙ writes-behind sha256 E emit accepts first.emitted ys d in
    (
      ap (λ c. c.emitted) (written (xs ++ ys) ∙ whole)
          ∙ sym (
              ap (λ c. c.emitted ++ (write sha256 E emit ys d).1.emitted) (written xs)
              ∙ ap (λ c. first.emitted ++ c.emitted) (written ys)),
      ap (λ c. c.chunk) (written (xs ++ ys) ∙ whole) ∙ sym (ap (λ c. c.chunk) (written ys)),
    )
