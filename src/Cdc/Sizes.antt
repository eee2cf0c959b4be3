-- ===== src/Cdc/Sizes.antt =====
-- The bounds on the chunks.
use codexfold.Prelude.{
  ℕ, ◌≤◌, ◌<◌, ◌≡◌, refl, sym, ap, ◌∙◌, ◌⊎◌, true, false, List, [], ◌∷◌, ◌++◌, Outcome, ok, err,
  ok-injective, ◌==◌, ◌-◌, not, ◌||◌, subst, append-nil, length, length-append, arith, All,
  All-append, Bool-cases, inl, inr,
}
use codexfold.Prelude.Int.{ℤ, pos, negsuc, pos_part, ltb_ℤ}
use Prim.Native.Nat.{bit_and}
use codexfold.Prelude.Bytes.{Bytes}
use codexfold.Cdc.{
  Options, Chunk, Chunker, default_to, with_defaults, new_with, new, append_byte, at_boundary,
  chunk_of, after_emit, emit_chunk, write_byte, write, finish,
}
use codexfold.Cdc.Coverage.{go_on-eq_ok}

abbrev pub Sized : ℕ → ℕ → Chunk → Type 0
Sized lo hi c = (lo ≤ length c.bytes) × (length c.bytes ≤ hi)

-- A chunker between two bytes.
pub record Bounded (lo hi : ℕ) (c : Chunker) : Type 0 where
  pub min_is : c.options.min_bytes ≡ pos lo
  pub max_is : c.options.max_bytes ≡ pos hi
  pub ordered : lo ≤ hi
  pub room : length c.chunk < hi
  pub sized : All (Sized lo hi) c.emitted

module _ (sha256 : Bytes → Bytes) (E : Type 0)
    (emit : List Chunk → Chunk → Outcome E (Unit {0})) where
  after_emit-Bounded :
      (o : Outcome E (Unit {0})) (lo hi : ℕ) (c : Chunker)
      → c.options.min_bytes ≡ pos lo
      → c.options.max_bytes ≡ pos hi
      → 0 < lo
      → (lo ≤ length c.chunk) × (length c.chunk ≤ hi)
      → All (Sized lo hi) c.emitted
      → (after_emit sha256 E emit o c).0 ≡ ok tt
      → Bounded lo hi ((after_emit sha256 E emit o c).1)
  unfolding after_emit
  after_emit-Bounded (err e) lo hi c min_is max_is some_min fits sized h = absurd (ground arith)
  after_emit-Bounded (ok u) lo hi c min_is max_is some_min fits sized h = record {
    min_is = min_is;
    max_is = max_is;
    ordered = omega arith;
    room = omega (arith, fits.0, fits.1);
    sized = All-append (Sized lo hi) c.emitted _ sized (fits, tt);
  }

  -- A cut is made within the bounds, and before the upper one is passed.
  cut_fits :
      (lo hi : ℕ) (c : Chunker)
      → c.options.min_bytes ≡ pos lo
      → c.options.max_bytes ≡ pos hi
      → lo ≤ hi
      → length c.chunk ≤ hi
      → at_boundary c ≡ true
      → (lo ≤ length c.chunk) × (length c.chunk ≤ hi)
  unfolding at_boundary
  cut_fits lo hi c min_is max_is ordered fits h = let h' = rw (min_is, max_is) at h in ground arith

  grow_fits :
      (lo hi : ℕ) (c : Chunker)
      → c.options.min_bytes ≡ pos lo
      → c.options.max_bytes ≡ pos hi
      → at_boundary c ≡ false
      → length c.chunk < hi
  unfolding at_boundary
  grow_fits lo hi c min_is max_is h = let h' = rw (min_is, max_is) at h in ground arith

  write_byte-Bounded :
      (lo hi value : ℕ) (c : Chunker)
      → 0 < lo
      → Bounded lo hi c
      → (write_byte sha256 E emit value c).0 ≡ ok tt
      → Bounded lo hi ((write_byte sha256 E emit value c).1)
  unfolding write_byte emit_chunk append_byte
  write_byte-Bounded lo hi value c some_min b h =
      let c' = append_byte value c in
      let grown : length c'.chunk ≤ hi =
        omega (arith, b.room, length-append c.chunk (value ∷ [])) in
      elim (Bool-cases (at_boundary c')) [
        | inl cut ↦ rw cut (
            after_emit-Bounded _ lo hi c' b.min_is b.max_is some_min
              (cut_fits lo hi c' b.min_is b.max_is b.ordered grown cut) b.sized (rw cut at h))
        | inr grow ↦ rw grow (record {
          min_is = b.min_is;
          max_is = b.max_is;
          ordered = b.ordered;
          room = grow_fits lo hi c' b.min_is b.max_is grow;
          sized = b.sized;
        })
      ]

  write-Bounded :
      (lo hi : ℕ) (values : Bytes) (c : Chunker)
      → 0 < lo
      → Bounded lo hi c
      → (write sha256 E emit values c).0 ≡ ok tt
      → Bounded lo hi ((write sha256 E emit values c).1)
  unfolding write
  write-Bounded lo hi [] c some_min b h = b
  write-Bounded lo hi (value ∷ values) c some_min b h =
      let r = write_byte sha256 E emit value c in
      let (fine, same) =
        go_on-eq_ok sha256 E emit (r.0) (r.1) (write sha256 E emit values (r.1)) h in
      rw same (
        write-Bounded lo hi values (r.1) some_min (write_byte-Bounded lo hi value c some_min b fine)
          (sym (ap (λ p. p.0) same) ∙ h))

-- All chunks are within the bounds, but for a last one that is only not empty and not too long.
pub record SizedButLast (lo hi : ℕ) (chunks : List Chunk) : Type 0 where
  pub front : List Chunk
  pub back : List Chunk
  pub split : chunks ≡ front ++ back
  pub front_sized : All (Sized lo hi) front
  pub back_sized : (back ≡ []) ⊎ ((last : Chunk) × (back ≡ last ∷ []) × Sized 1 hi last)

after_emit-SizedButLast :
    (sha256 : Bytes → Bytes) (E : Type 0) (emit : List Chunk → Chunk → Outcome E (Unit {0}))
    (o : Outcome E (Unit {0})) (lo hi : ℕ) (c : Chunker)
    → Bounded lo hi c
    → (1 ≤ length c.chunk) × (length c.chunk ≤ hi)
    → (after_emit sha256 E emit o c).0 ≡ ok tt
    → SizedButLast lo hi ((after_emit sha256 E emit o c).1.emitted)
unfolding after_emit
after_emit-SizedButLast sha256 E emit (err e) lo hi c b fits h = absurd (ground arith)
after_emit-SizedButLast sha256 E emit (ok u) lo hi c b fits h = record {
  front = c.emitted;
  back = chunk_of sha256 E emit c ∷ [];
  split = refl;
  front_sized = b.sized;
  back_sized = inr (chunk_of sha256 E emit c, refl, fits);
}

default_to-positive :
    (d : ℕ) (n : ℤ)
    → 0 < d
    → (default_to (pos d) n ≡ pos (pos_part (default_to (pos d) n)))
      × (0 < pos_part (default_to (pos d) n))
default_to-positive d (pos n) h = ground arith
default_to-positive d (negsuc n) h = ground arith

new_with-Bounded :
    (o : Options) (lo average hi : ℕ) {c : Chunker}
    → o.min_bytes ≡ pos lo
    → o.average_bytes ≡ pos average
    → o.max_bytes ≡ pos hi
    → 0 < lo
    → new_with o ≡ ok c
    → Bounded lo hi c
unfolding new_with
new_with-Bounded o lo average hi {c} min_is average_is max_is some_min h =
    let ordered = ltb_ℤ o.average_bytes o.min_bytes || ltb_ℤ o.max_bytes o.average_bytes in
    let power = not (bit_and (pos_part o.average_bytes) (pos_part o.average_bytes - 1) == 0) in
    elim (Bool-cases ordered) [
      | inl bad ↦ cc (rw bad at h)
      | inr good ↦ elim (Bool-cases power) [
        | inl bad ↦ cc (rw (good, bad) at h)
        | inr fine ↦
            let same = ok-injective (rw (good, fine) at h) in
            let good' = rw (min_is, average_is, max_is) at good in
            subst (Bounded lo hi) same (record {
              min_is = min_is;
              max_is = max_is;
              ordered = ground arith;
              room = ground arith;
              sized = tt;
            })
      ]
    ]

module _ (sha256 : Bytes → Bytes) (E : Type 0)
    (emit : List Chunk → Chunk → Outcome E (Unit {0})) where
  finish-SizedButLast :
      (lo hi : ℕ) (c : Chunker)
      → Bounded lo hi c
      → (finish sha256 E emit c).0 ≡ ok tt
      → SizedButLast lo hi ((finish sha256 E emit c).1.emitted)
  unfolding finish emit_chunk
  finish-SizedButLast lo hi c b h = elim (Bool-cases (length c.chunk == 0)) [
    | inl done ↦ rw done (record {
      front = c.emitted;
      back = [];
      split = sym (append-nil c.emitted);
      front_sized = b.sized;
      back_sized = inl refl;
    })
    | inr more ↦ rw more (
        after_emit-SizedButLast sha256 E emit (emit c.emitted (chunk_of sha256 E emit c)) lo hi c b
          (ground (arith, b.room)) (rw more at h))
  ]

-- Where a chunker from `New` takes an input and is finished without an error, each chunk has at
-- least the least and at most the greatest size, but the last may be shorter, though not empty.
pub new-SizedButLast :
    (sha256 : Bytes → Bytes) (E : Type 0) (emit : List Chunk → Chunk → Outcome E (Unit {0}))
    (options : Options) (values : Bytes) {c : Chunker}
    → new options ≡ ok c
    → (write sha256 E emit values c).0 ≡ ok tt
    → (finish sha256 E emit ((write sha256 E emit values c).1)).0 ≡ ok tt
    → SizedButLast
        (pos_part (with_defaults options).min_bytes)
        (pos_part (with_defaults options).max_bytes)
        ((finish sha256 E emit ((write sha256 E emit values c).1)).1.emitted)
unfolding new with_defaults
new-SizedButLast sha256 E emit options values h w f =
    let (min_is, some_min) = default_to-positive 65536 options.min_bytes (omega arith) in
    let (average_is, _) = default_to-positive 262144 options.average_bytes (omega arith) in
    let (max_is, _) = default_to-positive 1048576 options.max_bytes (omega arith) in
    let b = new_with-Bounded (with_defaults options) _ _ _ min_is average_is max_is some_min h in
    finish-SizedButLast sha256 E emit _ _ _ (write-Bounded sha256 E emit _ _ values _ some_min b w)
      f
