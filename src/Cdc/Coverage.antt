-- ===== src/Cdc/Coverage.antt =====
-- Nothing that is written gets lost, and the cuts do not depend on how the input comes in.
use codexfold.Prelude.{
  ℕ, ◌≡◌, refl, sym, ap, ◌∙◌, true, List, [], ◌∷◌, ◌++◌, Outcome, ok, err, ◌==◌, length, arith,
  append_assoc, append-nil, Bool-cases, inl, inr,
}
use codexfold.Prelude.Bytes.{Bytes}
use codexfold.Cdc.{
  Chunk, Chunker, append_byte, at_boundary, chunk_of, after_emit, emit_chunk, write_byte, go_on,
  write, finish,
}

-- The bytes of a list of chunks.
abbrev pub joined : List Chunk → Bytes
joined [] = []
joined (c ∷ cs) = c.bytes ++ joined cs

joined-append : (cs : List Chunk) (c : Chunk) → joined (cs ++ c ∷ []) ≡ joined cs ++ c.bytes
joined-append [] c = append-nil c.bytes
joined-append (d ∷ cs) c =
    ap (◌++◌ d.bytes) (joined-append cs c) ∙ sym (append_assoc d.bytes (joined cs) c.bytes)

-- All the bytes that a chunker has been given so far.
abbrev pub taken : Chunker → Bytes
taken c = joined c.emitted ++ c.chunk

module _ (sha256 : Bytes → Bytes) (E : Type 0)
    (emit : List Chunk → Chunk → Outcome E (Unit {0})) where
  after_emit-taken :
      (o : Outcome E (Unit {0})) (c : Chunker) → taken ((after_emit sha256 E emit o c).1) ≡ taken c
  unfolding after_emit
  after_emit-taken (err e) c = refl
  after_emit-taken (ok _) c = append-nil _ ∙ joined-append c.emitted _

  write_byte-taken :
      (value : ℕ) (c : Chunker)
      → taken ((write_byte sha256 E emit value c).1) ≡ taken c ++ value ∷ []
  unfolding write_byte emit_chunk append_byte
  write_byte-taken value c = elim (Bool-cases (at_boundary (append_byte value c))) [
    | inl cut ↦ rw cut (after_emit-taken _ _ ∙ sym (append_assoc (joined c.emitted) c.chunk _))
    | inr grow ↦ rw grow (sym (append_assoc (joined c.emitted) c.chunk _))
  ]

  pub go_on-eq_ok :
      (o : Outcome E (Unit {0})) (c : Chunker) (rest : Outcome E (Unit {0}) × Chunker)
      → (go_on sha256 E emit o c rest).0 ≡ ok tt
      → (o ≡ ok tt) × (go_on sha256 E emit o c rest ≡ rest)
  unfolding go_on
  go_on-eq_ok (err e) c rest h = absurd (ground arith)
  go_on-eq_ok (ok u) c rest h = (refl, refl)

  pub write-taken :
      (values : Bytes) (c : Chunker)
      → (write sha256 E emit values c).0 ≡ ok tt
      → taken ((write sha256 E emit values c).1) ≡ taken c ++ values
  unfolding write
  write-taken [] c h = sym (append-nil (taken c))
  write-taken (value ∷ values) c h =
      let r = write_byte sha256 E emit value c in
      let (_, same) = go_on-eq_ok (r.0) (r.1) (write sha256 E emit values (r.1)) h in
      ap (λ p. taken (p.1)) same
      ∙ write-taken values (r.1) (sym (ap (λ p. p.0) same) ∙ h)
      ∙ ap (λ x. x ++ values) (write_byte-taken value c)
      ∙ append_assoc (taken c) (value ∷ []) values

  empty : (bytes : Bytes) → (length bytes == 0) ≡ true → bytes ≡ []
  empty [] h = refl
  empty (b ∷ bs) h = absurd (ground arith)

  after_emit-joined :
      (o : Outcome E (Unit {0})) (c : Chunker)
      → (after_emit sha256 E emit o c).0 ≡ ok tt
      → joined ((after_emit sha256 E emit o c).1.emitted) ≡ taken c
  unfolding after_emit
  after_emit-joined (err e) c h = absurd (ground arith)
  after_emit-joined (ok _) c h = joined-append c.emitted _

  finish-taken :
      (c : Chunker)
      → (finish sha256 E emit c).0 ≡ ok tt
      → joined ((finish sha256 E emit c).1.emitted) ≡ taken c
  unfolding finish emit_chunk
  finish-taken c h = elim (Bool-cases (length c.chunk == 0)) [
    | inl done ↦ rw done (
        sym (append-nil (joined c.emitted))
        ∙ ap (◌++◌ (joined c.emitted)) (sym (empty c.chunk done)))
    | inr more ↦
        rw more (after_emit-joined (emit c.emitted (chunk_of sha256 E emit c)) c (rw more at h))
  ]

-- Where `Write` and then `Finish` return no error, all the chunks that the callback has taken,
-- one after the other, are the bytes that the chunker had been given before, followed by the
-- input.
pub finish-write :
    (sha256 : Bytes → Bytes) (E : Type 0) (emit : List Chunk → Chunk → Outcome E (Unit {0}))
    (values : Bytes) (c : Chunker)
    → (write sha256 E emit values c).0 ≡ ok tt
    → (finish sha256 E emit ((write sha256 E emit values c).1)).0 ≡ ok tt
    → joined ((finish sha256 E emit ((write sha256 E emit values c).1)).1.emitted)
      ≡ taken c ++ values
finish-write sha256 E emit values c h k =
    finish-taken sha256 E emit _ k ∙ write-taken sha256 E emit values c h
