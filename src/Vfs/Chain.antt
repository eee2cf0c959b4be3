-- ===== src/Vfs/Chain.antt =====
-- A store, a reader that serves it, and parts that lie end to end.
use codexfold.Prelude.{
  ℕ, ◌+◌, ◌≤◌, ◌<◌, ◌≡◌, refl, ◌⊎◌, Bool, true, false, List, [], ◌∷◌, ◌++◌, Option, none, some,
  length, take, drop, arith,
}
use codexfold.Prelude.Int.{ℤ, pos, eq_ℤ→eq}
use codexfold.Prelude.Bytes.{Bytes, bytes_eq→eq}
use codexfold.Fold.Manifest.{ObjectRef}
use codexfold.Vfs.View.{end_of_file, raw, Extent, same_object_bytes, Answer, Checkpoint, Source}

-- The bytes of each object, by its digest and its size.
abbrev pub Store : Type 0
Store = Bytes → ℤ → Bytes

abbrev pub content : Store → ObjectRef → Bytes
content store o = store o.sha256 o.raw_bytes

-- A reader answers each request within an object with the bytes that were asked for, and perhaps
-- with the end of the file.
pub record Serves (store : Store) (read_object : ObjectRef → ℕ → ℕ → Answer) : Type 0 where
  pub counts :
      (o : ObjectRef) (need inside : ℕ)
      → inside + need ≤ length (content store o)
      → (read_object o need inside).count ≡ pos need
  pub delivers :
      (o : ObjectRef) (need inside : ℕ)
      → inside + need ≤ length (content store o)
      → take need (read_object o need inside).bytes ≡ take need (drop inside (content store o))
  pub succeeds :
      (o : ObjectRef) (need inside : ℕ)
      → inside + need ≤ length (content store o)
      → ((read_object o need inside).failure ≡ none)
        ⊎ ((read_object o need inside).failure ≡ some end_of_file)

abbrev pub NeverCancelled : (Checkpoint → ℕ → Bool) → Type 0
NeverCancelled is_cancelled = (c : Checkpoint) (n : ℕ) → is_cancelled c n ≡ false

abbrev pub bytes_of : Store → List Extent → Bytes
bytes_of store [] = []
bytes_of store (x ∷ xs) = content store x.part.object ++ bytes_of store xs

-- The parts lie end to end from `start` to `size`, and the store has the objects at their sizes.
abbrev pub Chain : Store → ℕ → List Extent → ℕ → Type 0
Chain store start [] size = start ≡ size
Chain store start (x ∷ xs) size =
    (x.start ≡ start)
    × (x.stop ≡ start + raw x.part)
    × (0 < raw x.part)
    × (length (content store x.part.object) ≡ raw x.part)
    × Chain store x.stop xs size

pub Chain-le :
    (store : Store) (start : ℕ) (xs : List Extent) (size : ℕ)
    → Chain store start xs size
    → start ≤ size
Chain-le store start [] size c = omega arith
Chain-le store start (x ∷ xs) size (from, to, some_bytes, has, rest) =
    omega (arith, Chain-le store x.stop xs size rest)

abbrev pub InFirst : List Extent → ℕ → Type 0
InFirst [] offset = Unit
InFirst (x ∷ xs) offset = offset < x.stop

pub Chain-InFirst :
    (store : Store) (start : ℕ) (xs : List Extent) (size offset : ℕ)
    → Chain store start xs size
    → offset ≡ start
    → InFirst xs offset
Chain-InFirst store start [] size offset c h = tt
Chain-InFirst store start (x ∷ xs) size offset (from, to, some_bytes, has, rest) h = omega arith

-- What is known of the source of copies.
abbrev pub Fits : Store → ℕ → Option Source → ℕ → ℕ → ℕ → Type 0
Fits store start none filled wanted offset = Unit
Fits store start (some s) filled wanted offset =
    (s.bytes ≡ content store s.object) × ((filled ≡ wanted) ⊎ (offset ≡ start))

-- The state of the loops before the parts `xs`, which begin at `start`.
pub record Ready (store : Store) (wanted start : ℕ) (source : Option Source) (xs : List Extent)
    (out : Bytes) (offset : ℕ) : Type 0 where
  pub filled : length out ≤ wanted
  pub placed : (length out ≡ wanted) ⊎ ((start ≤ offset) × InFirst xs offset)
  pub fits : Fits store start source (length out) wanted offset

pub same_object-content :
    (store : Store) (a b : ObjectRef)
    → same_object_bytes a b ≡ true
    → content store a ≡ content store b
same_object-content store a b h =
    let sha = bytes_eq→eq a.sha256 b.sha256 (ground arith) in
    let size = eq_ℤ→eq a.raw_bytes b.raw_bytes (ground arith) in rw (sha, size) refl
