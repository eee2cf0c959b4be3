-- ===== src/Pack/Tiling.antt =====
-- What an index that passed the validation can be relied on for.
use codexfold.Prelude.{
  All-at, ℕ, ◌+◌, ◌≤◌, ◌<◌, ◌≡◌, ltb, refl, sym, ap, subst, ◌∙◌, ◌⊎◌, Bool, true, false, not, ◌&&◌,
  ◌||◌, List, [], ◌∷◌, map, ok, >>=-eq_ok, ok-injective, ◌==◌, length, arith, All, OneOf,
  Bool-cases, inl, inr,
}
use codexfold.Prelude.Int.{
  ℤ, pos, negsuc, pos_part, max_int64, eq_ℤ, eq_ℤ→eq, is_negative, ◌+64◌, +64-pos,
}
use codexfold.Prelude.Bytes.{Bytes, bytes_eq→eq, bytes_eq_refl}
use codexfold.FilePath.{base, has_slash, has_slash-base}
use codexfold.Pack.Format.{
  Block, Object, Index, safe_generation, is_current, is_legacy, is_positive, bad_block,
  bad_encoding, check_block, check_blocks, seen, check_total, check_object, check_objects,
  validate_index,
}

abbrev pub size : Block → ℕ
size b = pos_part b.raw_bytes

abbrev pub total : List Block → ℕ
total [] = 0
total (b ∷ bs) = size b + total bs

-- The blocks lie end to end, from the one offset to the other.
abbrev pub Tiles : ℕ → List Block → ℕ → Type 0
Tiles start [] stop = start ≡ stop
Tiles start (b ∷ bs) stop =
    (b.raw_offset ≡ pos start) × (0 < size b) × Tiles (start + size b) bs stop

positive-pos : (a : ℤ) → is_positive a ≡ true → (a ≡ pos (pos_part a)) × (0 < pos_part a)
positive-pos (pos n) h = (refl, ground arith)
positive-pos (negsuc n) h = ground arith

bad_block-false :
    (expected : ℤ) (b : Block)
    → bad_block expected b ≡ false
    → (is_positive b.raw_bytes ≡ true) × (eq_ℤ b.raw_offset expected ≡ true)
unfolding bad_block
bad_block-false expected b h = (ground arith, ground arith)

check_block-ok :
    (current : Bool) (start : ℕ) (b : Block) {next : ℤ}
    → start + size b ≤ max_int64
    → check_block current (pos start) b ≡ ok next
    → (b.raw_offset ≡ pos start) × (0 < size b) × (next ≡ pos (start + size b))
unfolding check_block
check_block-ok current start b fits h = elim (Bool-cases (bad_block (pos start) b)) [
  | inl bad ↦ cc (rw bad at h)
  | inr good ↦ elim (Bool-cases (bad_encoding current b)) [
    | inl bad ↦ cc (rw (good, bad) at h)
    | inr fine ↦
        let (positive, placed) = bad_block-false (pos start) b good in
        let (size_is, some_bytes) = positive-pos b.raw_bytes positive in
        let next_is = sym (ok-injective (rw (good, fine) at h)) in
        (
          eq_ℤ→eq b.raw_offset (pos start) placed,
          some_bytes,
          next_is ∙ ap (λ n. pos start +64 n) size_is ∙ +64-pos start (size b) fits,
        )
  ]
]

check_blocks-Tiles :
    (current : Bool) (start : ℕ) (bs : List Block) {stop : ℤ}
    → start + total bs ≤ max_int64
    → check_blocks current (pos start) bs ≡ ok stop
    → (stop ≡ pos (start + total bs)) × Tiles start bs (start + total bs)
unfolding check_blocks
check_blocks-Tiles current start [] fits h =
    (sym (ok-injective h) ∙ ap pos (omega arith), omega arith)
check_blocks-Tiles current start (b ∷ bs) fits h =
    let (next, e, k) =
      >>=-eq_ok (check_block current (pos start) b) (λ n. check_blocks current n bs) h in
    let (placed, some_bytes, next_is) = check_block-ok current start b (omega arith) e in
    let (stop_is, rest) =
      check_blocks-Tiles current (start + size b) bs (omega arith) (rw next_is at k) in
    let same : start + size b + total bs ≡ start + (size b + total bs) = omega arith in
    (stop_is ∙ ap pos same, (placed, some_bytes, subst (Tiles (start + size b) bs) same rest))

-- Each offset within the tiled stretch is in one of the blocks.
Tiles-covers :
    (start : ℕ) (bs : List Block) (stop offset : ℕ)
    → Tiles start bs stop
    → start ≤ offset
    → offset < stop
    → (b : Block) × (OneOf b bs)
      × ((at : ℕ) × (b.raw_offset ≡ pos at) × (at ≤ offset) × (offset < at + size b))
Tiles-covers start [] stop offset t above below = absurd (omega arith)
Tiles-covers start (b ∷ bs) stop offset (placed, some_bytes, rest) above below =
    elim (Bool-cases (ltb offset (start + size b))) [
      | inl here ↦ (b, inl refl, (start, placed, above, ground arith))
      | inr later ↦
          let (c, listed, found) =
            Tiles-covers (start + size b) bs stop offset rest (ground arith) below in
          (c, inr listed, found)
    ]

-- The validation accepts no digest twice.
abbrev pub Distinct : List Bytes → Type 0
Distinct [] = Unit
Distinct (k ∷ ks) = (¬ OneOf k ks) × Distinct ks

abbrev pub digests : List Object → List Bytes
digests = map (λ o. o.sha256)

-- An object whose blocks lie end to end over its bytes.
pub record IsTiled (o : Object) : Type 0 where
  pub bytes_are : o.raw_bytes ≡ pos (total o.blocks)
  pub tiles : Tiles 0 o.blocks (total o.blocks)

check_total-ok : (o : Object) (n : ℤ) → check_total o n ≡ ok tt → n ≡ o.raw_bytes
unfolding check_total
check_total-ok o n h = elim (Bool-cases (eq_ℤ n o.raw_bytes)) [
  | inl same ↦ eq_ℤ→eq n o.raw_bytes same
  | inr different ↦ cc (rw different at h)
]

check_object-ok :
    (current : Bool) (known : List Bytes) (o : Object)
    → total o.blocks ≤ max_int64
    → check_object current known o ≡ ok tt
    → (seen o.sha256 known ≡ false) × IsTiled o
unfolding check_object
check_object-ok current known o fits h =
    elim (Bool-cases (not (length o.sha256 == 64) || is_negative o.raw_bytes)) [
      | inl bad ↦ cc (rw bad at h)
      | inr good ↦ elim (Bool-cases (seen o.sha256 known)) [
        | inl bad ↦ cc (rw (good, bad) at h)
        | inr fine ↦
            let (n, e, k) =
              >>=-eq_ok (check_blocks current (pos 0) o.blocks) (check_total o)
                (rw (good, fine) at h) in
            let (stop_is, tiles) = check_blocks-Tiles current 0 o.blocks (omega arith) e in
            let start : 0 + total o.blocks ≡ total o.blocks = omega arith in
            (
              fine,
              record {
                bytes_are = sym (check_total-ok o n k) ∙ stop_is ∙ ap pos start;
                tiles = subst (Tiles 0 o.blocks) start tiles;
              },
            )
      ]
    ]

not_seen-not_listed :
    (k : Bytes) (known ks : List Bytes) → All (λ x. seen x (k ∷ known) ≡ false) ks → ¬ OneOf k ks
unfolding seen
not_seen-not_listed k known [] h l = l
not_seen-not_listed k known (x ∷ ks) (h, hs) (inl same) =
    let e = rw (← same, bytes_eq_refl k) at h in cc
not_seen-not_listed k known (x ∷ ks) (h, hs) (inr l) = not_seen-not_listed k known ks hs l

fewer_seen :
    (k : Bytes) (known ks : List Bytes)
    → All (λ x. seen x (k ∷ known) ≡ false) ks
    → All (λ x. seen x known ≡ false) ks
unfolding seen
fewer_seen k known [] h = tt
fewer_seen k known (x ∷ ks) (h, hs) = (ground arith, fewer_seen k known ks hs)

check_objects-ok :
    (current : Bool) (known : List Bytes) (os : List Object)
    → All (λ o. total o.blocks ≤ max_int64) os
    → check_objects current known os ≡ ok tt
    → All IsTiled os × All (λ x. seen x known ≡ false) (digests os) × Distinct (digests os)
unfolding check_objects
check_objects-ok current known [] fits h = (tt, tt, tt)
check_objects-ok current known (o ∷ os) (fit, fits) h =
    let (_, e, k) =
      >>=-eq_ok (check_object current known o) (λ _. check_objects current (o.sha256 ∷ known) os)
        h in
    let (fresh, tiled) = check_object-ok current known o fit e in
    let (all_tiled, unseen, distinct) = check_objects-ok current (o.sha256 ∷ known) os fits k in
    (
      (tiled, all_tiled),
      (fresh, fewer_seen o.sha256 known (digests os) unseen),
      (not_seen-not_listed o.sha256 known (digests os) unseen, distinct),
    )

-- In an index that the validation accepts, and whose blocks add up to an `int64` in each object, no
-- digest stands twice and the blocks of each object lie end to end over exactly its bytes.
pub validate_index-IsTiled :
    (index : Index)
    → All (λ o. total o.blocks ≤ max_int64) index.objects
    → validate_index index ≡ ok tt
    → All IsTiled index.objects × Distinct (digests index.objects)
unfolding validate_index
validate_index-IsTiled index fits h =
    elim (Bool-cases (not (is_current index) && not (is_legacy index))) [
      | inl bad ↦ cc (rw bad at h)
      | inr good ↦
          elim (Bool-cases
            (not (safe_generation index.generation) || not (is_positive index.block_bytes))) [
              | inl bad ↦ cc (rw (good, bad) at h)
              | inr fine ↦
                  let (tiled, _, distinct) =
                    check_objects-ok (is_current index) [] index.objects fits
                      (rw (good, fine) at h) in
                  (tiled, distinct)
            ]
    ]

-- In an index that the validation accepts, and whose blocks add up to an `int64` in each object,
-- each offset within an object is in one of its blocks, at the place that the block says.
pub validate_index-covers :
    (index : Index) (o : Object) (offset : ℕ)
    → All (λ o. total o.blocks ≤ max_int64) index.objects
    → validate_index index ≡ ok tt
    → OneOf o index.objects
    → offset < pos_part o.raw_bytes
    → (b : Block) × (OneOf b o.blocks)
      × ((at : ℕ) × (b.raw_offset ≡ pos at) × (at ≤ offset) × (offset < at + size b))
validate_index-covers index o offset fits h listed below =
    let t = All-at IsTiled o index.objects (validate_index-IsTiled index fits h).0 listed in
    Tiles-covers 0 o.blocks (total o.blocks) offset t.tiles (omega arith) (rw t.bytes_are at below)

-- A generation that passes as safe is the root or a name without a slash.
pub safe_generation-base :
    (generation : Bytes)
    → safe_generation generation ≡ true
    → (generation ≡ b'/' ∷ []) ⊎ (has_slash generation ≡ false)
unfolding safe_generation
safe_generation-base generation h =
    let same = bytes_eq→eq (base generation) generation (ground arith) in
    subst (λ g. (g ≡ b'/' ∷ []) ⊎ (has_slash g ≡ false)) same (has_slash-base generation)
