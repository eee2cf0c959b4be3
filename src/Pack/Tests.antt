-- ===== src/Pack/Tests.antt =====
-- Concrete indexes, and the theorems of the validation at them.
use codexfold.Prelude.{
  inl, ℕ, zero, suc, ◌+◌, ◌≤◌, ◌<◌, ◌≡◌, refl, ◌⊎◌, [], ◌∷◌, true, false, ok, arith, All, OneOf,
}
use codexfold.Prelude.Int.{pos, negsuc, max_int64, ◌+64◌, wrap}
use codexfold.Prelude.Bytes.{Bytes, bytes_eq}
use codexfold.FilePath.{base, has_slash}
use codexfold.Pack.Format.{
  Block, Object, Index, index_kind, encoding_zstd, encoding_raw, safe_generation, is_current,
  is_legacy, bad_block, bad_encoding, check_block, check_blocks, seen, check_total, check_object,
  check_objects, validate_index,
}
use codexfold.Pack.Tiling.{
  size, Distinct, digests, IsTiled, validate_index-IsTiled, validate_index-covers,
  safe_generation-base,
}

abbrev repeat : ℕ → ℕ → Bytes
repeat zero b = []
repeat (suc n) b = b ∷ repeat n b

abbrev first_half : Block
first_half = record {
  pack = b'p' ∷ b'0' ∷ [];
  pack_offset = pos 0;
  stored_bytes = pos 7;
  raw_offset = pos 0;
  raw_bytes = pos 10;
  sha256 = repeat 64 b'a';
  encoding = encoding_zstd;
}

abbrev second_half : Block
second_half = record first_half {
  pack_offset = pos 7;
  stored_bytes = pos 5;
  raw_offset = pos 10;
  raw_bytes = pos 5;
  encoding = encoding_raw;
}

abbrev halves : Object
halves = record {
  sha256 = repeat 64 b'f';
  raw_bytes = pos 15;
  blocks = first_half ∷ second_half ∷ [];
}

abbrev index : Index
index = record {
  version = pos 2;
  kind = index_kind;
  generation = b'g' ∷ b'1' ∷ [];
  created_at = [];
  block_bytes = pos 10;
  objects = halves ∷ [];
}

index_accepted : validate_index index ≡ ok tt
unfolding validate_index check_objects check_object check_total check_blocks check_block bad_block
    bad_encoding seen safe_generation is_current is_legacy base bytes_eq ◌+64◌ wrap
index_accepted = refl

validate_index-IsTiled_example : All IsTiled (halves ∷ []) × Distinct (digests (halves ∷ []))
validate_index-IsTiled_example = validate_index-IsTiled index (omega arith, tt) index_accepted

validate_index-covers_example :
    (b : Block) × (OneOf b halves.blocks)
    × ((at : ℕ) × (b.raw_offset ≡ pos at) × (at ≤ 12) × (12 < at + size b))
validate_index-covers_example =
    validate_index-covers index halves 12 (omega arith, tt) index_accepted (inl refl) (omega arith)

index_generation : safe_generation index.generation ≡ true
unfolding safe_generation base bytes_eq
index_generation = refl

safe_generation-base_example : (index.generation ≡ b'/' ∷ []) ⊎ (has_slash index.generation ≡ false)
safe_generation-base_example = safe_generation-base index.generation index_generation

-- The root passes as a generation.
root_accepted : safe_generation (b'/' ∷ []) ≡ true
unfolding safe_generation base bytes_eq
root_accepted = refl

-- Three blocks whose running offset wraps around: the last one starts at -2, and the sum is 2.
abbrev wrapping : Object
wrapping = record halves {
  raw_bytes = pos 2;
  blocks =
      record first_half { raw_bytes = pos max_int64 }
      ∷ record first_half { raw_offset = pos max_int64; raw_bytes = pos max_int64 }
      ∷ record first_half { raw_offset = negsuc 1; raw_bytes = pos 4 }
      ∷ [];
}

wrapping_accepted : validate_index (record index { objects = wrapping ∷ [] }) ≡ ok tt
unfolding validate_index check_objects check_object check_total check_blocks check_block bad_block
    bad_encoding seen safe_generation is_current is_legacy base bytes_eq ◌+64◌ wrap
wrapping_accepted = refl
