-- ===== src/Cdc.antt =====
-- internal/cdc/chunker.go: content-defined chunking. SHA-256 and the callback that takes the chunks
-- are parameters; the callback's answer may depend on all that it has taken before.
pub mod Coverage
pub mod Restart
pub mod Sizes
mod Tests
use codexfold.Prelude.{
  ℕ, zero, suc, ◌+◌, ◌-◌, ◌*◌, ◌/◌, ◌%◌, ◌^◌, Bool, true, false, not, ◌&&◌, ◌||◌, List, [], ◌∷◌,
  ◌++◌, Outcome, ok, err, ◌==◌, length, get_or, if◌then◌else◌,
}
use codexfold.Prelude.Int.{ℤ, pos, pos_part, ltb_ℤ}
use codexfold.Prelude.Bytes.{Bytes}
use Prim.Native.Nat.{bit_and, bit_xor}

pub record Options : Type 0 where
  pub min_bytes : ℤ
  pub average_bytes : ℤ
  pub max_bytes : ℤ

pub record Chunk : Type 0 where
  pub bytes : Bytes
  pub digest : Bytes

-- The chunker, and the chunks that the callback has taken.
pub record Chunker : Type 0 where
  pub options : Options
  pub mask : ℕ
  pub gear : ℕ
  pub chunk : Bytes
  pub emitted : List Chunk

pub data Fault : Type 0 where
  bad_bounds not_a_power_of_two : Fault

abbrev default_to : ℤ → ℤ → ℤ
default_to d n = if ltb_ℤ (pos 0) n then n else d

unfoldable pub with_defaults : Options → Options
with_defaults o = record {
  min_bytes = default_to (pos 65536) o.min_bytes;
  average_bytes = default_to (pos 262144) o.average_bytes;
  max_bytes = default_to (pos 1048576) o.max_bytes;
}

-- `New` with options that have their defaults, which are all positive then.
unfoldable pub new_with : Options → Outcome Fault Chunker
new_with o =
    if ltb_ℤ o.average_bytes o.min_bytes || ltb_ℤ o.max_bytes o.average_bytes
    then err bad_bounds
    else if not (bit_and (pos_part o.average_bytes) (pos_part o.average_bytes - 1) == 0)
    then err not_a_power_of_two
    else ok (record {
      options = o;
      mask = pos_part o.average_bytes - 1;
      gear = 0;
      chunk = [];
      emitted = [];
    })

unfoldable pub new : Options → Outcome Fault Chunker
new o = new_with (with_defaults o)

abbrev pub word : ℕ
word = 2 ^ 64

-- One entry of the gear table, from the state of the generator.
unfoldable pub mix : ℕ → ℕ
mix state =
    let once = bit_xor state (state / 2 ^ 30) * 0xbf58476d1ce4e5b9 % word in
    let twice = bit_xor once (once / 2 ^ 27) * 0x94d049bb133111eb % word in
    bit_xor twice (twice / 2 ^ 31)

unfoldable pub gear_entries : ℕ → ℕ → List ℕ
gear_entries zero state = []
gear_entries (suc n) state =
    let next = (state + 0x9e3779b97f4a7c15) % word in mix next ∷ gear_entries n next

unfoldable pub gear_table : List ℕ
gear_table = gear_entries 256 0x6a09e667f3bcc909

-- The byte joins the chunk and the gear.
unfoldable pub append_byte : ℕ → Chunker → Chunker
append_byte value c = record c {
  chunk = c.chunk ++ value ∷ [];
  gear = (c.gear * 2 % word + get_or gear_table value 0) % word;
}

-- Whether the chunk ends here.
unfoldable pub at_boundary : Chunker → Bool
at_boundary c =
    not (ltb_ℤ (pos (length c.chunk)) c.options.max_bytes)
    || (not (ltb_ℤ (pos (length c.chunk)) c.options.min_bytes) && bit_and c.gear c.mask == 0)

module _ (sha256 : Bytes → Bytes) (E : Type 0)
    (emit : List Chunk → Chunk → Outcome E (Unit {0})) where
  abbrev pub chunk_of : Chunker → Chunk
  chunk_of c = record { bytes = c.chunk; digest = sha256 c.chunk }

  unfoldable pub after_emit : Outcome E (Unit {0}) → Chunker → Outcome E (Unit {0}) × Chunker
  after_emit (err e) c = (err e, c)
  after_emit (ok _) c =
      (ok tt, record c { chunk = []; gear = 0; emitted = c.emitted ++ chunk_of c ∷ [] })

  unfoldable pub emit_chunk : Chunker → Outcome E (Unit {0}) × Chunker
  emit_chunk c = after_emit (emit c.emitted (chunk_of c)) c

  -- One byte of `Write`.
  unfoldable pub write_byte : ℕ → Chunker → Outcome E (Unit {0}) × Chunker
  write_byte value c =
      let c' = append_byte value c in if at_boundary c' then emit_chunk c' else (ok tt, c')

  unfoldable pub go_on :
      Outcome E (Unit {0})
      → Chunker
      → Outcome E (Unit {0}) × Chunker
      → Outcome E (Unit {0}) × Chunker
  go_on (err e) c rest = (err e, c)
  go_on (ok _) c rest = rest

  unfoldable pub write : Bytes → Chunker → Outcome E (Unit {0}) × Chunker
  write [] c = (ok tt, c)
  write (value ∷ values) c = let r = write_byte value c in go_on (r.0) (r.1) (write values (r.1))

  unfoldable pub finish : Chunker → Outcome E (Unit {0}) × Chunker
  finish c = if length c.chunk == 0 then (ok tt, c) else emit_chunk c
