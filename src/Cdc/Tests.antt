-- ===== src/Cdc/Tests.antt =====
-- A chunker with small bounds, and the theorems of the chunker at it.
use codexfold.Prelude.{ℕ, ◌%◌, ◌≡◌, refl, List, [], ◌∷◌, ◌++◌, Outcome, ok, map, length}
use codexfold.Prelude.Int.{pos, pos_part}
use codexfold.Prelude.Bytes.{Bytes}
use codexfold.Cdc.{
  Options, Chunk, Chunker, with_defaults, new_with, new, mix, gear_entries, gear_table, append_byte,
  at_boundary, after_emit, emit_chunk, write_byte, go_on, write, finish,
}
use codexfold.Cdc.Coverage.{joined, finish-write}
use codexfold.Cdc.Restart.{write-restart}
use codexfold.Cdc.Sizes.{SizedButLast, new-SizedButLast}

-- A stand-in for SHA-256.
abbrev checksum : Bytes → Bytes
checksum bytes = (length bytes % 256) ∷ []

abbrev accept : List Chunk → Chunk → Outcome ℕ (Unit {0})
accept taken c = ok tt

abbrev small : Options
small = record { min_bytes = pos 2; average_bytes = pos 2; max_bytes = pos 3 }

abbrev fresh : Chunker
fresh = record { options = small; mask = 1; gear = 0; chunk = []; emitted = [] }

small_lem : new small ≡ ok fresh
unfolding new new_with with_defaults
small_lem = refl

abbrev input : Bytes
input = 1 ∷ 2 ∷ 3 ∷ 4 ∷ 5 ∷ 6 ∷ 7 ∷ []

input_written : (write checksum ℕ accept input fresh).0 ≡ ok tt
unfolding write write_byte at_boundary append_byte emit_chunk after_emit go_on gear_table
    gear_entries mix
input_written = refl

input_finished : (finish checksum ℕ accept ((write checksum ℕ accept input fresh).1)).0 ≡ ok tt
unfolding finish write write_byte at_boundary append_byte emit_chunk after_emit go_on gear_table
    gear_entries mix
input_finished = refl

cut_lengths :
    map (λ c. length c.bytes) ((write checksum ℕ accept input fresh).1.emitted) ≡ 2 ∷ 3 ∷ []
unfolding write write_byte at_boundary append_byte emit_chunk after_emit go_on gear_table
    gear_entries mix
cut_lengths = refl

finish-write_example :
    joined ((finish checksum ℕ accept ((write checksum ℕ accept input fresh).1)).1.emitted) ≡ input
finish-write_example = finish-write checksum ℕ accept input fresh input_written input_finished

first_two : (write checksum ℕ accept (1 ∷ 2 ∷ []) fresh).1.chunk ≡ []
unfolding write write_byte at_boundary append_byte emit_chunk after_emit go_on gear_table
    gear_entries mix
first_two = refl

write-restart_example :
    ((write checksum ℕ accept input fresh).1.emitted
      ≡ (write checksum ℕ accept (1 ∷ 2 ∷ []) fresh).1.emitted
        ++ (write checksum ℕ accept (3 ∷ 4 ∷ 5 ∷ 6 ∷ 7 ∷ []) fresh).1.emitted)
    × ((write checksum ℕ accept input fresh).1.chunk
        ≡ (write checksum ℕ accept (3 ∷ 4 ∷ 5 ∷ 6 ∷ 7 ∷ []) fresh).1.chunk)
write-restart_example =
    write-restart checksum ℕ accept small fresh (1 ∷ 2 ∷ []) (3 ∷ 4 ∷ 5 ∷ 6 ∷ 7 ∷ [])
      (λ taken c. refl) small_lem first_two

new-SizedButLast_example :
    SizedButLast
      (pos_part (with_defaults small).min_bytes)
      (pos_part (with_defaults small).max_bytes)
      ((finish checksum ℕ accept ((write checksum ℕ accept input fresh).1)).1.emitted)
new-SizedButLast_example =
    new-SizedButLast checksum ℕ accept small input small_lem input_written input_finished
