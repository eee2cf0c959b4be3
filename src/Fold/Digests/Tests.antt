-- ===== src/Fold/Digests/Tests.antt =====
-- The set of digests on concrete values: runs of one digest, two to a merge.
use codexfold.Prelude.{◌≡◌, refl, false, [], ◌∷◌, ok, err, arith}
use codexfold.Prelude.Bytes.{bytes_less, bytes_eq}
use codexfold.Fold.Digests.{
  DigestSet, closed_set, invalid_digest, file_exists, merged_file, new_set, close, add, decode_hex,
  create_runs, count_runs, merge_groups, merge_digest_runs, merge_loop, without_repeats, sort,
  insert, pop, count,
}
use codexfold.Fold.Digests.Counting.{Counts, count-Counts}
use codexfold.Fold.Digests.Crowding.{count-crowded}

abbrev four : DigestSet
four = record { input = (7 ∷ []) ∷ (3 ∷ []) ∷ (7 ∷ []) ∷ (5 ∷ []) ∷ []; closed = false }

abbrev five : DigestSet
five = record { input = (7 ∷ []) ∷ (3 ∷ []) ∷ (7 ∷ []) ∷ (5 ∷ []) ∷ (1 ∷ []) ∷ []; closed = false }

counted : count 1 2 four ≡ ok 3
unfolding count create_runs count_runs merge_groups merge_digest_runs merge_loop without_repeats
    sort insert pop bytes_less bytes_eq
counted = refl

counted_closed : count 1 2 (close four) ≡ err closed_set
unfolding count
counted_closed = refl

refuses : add (b'a' ∷ b'b' ∷ []) new_set ≡ err invalid_digest
unfolding add decode_hex
refuses = refl

count-Counts_example : Counts four.input (count 1 2 four)
count-Counts_example = count-Counts 2 (omega arith) 1 four refl (omega arith) (omega arith)

count-crowded_example : count 1 2 five ≡ err (file_exists (merged_file 0))
count-crowded_example = count-crowded 1 2 five refl (omega arith) (omega arith) (omega arith)
