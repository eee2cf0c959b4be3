-- ===== src/Vfs/Tests.antt =====
-- A manifest with a repeated part, and the theorem of the views at it.
use codexfold.Prelude.{
  ◌+◌, ◌≤◌, length, ℕ, zero, suc, ◌≡◌, refl, true, false, [], ◌∷◌, none, ok, take, drop, inl,
}
use codexfold.Prelude.Int.{pos}
use codexfold.Prelude.Bytes.{Bytes, bytes_eq}
use codexfold.Fold.Manifest.{
  ObjectRef, Part, Manifest, manifest_kind, part_residual, part_field, supported_manifest,
  supported_part,
}
use codexfold.Vfs.View.{
  View, end_of_part, ends_of, check_total, new_view, Answer, finished, read_at,
}
use codexfold.Vfs.Chain.{Store, content, Serves}
use codexfold.Vfs.Slices.{take-take}
use codexfold.Vfs.Room.{read_at_bounded}
use codexfold.Vfs.Reading.{read_at-exact}

abbrev pub repeat : ℕ → ℕ → Bytes
repeat zero b = []
repeat (suc n) b = b ∷ repeat n b

-- An object of size `n` is the bytes 1, 2, … of its digest's first byte on.
abbrev pub bytes_from : ℕ → ℕ → Bytes
bytes_from zero b = []
bytes_from (suc n) b = b ∷ bytes_from n (suc b)

abbrev pub store : Store
store [] size = []
store (b ∷ bs) (pos n) = bytes_from n b
store (b ∷ bs) _ = []

-- A reader that has the whole store at hand.
abbrev pub serve : ObjectRef → ℕ → ℕ → Answer
serve o need inside = record {
  count = pos need;
  bytes = take need (drop inside (content store o));
  failure = none;
}

pub serve-Serves : Serves store serve
serve-Serves = record {
  counts = λ o need inside h. refl;
  delivers = λ o need inside h. take-take need _;
  succeeds = λ o need inside h. inl refl;
}

abbrev pub first : Part
first = record {
  kind = part_residual;
  json_path = [];
  object = record { sha256 = repeat 64 b'a'; raw_bytes = pos 3; stored_bytes = pos 9 };
}

abbrev pub other : Part
other = record {
  kind = part_field;
  json_path = [];
  object = record { sha256 = repeat 64 b'k'; raw_bytes = pos 2; stored_bytes = pos 9 };
}

abbrev pub manifest : Manifest
manifest = record {
  version = pos 1;
  kind = manifest_kind;
  created_at = [];
  session = record { id = b's' ∷ []; title = []; cwd = []; rollout_path = []; archived = true };
  source = record { bytes = pos 8; sha256 = [] };
  settings = record {
    field_threshold = pos 0;
    max_json_line_bytes = pos 0;
    cdc_min_bytes = pos 0;
    cdc_average_bytes = pos 0;
    cdc_max_bytes = pos 0;
    compression = [];
    record_threshold = pos 0;
  };
  parts = first ∷ first ∷ other ∷ [];
}

abbrev pub view : View
view = record { manifest = manifest; ends = 3 ∷ 6 ∷ 8 ∷ [] }

pub manifest_viewed : new_view manifest ≡ ok view
unfolding new_view check_total ends_of end_of_part supported_manifest supported_part bytes_eq
manifest_viewed = refl

read_at-exact_example :
    read_at serve (λ c n. false) view 5 (pos 1)
    ≡ finished serve (λ c n. false) 8 5 (b'b' ∷ b'c' ∷ b'a' ∷ b'b' ∷ b'c' ∷ [])
read_at-exact_example =
    read_at-exact store serve (λ c n. false) manifest 5 1 serve-Serves (λ c n. refl)
      (refl, (refl, (refl, tt))) manifest_viewed

-- A reader that claims more than was asked for.
abbrev boast : ObjectRef → ℕ → ℕ → Answer
boast o need inside = record { count = pos (need + 7); bytes = repeat 20 b'!'; failure = none }

read_at_bounded_example : length ((read_at boast (λ c n. false) view 5 (pos 1)).0) ≤ 5
read_at_bounded_example = read_at_bounded boast (λ c n. false) view 5 (pos 1)
