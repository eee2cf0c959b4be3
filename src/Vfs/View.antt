-- ===== src/Vfs/View.antt =====
-- internal/vfs/view.go: a view of a manifest, and reads at an offset. The reader of objects and the
-- cancellation of the context are parameters. The part index of the Go loop is the list of the
-- parts that it has not passed, each with its place in the file; a size that was checked to be
-- positive is a natural number.
use codexfold.Prelude.{
  ℕ, ◌+◌, ◌-◌, Bool, true, false, not, ◌&&◌, ◌||◌, List, [], ◌∷◌, ◌++◌, Option, none, some, Outcome,
  ok, err, ◌>>=◌, ltb, leb, ◌==◌, length, take, min, if◌then◌else◌,
}
use codexfold.Prelude.Int.{ℤ, pos, pos_part, max_int64, eq_ℤ, ltb_ℤ, is_negative}
use codexfold.Prelude.Bytes.{Bytes, bytes_eq}
use codexfold.Fold.Manifest.{ObjectRef, Part, Manifest, supported_manifest, supported_part}

pub data Fault : Type 0 where
  unsupported_manifest unsupported_part invalid_reference too_long wrong_total : Fault
  negative_offset end_of_file cancelled no_part invalid_count unexpected_end : Fault
  failed : ℕ → Fault

pub record View : Type 0 where
  pub manifest : Manifest
  pub ends : List ℕ

abbrev pub raw : Part → ℕ
raw part = pos_part part.object.raw_bytes

-- The end of the part that begins at `total`.
unfoldable pub end_of_part : ℤ → ℕ → Part → Outcome Fault ℕ
end_of_part version total part =
    if not (supported_part version part.kind)
    then err unsupported_part
    else if not (length part.object.sha256 == 64) || not (ltb_ℤ (pos 0) part.object.raw_bytes)
    then err invalid_reference
    else if ltb (max_int64 - total) (raw part)
    then err too_long
    else ok (total + raw part)

-- The ends of the parts, and the total.
unfoldable pub ends_of : ℤ → ℕ → List Part → Outcome Fault (List ℕ × ℕ)
ends_of version total [] = ok ([], total)
ends_of version total (part ∷ parts) = do
  stop ← end_of_part version total part
  rest ← ends_of version stop parts
  ok (stop ∷ rest.0, rest.1)

unfoldable pub check_total : Manifest → List ℕ × ℕ → Outcome Fault View
check_total manifest (ends, total) =
    if eq_ℤ (pos total) manifest.source.bytes
    then ok (record { manifest = manifest; ends = ends })
    else err wrong_total

unfoldable pub new_view : Manifest → Outcome Fault View
new_view manifest =
    if not (supported_manifest manifest.version manifest.kind)
    then err unsupported_manifest
    else (do r ← ends_of manifest.version 0 manifest.parts; check_total manifest r)

abbrev pub view_size : View → ℕ
view_size v = pos_part v.manifest.source.bytes

-- A part and its place.
pub record Extent : Type 0 where
  pub part : Part
  pub start : ℕ
  pub stop : ℕ

unfoldable pub extents : ℕ → List Part → List ℕ → List Extent
extents start (part ∷ parts) (stop ∷ ends) =
    record { part = part; start = start; stop = stop } ∷ extents stop parts ends
extents start _ _ = []

-- `sort.Search`: the first part that ends behind the offset, and those after it.
unfoldable pub search : ℕ → List Extent → List Extent
search offset [] = []
search offset (x ∷ xs) = let rest = search offset xs in if ltb offset x.stop then x ∷ xs else rest

abbrev pub same_object_bytes : ObjectRef → ObjectRef → Bool
same_object_bytes a b = bytes_eq a.sha256 b.sha256 && eq_ℤ a.raw_bytes b.raw_bytes

-- What a reader answers: the count, the bytes that it has put in place, and an error.
pub record Answer : Type 0 where
  pub count : ℤ
  pub bytes : Bytes
  pub failure : Option Fault

-- Where the context is asked: at first, before a part is read, or before a repeated one is copied.
pub data Checkpoint : Type 0 where
  entering reading copying : Checkpoint

-- The part that was just read as a whole, and may be repeated.
pub record Source : Type 0 where
  pub object : ObjectRef
  pub bytes : Bytes

-- How the loops go on after one part.
pub data Next : Type 0 where
  stopped : Bytes → Option Fault → Next
  onward : Option Source → Bytes → ℕ → Next

abbrev pub is_end_of_file : Fault → Bool
is_end_of_file end_of_file = true
is_end_of_file _ = false

module _ (read_object : ObjectRef → ℕ → ℕ → Answer) (is_cancelled : Checkpoint → ℕ → Bool)
    (size : ℕ) (wanted : ℕ) where
  -- The end of `ReadAt`.
  unfoldable pub finished : Bytes → Bytes × Option Fault
  finished out = (out, if ltb (length out) wanted then some end_of_file else none)

  abbrev pub stop_with : Bytes × Option Fault → Next
  stop_with (out, fault) = stopped out fault

  abbrev pub tolerated : Option Fault → Bool
  tolerated none = true
  tolerated (some e) = is_end_of_file e

  abbrev pub or_unexpected : Option Fault → Option Fault
  or_unexpected none = some unexpected_end
  or_unexpected (some e) = some e

  -- What is done with the answer to a request for `need` bytes.
  unfoldable pub take_answer : Extent → Bytes → ℕ → ℕ → ℕ → Answer → Next
  take_answer x out offset inside need answer =
      let n = pos_part answer.count in
      let out' = out ++ take n answer.bytes in
      if is_negative answer.count || ltb_ℤ (pos need) answer.count
      then stopped out (some invalid_count)
      else if not (n == need)
      then stopped out' (or_unexpected answer.failure)
      else if not (tolerated answer.failure)
      then stopped out' answer.failure
      else onward
          (if inside == 0 && need == raw x.part
            then some (record { object = x.part.object; bytes = take n answer.bytes })
            else none)
          out' (offset + n)

  abbrev pub need_of : Extent → Bytes → ℕ → ℕ
  need_of x out inside = min (wanted - length out) (raw x.part - inside)

  unfoldable pub read_part : Extent → Bytes → ℕ → Next
  read_part x out offset =
      let inside = offset - x.start in
      let need = need_of x out inside in
      if not (ltb (length out) wanted && ltb offset size)
      then stop_with (finished out)
      else if is_cancelled reading (length out)
      then stopped out (some cancelled)
      else take_answer x out offset inside need (read_object x.part.object need inside)

  -- One part, which is copied where it repeats the one before, and read otherwise.
  unfoldable pub visit : Option Source → Extent → Bytes → ℕ → Next
  visit none x out offset = read_part x out offset
  visit (some source) x out offset =
      let k = need_of x out 0 in
      if not (ltb (length out) wanted)
      then read_part x out offset
      else if is_cancelled copying (length out)
      then stopped out (some cancelled)
      else if not (same_object_bytes source.object x.part.object)
      then read_part x out offset
      else onward (if ltb k (raw x.part) then none else some source) (out ++ take k source.bytes)
          (offset + k)

  -- The head of the loop where no part is left.
  unfoldable pub out_of_parts : Bytes → ℕ → Bytes × Option Fault
  out_of_parts out offset =
      if not (ltb (length out) wanted && ltb offset size)
      then finished out
      else if is_cancelled reading (length out)
      then (out, some cancelled)
      else (out, some no_part)

  unfoldable pub read_parts : Option Source → List Extent → Bytes → ℕ → Bytes × Option Fault
  read_parts source [] out offset = out_of_parts out offset
  read_parts source (x ∷ xs) out offset = elim (visit source x out offset) [
    | stopped out' fault ↦ (out', fault)
    | onward source' out' offset' ↦ read_parts source' xs out' offset'
  ]

  abbrev pub read_from : List Extent → ℕ → Bytes × Option Fault
  read_from [] offset = ([], some no_part)
  read_from (x ∷ xs) offset = read_parts none (x ∷ xs) [] offset

-- `ReadAt` into a destination of `wanted` bytes: what stands in it, and the error.
unfoldable pub read_at :
    (ObjectRef → ℕ → ℕ → Answer) → (Checkpoint → ℕ → Bool) → View → ℕ → ℤ → Bytes × Option Fault
read_at read_object is_cancelled v wanted offset =
    if is_negative offset
    then ([], some negative_offset)
    else if wanted == 0
    then ([], none)
    else if is_cancelled entering 0
    then ([], some cancelled)
    else if leb (view_size v) (pos_part offset)
    then ([], some end_of_file)
    else read_from read_object is_cancelled (view_size v) wanted
        (search (pos_part offset) (extents 0 v.manifest.parts v.ends)) (pos_part offset)
