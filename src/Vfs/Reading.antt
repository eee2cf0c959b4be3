-- ===== src/Vfs/Reading.antt =====
-- What `ReadAt` reads of a view that `NewView` accepts.
use codexfold.Prelude.{
  take-nil, drop-all, ℕ, ◌+◌, ◌-◌, ◌≤◌, ◌<◌, ◌≡◌, refl, sym, ap, subst, ◌∙◌, Bool, true, false, not,
  ◌||◌, List, [], ◌∷◌, ◌++◌, none, ok, ltb, leb, ◌==◌, length, take, drop, arith, length-append,
  drop-drop, drop-append, >>=-eq_ok, ok-injective, ◌>>=◌, Bool-cases, inl, inr, All,
}
use codexfold.Prelude.Int.{ℤ, pos, pos_part, max_int64, eq_ℤ, eq_ℤ→eq, ltb_ℤ}
use codexfold.Prelude.Bytes.{Bytes}
use codexfold.Fold.Manifest.{ObjectRef, Part, Manifest}
use codexfold.Vfs.View.{raw, Extent, Answer, Checkpoint, finished}
use codexfold.Vfs.View.{
  View, view_size, end_of_part, ends_of, check_total, new_view, extents, search, read_at, read_from,
  entering,
}
use codexfold.Fold.Manifest.{supported_part, supported_manifest}
use codexfold.Vfs.Chain.{Store, content, Serves, NeverCancelled, bytes_of, Chain}
use codexfold.Vfs.Loop.{read_parts-exact}

-- The file that a list of parts makes up.
abbrev pub file_of : Store → List Part → Bytes
file_of store [] = []
file_of store (part ∷ parts) = content store part.object ++ file_of store parts

-- The store has the object of each part, at its size.
abbrev pub Stored : Store → Part → Type 0
Stored store part = length (content store part.object) ≡ raw part

positive-raw :
    (part : Part)
    → (not (length part.object.sha256 == 64) || not (ltb_ℤ (pos 0) part.object.raw_bytes)) ≡ false
    → 0 < raw part
positive-raw part h = ground arith

end_of_part-ok :
    (version : ℤ) (start : ℕ) (part : Part) {stop : ℕ}
    → end_of_part version start part ≡ ok stop
    → (stop ≡ start + raw part) × (0 < raw part)
unfolding end_of_part
end_of_part-ok version start part h = elim (Bool-cases (not (supported_part version part.kind))) [
  | inl bad ↦ cc (rw bad at h)
  | inr known ↦
      elim (Bool-cases
        (not (length part.object.sha256 == 64) || not (ltb_ℤ (pos 0) part.object.raw_bytes))) [
          | inl bad ↦ cc (rw (known, bad) at h)
          | inr valid ↦ elim (Bool-cases (ltb (max_int64 - start) (raw part))) [
            | inl bad ↦ cc (rw (known, valid, bad) at h)
            | inr small ↦
                (sym (ok-injective (rw (known, valid, small) at h)), positive-raw part valid)
          ]
        ]
]

-- The parts as `NewView` lays them out.
abbrev Laid : Store → ℕ → List Part → List ℕ × ℕ → Type 0
Laid store start parts r =
    Chain store start (extents start parts (r.0)) (r.1)
    × (bytes_of store (extents start parts (r.0)) ≡ file_of store parts)

ends_of-Laid :
    (store : Store) (version : ℤ) (start : ℕ) (parts : List Part) {r : List ℕ × ℕ}
    → All (Stored store) parts
    → ends_of version start parts ≡ ok r
    → Laid store start parts r
unfolding ends_of extents
ends_of-Laid store version start [] stored h =
    subst (Laid store start []) (ok-injective h) (refl, refl)
ends_of-Laid store version start (part ∷ parts) (has, stored) h =
    let (stop, e, k) =
      >>=-eq_ok (end_of_part version start part)
        (λ n. ends_of version n parts >>= λ q. ok (n ∷ q.0, q.1)) h in
    let (q, f, g) = >>=-eq_ok (ends_of version stop parts) (λ q. ok (stop ∷ q.0, q.1)) k in
    let (stop_is, some_bytes) = end_of_part-ok version start part e in
    let (chain, same) = ends_of-Laid store version stop parts stored f in
    subst (Laid store start (part ∷ parts)) (ok-injective g)
      ((refl, stop_is, some_bytes, has, chain), ap (◌++◌ (content store part.object)) same)

-- What `search` finds, of parts that begin at `start`.
record Found (store : Store) (size start : ℕ) (xs : List Extent) (offset : ℕ) : Type 0 where
  first : Extent
  others : List Extent
  search_is : search offset xs ≡ first ∷ others
  chain : Chain store first.start (first ∷ others) size
  above : first.start ≤ offset
  below : offset < first.stop
  same_bytes :
      drop (offset - first.start) (bytes_of store (first ∷ others))
      ≡ drop (offset - start) (bytes_of store xs)

drop-past : (n k : ℕ) (xs ys : Bytes) → length xs ≡ n → drop (n + k) (xs ++ ys) ≡ drop k ys
drop-past n k xs ys h =
    rw (← h) (sym (drop-drop (length xs) k (xs ++ ys)) ∙ ap (drop k) (drop-append xs ys))

search-Found :
    (store : Store) (size start : ℕ) (xs : List Extent) (offset : ℕ)
    → Chain store start xs size
    → start ≤ offset
    → offset < size
    → Found store size start xs offset
unfolding search
search-Found store size start [] offset c above below = absurd (omega arith)
search-Found store size start (x ∷ xs) offset (from, to, some_bytes, has, rest) above below =
    elim (Bool-cases (ltb offset x.stop)) [
      | inl here ↦ record {
        first = x;
        others = xs;
        search_is = rw here refl;
        chain = (refl, to ∙ ap (λ n. n + raw x.part) (sym from), some_bytes, has, rest);
        above = omega arith;
        below = ground arith;
        same_bytes = rw from refl;
      }
      | inr later ↦
          let f = search-Found store size x.stop xs offset rest (ground arith) below in
          let past : offset - start ≡ raw x.part + (offset - x.stop) = ground arith in
          record {
            first = f.first;
            others = f.others;
            search_is = rw (later, f.search_is) refl;
            chain = f.chain;
            above = f.above;
            below = f.below;
            same_bytes =
                f.same_bytes
                ∙ sym (
                    rw past (
                      drop-past (raw x.part) (offset - x.stop) (content store x.part.object)
                        (bytes_of store xs) has));
          }
    ]

-- The parts of a view, laid out, make up the file of the manifest.
abbrev LaidView : Store → Manifest → View → Type 0
LaidView store manifest v =
    Chain store 0 (extents 0 v.manifest.parts v.ends) (view_size v)
    × (bytes_of store (extents 0 v.manifest.parts v.ends) ≡ file_of store manifest.parts)

new_view-LaidView :
    (store : Store) (manifest : Manifest) {v : View}
    → All (Stored store) manifest.parts
    → new_view manifest ≡ ok v
    → LaidView store manifest v
unfolding new_view check_total
new_view-LaidView store manifest {v} stored h =
    elim (Bool-cases (not (supported_manifest manifest.version manifest.kind))) [
      | inl bad ↦ cc (rw bad at h)
      | inr known ↦
          let (r, e, k) =
            >>=-eq_ok (ends_of manifest.version 0 manifest.parts) (check_total manifest)
              (rw known at h) in
          elim (Bool-cases (eq_ℤ (pos (r.1)) manifest.source.bytes)) [
            | inr different ↦ cc (rw different at k)
            | inl same ↦
                let size_is : r.1 ≡ pos_part manifest.source.bytes =
                  ap pos_part (eq_ℤ→eq (pos (r.1)) manifest.source.bytes same) in
                let laid = ends_of-Laid store manifest.version 0 manifest.parts stored e in
                subst (LaidView store manifest) (ok-injective (rw same at k))
                  (subst (λ n. Laid store 0 manifest.parts (r.0, n)) size_is laid)
          ]
    ]

length-bytes_of :
    (store : Store) (start : ℕ) (xs : List Extent) (size : ℕ)
    → Chain store start xs size
    → start + length (bytes_of store xs) ≡ size
length-bytes_of store start [] size c = omega arith
length-bytes_of store start (x ∷ xs) size (from, to, some_bytes, has, rest) = omega (
  arith,
  length-bytes_of store x.stop xs size rest,
  length-append (content store x.part.object) (bytes_of store xs),
)

module _ (store : Store) (read_object : ObjectRef → ℕ → ℕ → Answer)
    (is_cancelled : Checkpoint → ℕ → Bool) where
  -- A read of parts that are laid out, at an offset within the file.
  read_from-exact :
      (xs : List Extent) (size wanted offset : ℕ)
      → Serves store read_object
      → NeverCancelled is_cancelled
      → Chain store 0 xs size
      → offset < size
      → read_from read_object is_cancelled size wanted (search offset xs) offset
        ≡ finished read_object is_cancelled size wanted
            (take wanted (drop offset (bytes_of store xs)))
  read_from-exact xs size wanted offset serves never chain below =
      let f = search-Found store size 0 xs offset chain (omega arith) below in
      let all : wanted - 0 ≡ wanted = omega arith in
      let from_start : offset - 0 ≡ offset = omega arith in
      rw f.search_is (
        read_parts-exact read_object is_cancelled size wanted store serves never
          (f.first ∷ f.others) none f.first.start [] offset f.chain
          (record { filled = omega arith; placed = inr (f.above, f.below); fits = tt })
        ∙ ap (finished read_object is_cancelled size wanted) (
            ap (take (wanted - 0)) f.same_bytes
            ∙ ap (λ n. take n (drop (offset - 0) (bytes_of store xs))) all
            ∙ ap (λ n. take wanted (drop n (bytes_of store xs))) from_start))

-- With a reader that serves a store which has the manifest's objects at their sizes, a context
-- that is not cancelled, and a view that `NewView` accepts, `ReadAt` at an offset that is not
-- negative puts the bytes of the file from there on into the destination, and reports the end of
-- the file exactly where they are too few, however many parts they are in and repeat.
pub read_at-exact :
    (store : Store) (read_object : ObjectRef → ℕ → ℕ → Answer)
    (is_cancelled : Checkpoint → ℕ → Bool) (manifest : Manifest) (wanted offset : ℕ) {v : View}
    → Serves store read_object
    → NeverCancelled is_cancelled
    → All (Stored store) manifest.parts
    → new_view manifest ≡ ok v
    → read_at read_object is_cancelled v wanted (pos offset)
      ≡ finished read_object is_cancelled
          (view_size v)
          wanted
          (take wanted (drop offset (file_of store manifest.parts)))
unfolding read_at finished
read_at-exact store read_object is_cancelled manifest wanted offset {v} serves never stored h =
    let (chain, bytes) = new_view-LaidView store manifest stored h in
    let size = view_size v in
    let file = file_of store manifest.parts in
    let length_is : length file ≡ size =
      omega (arith, length-bytes_of store 0 _ size chain, ap length bytes) in
    elim (Bool-cases (wanted == 0)) [
      | inl nothing ↦ let e : wanted ≡ 0 = ground arith in rw (nothing, e) refl
      | inr something ↦ elim (Bool-cases (leb size offset)) [
        | inl past ↦
            let more : ltb 0 wanted ≡ true = ground arith in
            let none_left = drop-all offset file (ground arith) in
            rw (something, never entering 0, past, none_left, take-nil wanted, more) refl
        | inr within ↦
            rw (something, never entering 0, within, ← bytes)
              (read_from-exact store read_object is_cancelled _ size wanted offset serves never
                chain (ground arith))
      ]
    ]
