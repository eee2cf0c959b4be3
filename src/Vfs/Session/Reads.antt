-- ===== src/Vfs/Session/Reads.antt =====
-- What the readers of a session read.
use codexfold.Prelude.{
  ℕ, ◌+◌, ◌-◌, ◌≤◌, ◌≡◌, refl, sym, ap, subst, ◌∙◌, false, not, ◌&&◌, [], ◌++◌, Option, none, some,
  some, ltb, leb, ◌==◌, length, take, drop, min, arith, length-take, length-drop, Bool-cases, inl,
  inr, take-all, if◌then◌else◌,
}
use codexfold.Prelude.Bytes.{Bytes}
use codexfold.Prelude.Int.{pos}
use codexfold.Vfs.View.{View, read_at, Fault}
use codexfold.Vfs.Slices.{drop-append_le}
use codexfold.Vfs.Prefixes.{
  IsPrefix, IsPrefix-refl, take-IsPrefix, IsPrefix-trans, append-IsPrefix, drop-append_ge,
  take-drop-take,
}
use codexfold.Vfs.Session.State.{Host, Files, bytes_at, context}
use codexfold.Vfs.Session.Readers.{
  ReadHandle, read_file, read_own, broken_off, is_tolerable, filled, take_part, read_backing,
  read_delta, read_base, read_handle,
}

-- The view is one of the file `base`, which each read of it delivers.
abbrev pub IsBased : Host → View → Bytes → Type 0
IsBased host view base =
    (wanted offset : ℕ)
    → read_at host.read_object host.is_cancelled view wanted (pos offset)
      ≡ filled wanted (take wanted (drop offset base))

-- What the files of the handle hold, up to the sizes that they had when it was opened.
unfoldable pub handle_bytes : Bytes → Files → ReadHandle → Bytes
handle_bytes base files h =
    if h.backing
    then take h.size (bytes_at files h.path)
    else base ++ take h.delta_bytes (bytes_at files h.path)

-- The handle is open, and the bytes of the handle are still in its files.
pub record IsReadable (host : Host) (base : Bytes) (files : Files) (h : ReadHandle) : Type 0 where
  pub unclosed : h.closed ≡ false
  pub based : IsBased host h.base base
  pub base_size : length base ≡ h.base_bytes
  pub whole : h.backing ≡ false → h.size ≡ h.base_bytes + h.delta_bytes
  pub there : h.backing ≡ false → h.delta_bytes ≤ length (bytes_at files h.path)

broken_off-IsPrefix :
    (need offset : ℕ) (found : Bytes) (r : Option ℕ)
    → IsPrefix ((broken_off need offset found r).0) found
unfolding broken_off
broken_off-IsPrefix need offset found none = IsPrefix-refl found
broken_off-IsPrefix need offset found (some n) = take-IsPrefix n found

read_file-IsPrefix :
    (host : Host) (bytes : Bytes) (need offset : ℕ)
    → IsPrefix ((read_file host bytes need offset).0) (take need (drop offset bytes))
unfolding read_file
read_file-IsPrefix host bytes need offset = broken_off-IsPrefix need offset _ (host.reads offset)

read_own-IsPrefix :
    (host : Host) (files : Files) (h : ReadHandle) (need offset : ℕ)
    → IsPrefix
        ((read_own host files h need offset).0)
        (take need (drop offset (bytes_at files h.path)))
unfolding read_own
read_own-IsPrefix host files h need offset = elim (Bool-cases h.closed) [
  | inl closed ↦ rw closed (_, refl)
  | inr still ↦ rw still (read_file-IsPrefix host (bytes_at files h.path) need offset)
]

take_part-IsPrefix :
    (out : Bytes) (need : ℕ) (go_on : Bytes → Bytes × Option Fault) (r : Bytes × Option Fault)
    (target : Bytes)
    → IsPrefix (out ++ r.0) target
    → (length (r.0) ≡ need → IsPrefix ((go_on (out ++ r.0)).0) target)
    → IsPrefix ((take_part out need go_on r).0) target
unfolding take_part
take_part-IsPrefix out need go_on (found, failure) target here next =
    elim (Bool-cases (not (length found == need))) [
      | inl short ↦ rw short here
      | inr full ↦ elim (Bool-cases (not (is_tolerable failure))) [
        | inl bad ↦ rw (full, bad) here
        | inr fine ↦ rw (full, fine) (next (ground arith))
      ]
    ]

module _ (host : Host) (base : Bytes) (files : Files) (h : ReadHandle)
    (readable : IsReadable host base files h) (delta_only : h.backing ≡ false) (wanted : ℕ) where
  abbrev delta : Bytes
  delta = take h.delta_bytes (bytes_at files h.path)

  -- A read of the delta behind `out`.
  read_delta-IsPrefix :
      (offset : ℕ) (out : Bytes)
      → h.base_bytes ≤ offset
      → IsPrefix
          ((read_delta host files h wanted offset out).0)
          (out ++ drop (offset - h.base_bytes) delta)
  unfolding read_delta
  read_delta-IsPrefix offset out above =
      let inside = offset - h.base_bytes in
      let need = min (wanted - length out) (h.delta_bytes - inside) in
      let r = read_own host files h need inside in
      elim (Bool-cases (ltb (length out) wanted && leb h.base_bytes offset && ltb offset h.size)) [
        | inr done ↦ rw done (drop inside delta, refl)
        | inl more ↦
            let within : inside + need ≤ h.delta_bytes =
              ground (arith, readable.whole delta_only) in
            let found : IsPrefix (r.0) (drop inside delta) =
              IsPrefix-trans _ (take need (drop inside delta)) _
                (subst (IsPrefix (r.0)) (sym (take-drop-take h.delta_bytes inside need _ within))
                  (read_own-IsPrefix host files h need inside))
                (take-IsPrefix need _) in
            let here = append-IsPrefix out _ _ found in
            rw more (take_part-IsPrefix out need (filled wanted) r _ here (λ e. here))
      ]

  pub read_delta_full :
      (offset : ℕ) (out : Bytes)
      → wanted ≤ length out
      → read_delta host files h wanted offset out ≡ filled wanted out
  unfolding read_delta
  read_delta_full offset out enough =
      let e : (ltb (length out) wanted && leb h.base_bytes offset && ltb offset h.size) ≡ false =
        ground arith in
      rw e refl

  -- The delta, behind as much of the base as is wanted of it.
  after_base :
      (offset need : ℕ)
      → need ≡ min wanted (h.base_bytes - offset)
      → offset ≤ h.base_bytes
      → IsPrefix
          ((read_delta host files h wanted (offset + need) (take need (drop offset base))).0)
          (drop offset base ++ delta)
  after_base offset need need_is within = elim (Bool-cases (leb (h.base_bytes - offset) wanted)) [
    | inl all ↦
        let some_base =
          take-all need (drop offset base)
            (ground (arith, length-drop offset base, readable.base_size)) in
        let end : (offset + need) - h.base_bytes ≡ 0 = ground arith in
        rw some_base (
          subst
            (λ k.
              IsPrefix ((read_delta host files h wanted (offset + need) (drop offset base)).0)
                (drop offset base ++ drop k delta))
            end (read_delta-IsPrefix (offset + need) (drop offset base) (ground arith)))
    | inr not_all ↦
        let found = take need (drop offset base) in
        let enough : wanted ≤ length found = ground (
          arith,
          length-take need (drop offset base),
          length-drop offset base,
          readable.base_size,
        ) in
        rw (read_delta_full (offset + need) found enough)
          (IsPrefix-trans found (drop offset base) _ (take-IsPrefix need _) (delta, refl))
  ]

  read_base-IsPrefix :
      (offset : ℕ)
      → IsPrefix ((read_base host files h wanted offset).0) (drop offset (base ++ delta))
  unfolding read_base
  read_base-IsPrefix offset =
      let need = min wanted (h.base_bytes - offset) in
      elim (Bool-cases (ltb offset h.base_bytes)) [
        | inl within ↦
            let found = take need (drop offset base) in
            rw
              (
                within,
                readable.based need offset,
                drop-append_le offset base delta (ground (arith, readable.base_size)),
              )
              (take_part-IsPrefix [] need (read_delta host files h wanted (offset + need))
                (filled need found) _
                (IsPrefix-trans found (drop offset base) _ (take-IsPrefix need _) (delta, refl))
                (λ e. after_base offset need refl (ground arith)))
        | inr past ↦
            let e = drop-append_ge offset base delta (ground (arith, readable.base_size)) in
            let f : drop (offset - length base) delta ≡ drop (offset - h.base_bytes) delta =
              ap (λ n. drop (offset - n) delta) readable.base_size in
            rw past (
              subst (IsPrefix ((read_delta host files h wanted offset []).0)) (sym (e ∙ f))
                (read_delta-IsPrefix offset [] (ground arith)))
      ]

read_backing-IsPrefix :
    (host : Host) (files : Files) (h : ReadHandle) (wanted offset : ℕ)
    → offset ≤ h.size
    → IsPrefix
        ((read_backing host files h wanted offset).0)
        (drop offset (take h.size (bytes_at files h.path)))
unfolding read_backing
read_backing-IsPrefix host files h wanted offset within =
    let need = min wanted (h.size - offset) in
    let bytes = bytes_at files h.path in
    let r = read_own host files h need offset in
    let here : IsPrefix (r.0) (drop offset (take h.size bytes)) =
      IsPrefix-trans _ (take need (drop offset (take h.size bytes))) _
        (subst (IsPrefix (r.0)) (sym (take-drop-take h.size offset need bytes (omega arith)))
          (read_own-IsPrefix host files h need offset))
        (take-IsPrefix need _) in
    elim (Bool-cases (not (is_tolerable (r.1)))) [ inl bad ↦ rw bad here | inr fine ↦ rw fine here ]

-- Whatever the host does, cancels and fails, a read of a handle whose base serves its file puts
-- only bytes of the handle's own content into the destination, in their places.
pub read_handle-IsPrefix :
    (host : Host) (base : Bytes) (files : Files) (h : ReadHandle) (wanted offset : ℕ)
    → IsReadable host base files h
    → IsPrefix
        ((read_handle host files h wanted (pos offset)).0)
        (drop offset (handle_bytes base files h))
unfolding read_handle handle_bytes
read_handle-IsPrefix host base files h wanted offset readable = elim (Bool-cases (wanted == 0)) [
  | inl none_wanted ↦ rw none_wanted (_, refl)
  | inr wants ↦ elim (Bool-cases (host.fails (context offset))) [
    | inl stopped ↦ rw (wants, stopped) (_, refl)
    | inr goes ↦ elim (Bool-cases (leb h.size offset)) [
      | inl past ↦ rw (wants, goes, past) (_, refl)
      | inr within ↦ elim (Bool-cases h.backing) [
        | inl backed ↦
            rw (wants, goes, within)
              (simp backed (read_backing-IsPrefix host files h wanted offset (ground arith)))
        | inr based ↦
            rw (wants, goes, within)
              (simp based (read_base-IsPrefix host base files h readable based wanted offset))
      ]
    ]
  ]
]
