-- ===== src/Vfs/Session/Truncates.antt =====
-- What `Truncate` does, on every branch.
use codexfold.Prelude.{
  ℕ, ◌-◌, ◌≡◌, refl, sym, ap, subst, ◌∙◌, Option, none, some, Outcome, ok, err, ◌==◌, length, arith,
  append-nil, Bool-cases, inl, inr, length-append, take-all, ok-injective,
}
use codexfold.Prelude.Bytes.{Bytes}
use codexfold.Prelude.Int.{ℤ, pos_part, is_negative}
use codexfold.Vfs.Session.State.{
  Session, Host, Files, Trouble, path_in_use, visible, visible_size, size_of, shown, bytes_at,
  contents, writer_closed, resize_target, negative_size,
}
use codexfold.Vfs.Session.Copying.{ensure_backing}
use codexfold.Vfs.Session.Writers.{
  WriteHandle, Reply, resize, resize_found, resize_file, truncate_from, truncate,
}
use codexfold.Vfs.Session.Copied.{CollisionFree}
use codexfold.Vfs.Session.Kept.{IsApart, Kept-refl}
use codexfold.Vfs.Session.Unseen.{Backed}
use codexfold.Vfs.Session.Backing.{IsServed, ensure_backing-Ends}
use codexfold.Vfs.Session.Overwrites.{
  Turns, refused-Turns, on_backing-Turns, stays, backing_write-Turns,
}

-- With no error the bytes have the size that was asked for, and with one they stay.
abbrev pub resized : Bytes → ℕ → Session → Option Trouble → Bytes
resized base size s none = resize size (visible base s)
resized base size s (some e) = visible base s

abbrev pub truncated : Bytes → ℕ → Session → Reply → Bytes
truncated base size s r = resized base size s r.failure

resize-all : (bytes : Bytes) → resize (length bytes) bytes ≡ bytes
unfolding resize
resize-all bytes =
    let e : length bytes - length bytes ≡ 0 = omega arith in
    let whole = take-all (length bytes) bytes (omega arith) in rw (e, whole, append-nil bytes) refl

shown_size :
    (base delta_path : Bytes) (files : Files) (base_bytes n : ℕ) (backing o : Option Bytes)
    → length base ≡ base_bytes
    → files (path_in_use delta_path backing) ≡ o
    → size_of base_bytes backing o ≡ ok n
    → length (shown base delta_path files backing) ≡ n
shown_size base delta_path files base_bytes n backing none size there h = cc
shown_size base delta_path files base_bytes n none (some bytes) size there h = omega (
  arith,
  length-append base (bytes_at files delta_path),
  ap (λ x. length (contents x)) there,
  ok-injective h,
)
shown_size base delta_path files base_bytes n (some path) (some bytes) size there h =
    ap (λ x. length (contents x)) there ∙ ok-injective h

module _ (host : Host) (base : Bytes) (size : ℕ) (h : WriteHandle) (s : Session) where
  resize_found-Turns :
      (path : Bytes) (t : Session) (o : Option Bytes)
      → t.files path ≡ o
      → Backed base (visible base s) s path t
      → Turns base (truncated base size s) s (resize_found host size h path t o)
  unfolding resize_found
  resize_found-Turns path t none there b = refused-Turns base _ s t _ h b.settled refl
  resize_found-Turns path t (some bytes) there b =
      let same : bytes ≡ visible base s = ap contents (sym there) ∙ b.filled in
      elim (Bool-cases (host.fails resize_target)) [
        | inl bad ↦ rw bad (refused-Turns base _ s t _ h b.settled refl)
        | inr fine ↦
            rw fine (backing_write-Turns base path _ _ s t _ _ _ b (ap (resize size) (sym same)))
      ]

  module _ (served : IsServed host base s) (collision_free : CollisionFree host)
      (apart : IsApart s) where
    truncate_from-Turns :
        (o : Outcome Trouble ℕ)
        → visible_size s ≡ o
        → Turns base (truncated base size s) s (truncate_from host size h s o)
    unfolding truncate_from visible_size visible
    truncate_from-Turns (err e) size_is = refused-Turns base _ s s e h (stays base s apart) refl
    truncate_from-Turns (ok current) size_is = elim (Bool-cases (size == current)) [
      | inl same ↦
          let e : length (visible base s) ≡ size =
            shown_size base s.state.delta_path s.files s.state.base_bytes current
              s.state.backing_path _ served.base_size refl size_is
            ∙ ground arith in
          rw same (record {
            seen =
                subst (λ n. visible base s ≡ resize n (visible base s)) e
                  (sym (resize-all (visible base s)));
            kept = Kept-refl s;
            apart = apart;
          })
      | inr other ↦ rw other (
          on_backing-Turns base (truncated base size s) s (resize_file host size h) h
            (ensure_backing host s) (λ e t. refl)
            (λ p t b. resize_found-Turns p t (t.files p) refl b)
            (ensure_backing-Ends host base s served collision_free apart))
    ]

-- `Truncate` cuts what the session shows to the size, or fills it up with zeros, where it reports
-- no error, also where the session has that size already and nothing is copied; and where it
-- reports one, what is shown stays. The session stands on the file that the host serves, no two
-- contents have one hash, and no path of a backing file is that of the delta.
pub truncate-Turns :
    (host : Host) (base : Bytes) (size : ℤ) (h : WriteHandle) (s : Session)
    → IsServed host base s
    → CollisionFree host
    → IsApart s
    → Turns base (truncated base (pos_part size) s) s (truncate host size h s)
unfolding truncate
truncate-Turns host base size h s served collision_free apart =
    let refused = λ (e : Trouble).
      refused-Turns base (truncated base (pos_part size) s) s s e h (stays base s apart) refl in
    elim (Bool-cases h.closed) [
      | inl closed ↦ simp closed (refused writer_closed)
      | inr still ↦ elim (Bool-cases (is_negative size)) [
        | inl bad ↦ simp (still, bad) (refused negative_size)
        | inr fine ↦
            simp (still, fine)
              (truncate_from-Turns host base (pos_part size) h s served collision_free apart
                (visible_size s) refl)
      ]
    ]
