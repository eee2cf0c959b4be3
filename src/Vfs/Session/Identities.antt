-- ===== src/Vfs/Session/Identities.antt =====
-- WriteAt and Truncate keep the hash of a writer in step with the files.
use codexfold.Prelude.{
  ℕ, ◌≡◌, ◌⊎◌, refl, sym, ap, subst, ◌∙◌, [], Option, none, some, Outcome, ok, err, ltb, ◌==◌,
  length, take, arith, Bool-cases, inl, inr,
}
use codexfold.Prelude.Bytes.{Bytes, bytes_eq, bytes_eq→eq}
use codexfold.Prelude.Int.{ℤ, pos_part, is_negative}
use codexfold.Vfs.Session.State.{
  Session, Host, Files, Trouble, bytes_at, contents, put, visible, visible_size, open_target,
  resize_target,
}
use codexfold.Vfs.Session.Copying.{ensure_backing, ensure_on}
use codexfold.Vfs.Session.Writers.{
  WriteHandle, Reply, overwrite, spoil, write_found, write_over, on_backing, write_at, resize_found,
  resize_file, truncate_from, truncate,
}
use codexfold.Vfs.Session.Kept.{Ends, IsApart}
use codexfold.Vfs.Session.Unseen.{Settled, Backed}
use codexfold.Vfs.Session.Backing.{ensure_backing-Ends}
use codexfold.Vfs.Session.Steps.{IsSuited}
use codexfold.Vfs.Session.Hashes.{Fits, invalid-Fits, no_bytes}

Settled-end :
    (base seen : Bytes) (s : Session) (r : Outcome Trouble Bytes × Session)
    → Ends (Settled base seen s) (λ p t. Backed base seen s p t) r
    → Settled base seen s (r.1)
Settled-end base seen s (ok p, t) h = h.settled
Settled-end base seen s (err e, t) h = h

-- A write of what is there changes no file.
put-noop :
    (path bytes : Bytes) (files : Files) (q : Bytes)
    → files path ≡ some bytes
    → bytes_at (put path bytes files) q ≡ bytes_at files q
put-noop path bytes files q there = elim (Bool-cases (bytes_eq path q)) [
  | inl same ↦ rw same (ap contents (sym there) ∙ ap (bytes_at files) (bytes_eq→eq path q same))
  | inr other ↦ rw other refl
]

-- The same files, as far as the hash goes, and the same state.
pub moved-Fits :
    (h : WriteHandle) (s t : Session)
    → ((q : Bytes) → bytes_at t.files q ≡ bytes_at s.files q)
    → t.state ≡ s.state
    → Fits h s
    → Fits h t
moved-Fits h s t files state fits = record {
  hashed = λ v. fits.hashed v ∙ sym (files h.append_hash_path);
  counted = fits.counted;
  known = λ v.
      subst (λ x. (h.append_hash_path ≡ x.delta_path) ⊎ (x.backing_path ≡ some h.append_hash_path))
        (sym state) (fits.known v);
}

module _ (base : Bytes) (host : Host) (h : WriteHandle) (s : Session)
    (suited : IsSuited base host s) (apart : IsApart s) (fits : Fits h s) where
  delta-Fits :
      (t : Session)
      → Settled base (visible base s) s t
      → h.append_hash_path ≡ s.state.delta_path
      → Fits h t
  delta-Fits t settled at = record {
    hashed = λ v.
        fits.hashed v
        ∙ ap (bytes_at s.files) at
        ∙ sym settled.delta_same
        ∙ ap (bytes_at t.files) (settled.kept.delta_path ∙ sym at);
    counted = fits.counted;
    known = λ v. inl (at ∙ sym settled.kept.delta_path);
  }

  ensure_backing-Fits : Fits h ((ensure_backing host s).1)
  unfolding ensure_backing
  ensure_backing-Fits = elim (Bool-cases h.append_hash_valid) [
    | inr bad ↦ invalid-Fits h _ bad
    | inl valid ↦ elim (fits.known valid) [
      | inl at ↦
          delta-Fits _
            (Settled-end base (visible base s) s _
              (ensure_backing-Ends host base s suited.served suited.collision_free apart))
            at
      | inr in_use ↦ subst (λ b. Fits h ((ensure_on host b s).1)) (sym in_use) fits
    ]
  ]

  abbrev FitsReply : Reply → Type 0
  FitsReply r = Fits r.handle r.session

  on_backing-Fits :
      (f : Bytes → Session → Reply) (r : Outcome Trouble Bytes × Session)
      → Fits h (r.1)
      → ((p : Bytes) (t : Session) → Fits h t → FitsReply (f p t))
      → FitsReply (on_backing f h r)
  on_backing-Fits f (ok p, t) k next = next p t k
  on_backing-Fits f (err e, t) k next = k

  write_found-Fits :
      (offset : ℕ) (more path : Bytes) (t : Session) (o : Option Bytes)
      → t.files path ≡ o
      → Fits h t
      → FitsReply (write_found host offset more h path t o)
  unfolding write_found overwrite
  write_found-Fits offset more path t none there k = k
  write_found-Fits offset more path t (some bytes) there k =
      let arrived = take ((host.writes more).0) more in
      elim (Bool-cases (host.fails open_target)) [
        | inl bad ↦ rw bad k
        | inr fine ↦ elim (Bool-cases (ltb 0 (length arrived))) [
          | inl some_bytes ↦ rw fine (rw some_bytes (invalid-Fits _ _ refl))
          | inr nothing ↦
              let e : arrived ≡ [] = no_bytes arrived (ground arith) in
              rw fine (
                subst
                  (λ a.
                    Fits (spoil a h)
                      (record t { files = put path (overwrite offset a bytes) t.files }))
                  (sym e) (moved-Fits h t _ (λ q. put-noop path bytes t.files q there) refl k))
        ]
      ]

  resize_found-Fits :
      (size : ℕ) (path : Bytes) (t : Session) (o : Option Bytes)
      → Fits h t
      → FitsReply (resize_found host size h path t o)
  unfolding resize_found
  resize_found-Fits size path t none k = k
  resize_found-Fits size path t (some bytes) k = elim (Bool-cases (host.fails resize_target)) [
    | inl bad ↦ rw bad k
    | inr fine ↦ rw fine (invalid-Fits _ _ refl)
  ]

  pub write_at-Fits : (more : Bytes) (offset : ℤ) → FitsReply (write_at host more offset h s)
  unfolding write_at
  write_at-Fits more offset = elim (Bool-cases h.closed) [
    | inl closed ↦ simp closed fits
    | inr still ↦ elim (Bool-cases (is_negative offset)) [
      | inl bad ↦ simp (still, bad) fits
      | inr fine ↦
          simp (still, fine)
            (on_backing-Fits (write_over host (pos_part offset) more h) _ ensure_backing-Fits
              (λ p t k. write_found-Fits (pos_part offset) more p t (t.files p) refl k))
    ]
  ]

  truncate_from-Fits :
      (size : ℕ) (o : Outcome Trouble ℕ) → FitsReply (truncate_from host size h s o)
  unfolding truncate_from
  truncate_from-Fits size (err e) = fits
  truncate_from-Fits size (ok n) = elim (Bool-cases (size == n)) [
    | inl same ↦ rw same fits
    | inr other ↦ rw other (
        on_backing-Fits (resize_file host size h) _ ensure_backing-Fits
          (λ p t k. resize_found-Fits size p t (t.files p) k))
  ]

  pub truncate-Fits : (size : ℤ) → FitsReply (truncate host size h s)
  unfolding truncate
  truncate-Fits size = elim (Bool-cases h.closed) [
    | inl closed ↦ simp closed fits
    | inr still ↦ elim (Bool-cases (is_negative size)) [
      | inl bad ↦ simp (still, bad) fits
      | inr fine ↦ simp (still, fine) (truncate_from-Fits (pos_part size) (visible_size s))
    ]
  ]
