-- ===== src/Vfs/Session/Overwrites.antt =====
-- What `WriteAt` and `Truncate` do, on every branch.
use codexfold.Prelude.{
  ℕ, ◌≡◌, refl, sym, ap, ◌∙◌, Option, none, some, Outcome, ok, err, take, Bool-cases, inl, inr,
}
use codexfold.Prelude.Bytes.{Bytes}
use codexfold.Prelude.Int.{ℤ, pos_part, is_negative}
use codexfold.Vfs.Prefixes.{take-IsPrefix, take-IsPrefix_eq}
use codexfold.Vfs.Session.State.{
  Session, Host, Trouble, visible, contents, open_target, writer_closed, negative_offset,
}
use codexfold.Vfs.Session.Copying.{ensure_backing}
use codexfold.Vfs.Session.Writers.{
  WriteHandle, Reply, refuse, overwrite, write_found, write_over, on_backing, write_at,
}
use codexfold.Vfs.Session.Copied.{CollisionFree}
use codexfold.Vfs.Session.Kept.{Ends, IsApart, Kept, Kept-refl, Kept-trans}
use codexfold.Vfs.Session.Unseen.{Settled, Backed}
use codexfold.Vfs.Session.Backing.{IsServed, ensure_backing-Ends}
use codexfold.Vfs.Session.Edits.{backing_write, backing_write-visible, backing_write-Kept}

-- A method that turns the bytes that the session shows into `target` of its reply.
pub record Turns (base : Bytes) (target : Reply → Bytes) (s : Session) (r : Reply) : Type 0 where
  pub seen : visible base r.session ≡ target r
  pub kept : Kept s r.session
  pub apart : IsApart r.session

pub refused-Turns :
    (base : Bytes) (target : Reply → Bytes) (s t : Session) (e : Trouble) (h : WriteHandle)
    → Settled base (visible base s) s t
    → target (refuse e h t) ≡ visible base s
    → Turns base target s (refuse e h t)
refused-Turns base target s t e h settled same = record {
  seen = settled.same ∙ sym same;
  kept = settled.kept;
  apart = settled.apart;
}

-- A method that goes on with the backing file.
pub on_backing-Turns :
    (base : Bytes) (target : Reply → Bytes) (s : Session) (f : Bytes → Session → Reply)
    (h : WriteHandle) (r : Outcome Trouble Bytes × Session)
    → ((e : Trouble) (t : Session) → target (refuse e h t) ≡ visible base s)
    → ((p : Bytes) (t : Session) → Backed base (visible base s) s p t → Turns base target s (f p t))
    → Ends (Settled base (visible base s) s) (λ p t. Backed base (visible base s) s p t) r
    → Turns base target s (on_backing f h r)
on_backing-Turns base target s f h (ok p, t) refused goes_on ends = goes_on p t ends
on_backing-Turns base target s f h (err e, t) refused goes_on ends =
    refused-Turns base target s t e h ends (refused e t)

pub stays : (base : Bytes) (s : Session) → IsApart s → Settled base (visible base s) s s
stays base s apart = record { kept = Kept-refl s; apart = apart; delta_same = refl; same = refl }

-- What a write into the backing file makes of the session.
pub backing_write-Turns :
    (base path bytes : Bytes) (target : Reply → Bytes) (s t : Session) (count : ℕ)
    (failure : Option Trouble) (h : WriteHandle)
    → Backed base (visible base s) s path t
    → target (record {
      count = count;
      failure = failure;
      handle = h;
      session = backing_write path bytes t;
    })
      ≡ bytes
    → Turns base target s (record {
      count = count;
      failure = failure;
      handle = h;
      session = backing_write path bytes t;
    })
backing_write-Turns base path bytes target s t count failure h b e = record {
  seen = backing_write-visible base path bytes t b.in_use ∙ sym e;
  kept =
      Kept-trans s t _ b.settled.kept
        (backing_write-Kept base path bytes t b.in_use b.settled.apart);
  apart = record { names = b.settled.apart.names; backing = b.settled.apart.backing };
}

abbrev pub overwritten : Bytes → Bytes → ℕ → Session → Reply → Bytes
overwritten base more offset s r = overwrite offset (take r.count more) (visible base s)

module _ (host : Host) (base more : Bytes) (offset : ℕ) (h : WriteHandle) (s : Session) where
  write_found-Turns :
      (path : Bytes) (t : Session) (o : Option Bytes)
      → t.files path ≡ o
      → Backed base (visible base s) s path t
      → Turns base (overwritten base more offset s) s (write_found host offset more h path t o)
  unfolding write_found overwrite
  write_found-Turns path t none there b = refused-Turns base _ s t _ h b.settled refl
  write_found-Turns path t (some bytes) there b =
      let n = (host.writes more).0 in
      let same : bytes ≡ visible base s = ap contents (sym there) ∙ b.filled in
      elim (Bool-cases (host.fails open_target)) [
        | inl bad ↦ rw bad (refused-Turns base _ s t _ h b.settled refl)
        | inr fine ↦ rw fine (
            backing_write-Turns base path _ _ s t _ _ _ b (
              ap (λ m. overwrite offset m (visible base s))
                (take-IsPrefix_eq (take n more) more (take-IsPrefix n more))
              ∙ ap (overwrite offset (take n more)) (sym same)))
      ]

-- `WriteAt` puts as many bytes as it counts over what the session shows at the offset, whatever
-- fails on the way, and changes nothing else that is seen; with nothing counted all stays. The
-- session stands on the file that the host serves, no two contents have one hash, and no path of a
-- backing file is that of the delta.
pub write_at-Turns :
    (host : Host) (base more : Bytes) (offset : ℤ) (h : WriteHandle) (s : Session)
    → IsServed host base s
    → CollisionFree host
    → IsApart s
    → Turns base (overwritten base more (pos_part offset) s) s (write_at host more offset h s)
unfolding write_at overwrite
write_at-Turns host base more offset h s served collision_free apart =
    let refused = λ (e : Trouble).
      refused-Turns base (overwritten base more (pos_part offset) s) s s e h (stays base s apart)
        refl in
    elim (Bool-cases h.closed) [
      | inl closed ↦ simp closed (refused writer_closed)
      | inr still ↦ elim (Bool-cases (is_negative offset)) [
        | inl bad ↦ simp (still, bad) (refused negative_offset)
        | inr fine ↦
            simp (still, fine)
              (on_backing-Turns base (overwritten base more (pos_part offset) s) s
                (write_over host (pos_part offset) more h) h (ensure_backing host s) (λ e t. refl)
                (λ p t b.
                  write_found-Turns host base more (pos_part offset) h s p t (t.files p) refl b)
                (ensure_backing-Ends host base s served collision_free apart))
      ]
    ]
