-- ===== src/Vfs/Session/Backing.antt =====
-- The whole of the copy on write, with the reader that it opens and closes.
use codexfold.Prelude.{
  ◌≡◌, refl, sym, ap, subst, ◌∙◌, ◌++◌, Option, none, some, Outcome, ok, err, length, arith,
  take-all, length-append, inl, inr,
}
use codexfold.Prelude.Bytes.{Bytes}
use codexfold.Vfs.Session.State.{
  Session, Host, Trouble, active_path, visible, shown, bytes_at, contents, path_in_use,
}
use codexfold.Vfs.Session.Readers.{handle_on, handle_from, release_reader, close_reader}
use codexfold.Vfs.Session.Copying.{
  copy_out, publish_backing, copy_with, closing, copy_on_write, ensure_on, ensure_backing,
}
use codexfold.Vfs.Session.Reads.{IsBased, IsReadable, handle_bytes}
use codexfold.Vfs.Session.Copied.{CollisionFree, Copies, copy_out-Copies}
use codexfold.Vfs.Session.Kept.{Ends, IsApart, Kept-refl}
use codexfold.Vfs.Session.Unseen.{Settled, Backed, publish_backing-Ends}
use codexfold.Vfs.Session.Leases.{
  granted, counted, open_reader-Opens, release_reader-leases, release_reader-IsLeased,
  counted-leases, counted-IsLeased,
}

-- The session stands on the file `base`, which the host serves.
pub record IsServed (host : Host) (base : Bytes) (s : Session) : Type 0 where
  pub based : IsBased host s.view base
  pub base_size : length base ≡ s.state.base_bytes

module _ (host : Host) (base : Bytes) (s : Session) (served : IsServed host base s) where
  abbrev InUse : Option Bytes → Bytes → Type 0
  InUse backing bytes = s.files (path_in_use s.state.delta_path backing) ≡ some bytes

  pub handle_from-IsReadable :
      (backing : Option Bytes) (bytes : Bytes)
      → InUse backing bytes
      → IsReadable host base s.files (handle_from s bytes backing)
  handle_from-IsReadable none bytes there = record {
    unclosed = refl;
    based = served.based;
    base_size = served.base_size;
    whole = λ unbacked. refl;
    there = λ unbacked. omega (arith, ap (λ o. length (contents o)) there);
  }
  handle_from-IsReadable (some path) bytes there = record {
    unclosed = refl;
    based = served.based;
    base_size = served.base_size;
    whole = λ unbacked. cc;
    there = λ unbacked. cc;
  }

  pub handle_from-shown :
      (backing : Option Bytes) (bytes : Bytes)
      → InUse backing bytes
      → handle_bytes base s.files (handle_from s bytes backing)
        ≡ shown base s.state.delta_path s.files backing
  unfolding handle_bytes
  handle_from-shown none bytes there = ap (◌++◌ base) (
      take-all (length bytes) (bytes_at s.files s.state.delta_path)
        (omega (arith, ap (λ o. length (contents o)) there)))
  handle_from-shown (some path) bytes there =
      take-all (length bytes) (bytes_at s.files path)
        (omega (arith, ap (λ o. length (contents o)) there))

  pub handle_from-size :
      (backing : Option Bytes) (bytes : Bytes)
      → InUse backing bytes
      → length (shown base s.state.delta_path s.files backing) ≡ (handle_from s bytes backing).size
  handle_from-size none bytes there = omega (
    arith,
    served.base_size,
    length-append base (bytes_at s.files s.state.delta_path),
    ap (λ o. length (contents o)) there,
  )
  handle_from-size (some path) bytes there = ap (λ o. length (contents o)) there

  -- A copy of a handle that was just opened.
  fresh-Copied :
      (bytes : Bytes)
      → CollisionFree host
      → s.files (active_path s.state) ≡ some bytes
      → Copies (visible base s) (copy_out host s.files (handle_on s bytes))
  unfolding visible
  fresh-Copied bytes collision_free there =
      let backing = s.state.backing_path in
      let readable = handle_from-IsReadable backing bytes there in
      let seen = handle_from-shown backing bytes there in
      subst (λ c. Copies c (copy_out host s.files (handle_on s bytes))) seen
        (copy_out-Copies host base s.files (handle_on s bytes) readable collision_free
          (ap length seen ∙ handle_from-size backing bytes there))

released-Settled :
    (base seen : Bytes) (s t : Session)
    → Settled base seen (counted (granted s)) t
    → Settled base seen s (release_reader s.state.generation t)
unfolding visible
released-Settled base seen s t h =
    let g = s.state.generation in
    let k = h.kept in
    record {
      kept = record {
        delta_path = k.delta_path;
        base_bytes = k.base_bytes;
        directory = k.directory;
        view = k.view;
        writer_open = k.writer_open;
        leases = λ n. ground (
          arith,
          release_reader-leases g t n,
          k.leases n,
          k.leases g,
          counted-leases s n,
          counted-leases s g,
        );
        leased = λ l. release_reader-IsLeased g t (k.leased (counted-IsLeased s l));
        delta = k.delta;
      };
      apart = record { names = h.apart.names; backing = h.apart.backing };
      delta_same = h.delta_same;
      same = h.same;
    }

released-Backed :
    (base seen : Bytes) (s : Session) (path : Bytes) (t : Session)
    → Backed base seen (counted (granted s)) path t
    → Backed base seen s path (release_reader s.state.generation t)
released-Backed base seen s path t h = record {
  settled = released-Settled base seen s t h.settled;
  in_use = h.in_use;
  filled = h.filled;
}

unchanged-Settled : (base : Bytes) (s : Session) → IsApart s → Settled base (visible base s) s s
unchanged-Settled base s apart = record {
  kept = Kept-refl s;
  apart = apart;
  delta_same = refl;
  same = refl;
}

counted-Settled :
    (base : Bytes) (s : Session)
    → IsApart s
    → Settled base (visible base s) (counted (granted s)) (counted (granted s))
unfolding visible
counted-Settled base s apart = record {
  kept = Kept-refl _;
  apart = record { names = apart.names; backing = apart.backing };
  delta_same = refl;
  same = refl;
}

module _ (host : Host) (base : Bytes) (s : Session) (served : IsServed host base s)
    (collision_free : CollisionFree host) (apart : IsApart s) where
  abbrev seen : Bytes
  seen = visible base s

  abbrev opened : Session
  opened = counted (granted s)

  copy_with-Ends :
      (bytes : Bytes)
      → s.state.backing_path ≡ none
      → s.files (active_path s.state) ≡ some bytes
      → Ends
          (Settled base seen opened)
          (λ p t. Backed base seen opened p t)
          (copy_with host (handle_on s bytes) opened)
  unfolding copy_with visible
  copy_with-Ends bytes unbacked there =
      copied (copy_out host s.files (handle_on s bytes))
        (fresh-Copied host base s served bytes collision_free there)
    where
      copied :
          (r : Outcome Trouble Bytes)
          → Copies (visible base s) r
          → Ends
              (Settled base seen opened)
              (λ p t. Backed base seen opened p t)
              (elim r as (λ _. Outcome Trouble Bytes × Session) [
                | err e ↦ (err e, opened)
                | ok copy ↦ publish_backing host copy opened
              ])
      copied (err e) h = counted-Settled base s apart
      copied (ok copy) h =
          subst
            (λ v.
              Ends (Settled base v opened) (λ p t. Backed base v opened p t)
                (publish_backing host copy opened))
            h
            (publish_backing-Ends host base copy opened
              (record { names = apart.names; backing = apart.backing }) unbacked h)

  pub close_fresh :
      (bytes : Bytes) (backing : Option Bytes) (t : Session)
      → (close_reader host (handle_from s bytes backing) t).1.1
        ≡ release_reader s.state.generation t
  unfolding close_reader
  close_fresh bytes none t = refl
  close_fresh bytes (some path) t = refl

  closing-Ends :
      (bytes : Bytes) (r : Outcome Trouble Bytes × Session)
      → Ends (Settled base seen opened) (λ p t. Backed base seen opened p t) r
      → Ends
          (Settled base seen s)
          (λ p t. Backed base seen s p t)
          (closing host (handle_on s bytes) r)
  unfolding closing
  closing-Ends bytes (ok p, t) h =
      subst (Backed base seen s p) (sym (close_fresh bytes s.state.backing_path t))
        (released-Backed base seen s p t h)
  closing-Ends bytes (err e, t) h =
      subst (Settled base seen s) (sym (close_fresh bytes s.state.backing_path t))
        (released-Settled base seen s t h)

  copy_on_write-Ends :
      s.state.backing_path ≡ none
      → Ends (Settled base seen s) (λ p t. Backed base seen s p t) (copy_on_write host s)
  unfolding copy_on_write
  copy_on_write-Ends unbacked = elim (open_reader-Opens host s) [
    | inl (e, refused) ↦ rw refused (unchanged-Settled base s apart)
    | inr (inl (e, failed)) ↦
        rw failed (released-Settled base seen s opened (counted-Settled base s apart))
    | inr (inr (bytes, there, opens)) ↦ rw opens (
        closing-Ends bytes (copy_with host (handle_on s bytes) opened)
          (copy_with-Ends bytes unbacked there))
  ]

  in_use-Backed : (path : Bytes) → s.state.backing_path ≡ some path → Backed base seen s path s
  unfolding visible
  in_use-Backed path in_use = record {
    settled = unchanged-Settled base s apart;
    in_use = in_use;
    filled = ap (shown base s.state.delta_path s.files) (sym in_use);
  }

  ensure_on-Ends :
      (backing : Option Bytes)
      → s.state.backing_path ≡ backing
      → Ends (Settled base seen s) (λ p t. Backed base seen s p t) (ensure_on host backing s)
  ensure_on-Ends none unbacked = copy_on_write-Ends unbacked
  ensure_on-Ends (some path) in_use = in_use-Backed path in_use

  -- Whatever fails on the way, the copy on write leaves the bytes that the session shows as they
  -- are, and keeps the writer, the leases of the readers and the delta; where it succeeds, the path
  -- that it returns is that of the backing file in use, and the file has just these bytes. The
  -- session stands on the file that the host serves, no two contents have one hash, and no path of a
  -- backing file is that of the delta.
  pub ensure_backing-Ends :
      Ends
        (Settled base (visible base s) s)
        (λ p t. Backed base (visible base s) s p t)
        (ensure_backing host s)
  unfolding ensure_backing
  ensure_backing-Ends = ensure_on-Ends s.state.backing_path refl
