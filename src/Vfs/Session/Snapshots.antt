-- ===== src/Vfs/Session/Snapshots.antt =====
-- A reader of the base and the delta keeps what it saw.
use codexfold.Prelude.{
  ℕ, ◌≡◌, refl, sym, ap, subst, ◌∙◌, ◌++◌, Option, none, some, Outcome, ok, err, arith, length,
  take, drop, Bool-cases, inl, inr, length-append,
}
use codexfold.Prelude.Bytes.{Bytes}
use codexfold.Prelude.Int.{pos}
use codexfold.Vfs.Prefixes.{IsPrefix, IsPrefix-refl, IsPrefix-trans, take-IsPrefix_eq}
use codexfold.Vfs.Session.State.{
  Session, Host, Trouble, visible, shown, bytes_at, contents, path_in_use,
}
use codexfold.Vfs.Session.Readers.{
  ReadHandle, handle_from, read_handle, filled, release_reader, open_reader, close_reader,
}
use codexfold.Vfs.Session.Writers.{WriteHandle}
use codexfold.Vfs.Session.Reads.{IsReadable, handle_bytes}
use codexfold.Vfs.Session.Exact.{IsWell, read_handle-exact}
use codexfold.Vfs.Session.Kept.{delta_of}
use codexfold.Vfs.Session.Leases.{granted, counted, open_reader-Opens}
use codexfold.Vfs.Session.Backing.{IsServed}
use codexfold.Vfs.Session.Opening.{OpensWriter, open_writer-OpensWriter}
use codexfold.Vfs.Session.Steps.{
  System, Step, read_opened, read_refused, read_closed, write_opened, write_refused, performed,
  Reach, here, next, IsSound,
}
use codexfold.Vfs.Session.Sound.{perform-Performs}
use codexfold.Vfs.Session.Reached.{with_reader, open_reader-IsSound, Reach-IsSound}

-- The delta is still at its path, with more behind it.
record Grows (s t : Session) : Type 0 where
  delta_path : t.state.delta_path ≡ s.state.delta_path
  delta : IsPrefix (delta_of s) (delta_of t)

Grows-refl : (s : Session) → Grows s s
Grows-refl s = record { delta_path = refl; delta = IsPrefix-refl _ }

Grows-trans : (s t u : Session) → Grows s t → Grows t u → Grows s u
Grows-trans s t u g k = record {
  delta_path = k.delta_path ∙ g.delta_path;
  delta = IsPrefix-trans _ _ _ g.delta k.delta;
}

-- A step of a reader leaves the files and the state.
same-Grows : (s t : Session) → t.files ≡ s.files → t.state ≡ s.state → Grows s t
same-Grows s t f e = record {
  delta_path = ap (λ x. x.delta_path) e;
  delta =
      subst (IsPrefix (delta_of s))
        (sym
          (ap (λ x. bytes_at x t.state.delta_path) f ∙ ap (λ x. bytes_at s.files x.delta_path) e))
        (IsPrefix-refl _);
}

open_reader-Grows : (host : Host) (s : Session) → Grows s ((open_reader host s).1)
open_reader-Grows host s = elim (open_reader-Opens host s) [
  | inl (e, refused) ↦ rw refused (Grows-refl s)
  | inr (inl (e, failed)) ↦ rw failed (same-Grows s _ refl refl)
  | inr (inr (bytes, there, opens)) ↦ rw opens (same-Grows s _ refl refl)
]

close_reader-Grows :
    (host : Host) (h : ReadHandle) (s : Session) → Grows s ((close_reader host h s).1.1)
unfolding close_reader
close_reader-Grows host h s = elim (Bool-cases h.closed) [
  | inl closed ↦ simp closed (Grows-refl s)
  | inr still ↦ simp still (same-Grows s (release_reader h.generation s) refl refl)
]

OpensWriter-Grows :
    (s : Session) (r : Outcome Trouble WriteHandle × Session) → OpensWriter s r → Grows s (r.1)
OpensWriter-Grows s (ok h, t) (free, fresh, k, a) = record {
  delta_path = k.delta_path;
  delta = k.delta;
}
OpensWriter-Grows s (err e, t) (k, a) = record { delta_path = k.delta_path; delta = k.delta }

Step-Grows : {base : Bytes} {σ τ : System} → Step base σ τ → IsSound σ → Grows σ.session τ.session
Step-Grows {base} {σ} {τ} (read_opened host h t e eq) sound =
    subst (λ x. Grows σ.session x.session) (sym eq)
      (subst (λ r. Grows σ.session (r.1)) e (open_reader-Grows host σ.session))
Step-Grows {base} {σ} {τ} (read_refused host x t e eq) sound =
    subst (λ x. Grows σ.session x.session) (sym eq)
      (subst (λ r. Grows σ.session (r.1)) e (open_reader-Grows host σ.session))
Step-Grows {base} {σ} {τ} (read_closed host i h at eq) sound =
    subst (λ x. Grows σ.session x.session) (sym eq) (close_reader-Grows host h σ.session)
Step-Grows {base} {σ} {τ} (write_opened host h t e eq) sound =
    subst (λ x. Grows σ.session x.session) (sym eq)
      (subst (λ r. Grows σ.session (r.1)) e
        (OpensWriter-Grows σ.session _ (open_writer-OpensWriter host σ.session)))
Step-Grows {base} {σ} {τ} (write_refused host x t e eq) sound =
    subst (λ x. Grows σ.session x.session) (sym eq)
      (subst (λ r. Grows σ.session (r.1)) e
        (OpensWriter-Grows σ.session _ (open_writer-OpensWriter host σ.session)))
Step-Grows {base} {σ} {τ} (performed host request i h suited at eq) sound =
    let k = (perform-Performs base host request h σ.session suited sound.apart).kept in
    subst (λ x. Grows σ.session x.session) (sym eq)
      (record { delta_path = k.delta_path; delta = k.delta })

Reach-Grows : (base : Bytes) (σ υ : System) → Reach base σ υ → IsSound σ → Grows σ.session υ.session
Reach-Grows base σ υ here sound = Grows-refl _
Reach-Grows base σ υ (next {τ} r st) sound =
    Grows-trans σ.session τ.session υ.session (Reach-Grows base σ τ r sound)
      (Step-Grows st (Reach-IsSound base σ τ r sound))

-- A handle on the base and the delta, as the delta grows.
module _ (host : Host) (base : Bytes) (s t : Session) (bytes : Bytes)
    (served : IsServed host base s) (there : s.files s.state.delta_path ≡ some bytes)
    (grows : Grows s t) where
  abbrev handle : ReadHandle
  handle = handle_from s bytes none

  delta_then : IsPrefix bytes (bytes_at t.files s.state.delta_path)
  delta_then =
      subst (λ p. IsPrefix bytes (bytes_at t.files p)) grows.delta_path
        (subst (λ b. IsPrefix b (delta_of t)) (ap contents there) grows.delta)

  old_handle-IsReadable : IsReadable host base t.files handle
  old_handle-IsReadable = record {
    unclosed = refl;
    based = served.based;
    base_size = served.base_size;
    whole = λ u. refl;
    there = λ u. let (rest, e) = delta_then in omega (arith, length-append bytes rest, ap length e);
  }

  old_handle-bytes : handle_bytes base t.files handle ≡ base ++ bytes
  unfolding handle_bytes
  old_handle-bytes =
      ap (◌++◌ base) (take-IsPrefix_eq bytes (bytes_at t.files s.state.delta_path) delta_then)

  old_handle_reads :
      (wanted offset : ℕ)
      → IsWell host
      → s.state.backing_path ≡ none
      → read_handle host t.files handle wanted (pos offset)
        ≡ filled wanted (take wanted (drop offset (visible base s)))
  unfolding visible
  old_handle_reads wanted offset well unbacked =
      read_handle-exact host base t.files handle wanted offset old_handle-IsReadable well
      ∙ ap (λ b. filled wanted (take wanted (drop offset b)))
          (old_handle-bytes
            ∙ ap (λ o. base ++ contents o) (sym there)
            ∙ ap (shown base s.state.delta_path s.files) (sym unbacked))

-- What is read later with what `OpenReader` returned.
abbrev Later : Bytes → System → Host → ℕ → ℕ → Outcome Trouble ReadHandle × Session → Type 0
Later base σ host wanted offset (ok h, t) =
    (τ : System)
    → Reach base (with_reader σ (ok h, t)) τ
    → read_handle host τ.session.files h wanted (pos offset)
      ≡ filled wanted (take wanted (drop offset (visible base σ.session)))
Later base σ host wanted offset (err e, t) = Unit

opened-Later :
    (base : Bytes) (σ : System) (host : Host) (wanted offset : ℕ) (bytes : Bytes)
    (backing : Option Bytes)
    → IsSound
        (with_reader σ (ok (handle_from σ.session bytes backing), counted (granted σ.session)))
    → σ.session.state.backing_path ≡ none
    → backing ≡ none
    → IsServed host base σ.session
    → IsWell host
    → σ.session.files (path_in_use σ.session.state.delta_path backing) ≡ some bytes
    → Later base σ host wanted offset
        (ok (handle_from σ.session bytes backing), counted (granted σ.session))
opened-Later base σ host wanted offset bytes none sound unbacked same served well there τ reach =
    old_handle_reads host base σ.session τ.session bytes served there
      (Grows-trans σ.session (counted (granted σ.session)) τ.session
        (same-Grows σ.session (counted (granted σ.session)) refl refl)
        (Reach-Grows base _ τ reach sound))
      wanted offset well unbacked
opened-Later base σ host wanted offset bytes (some path) sound unbacked same served well there τ
      reach =
    cc

open_reader-Later :
    (base : Bytes) (σ : System) (opener host : Host) (wanted offset : ℕ)
    → IsSound σ
    → σ.session.state.backing_path ≡ none
    → IsServed host base σ.session
    → IsWell host
    → Later base σ host wanted offset (open_reader opener σ.session)
open_reader-Later base σ opener host wanted offset sound unbacked served well =
    elim (open_reader-Opens opener σ.session) [
      | inl (e, refused) ↦ rw refused tt
      | inr (inl (e, failed)) ↦ rw failed tt
      | inr (inr (bytes, there, opens)) ↦ subst (Later base σ host wanted offset) (sym opens) (
          opened-Later base σ host wanted offset bytes σ.session.state.backing_path
            (subst (λ r. IsSound (with_reader σ r)) opens (open_reader-IsSound opener σ sound))
            unbacked unbacked served well there)
    ]

-- A reader that was opened before the session had a backing file reads, after whatever steps of the
-- other handles, their appends, overwrites, truncations and copies on write included, just what the
-- session showed when it was opened, from the offset on, and reports the end where that is too
-- little. The session was sound, and the reader's host serves its file, breaks no read off and does
-- not cancel. The host of each step of a writer, too, serves the session's file and has a hash
-- without collisions; else the hosts of the steps fail as they like.
pub open_reader-snapshot :
    (base : Bytes) (σ τ : System) (opener host : Host) (h : ReadHandle) (t : Session)
    (wanted offset : ℕ)
    → IsSound σ
    → σ.session.state.backing_path ≡ none
    → IsServed host base σ.session
    → IsWell host
    → open_reader opener σ.session ≡ (ok h, t)
    → Reach base (with_reader σ (ok h, t)) τ
    → read_handle host τ.session.files h wanted (pos offset)
      ≡ filled wanted (take wanted (drop offset (visible base σ.session)))
open_reader-snapshot base σ τ opener host h t wanted offset sound unbacked served well opens reach =
    subst (Later base σ host wanted offset) opens
      (open_reader-Later base σ opener host wanted offset sound unbacked served well) τ reach
