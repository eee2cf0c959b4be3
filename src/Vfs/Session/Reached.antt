-- ===== src/Vfs/Session/Reached.antt =====
-- What holds of a session after any steps.
use codexfold.Prelude.{
  ℕ, ◌≡◌, inl, inr, sym, ap, subst, ◌∙◌, true, [], ◌∷◌, ◌++◌, Option, none, some, Outcome, ok, err,
  ◌==◌, get_elem?, if◌then◌else◌, arith, Bool-cases,
}
use codexfold.Prelude.Bytes.{Bytes}
use codexfold.Vfs.Session.State.{Session, Host, Trouble}
use codexfold.Vfs.Session.Readers.{
  ReadHandle, handle_on, handle_from, release_reader, open_reader, close_reader, close_error,
}
use codexfold.Vfs.Session.Writers.{WriteHandle}
use codexfold.Vfs.Session.Leases.{
  granted, counted, open_reader-Opens, release_reader-leases, release_reader-IsLeased,
  counted-leases, counted-IsLeased, taken_back,
}
use codexfold.Vfs.Session.Opening.{OpensWriter, open_writer-OpensWriter}
use codexfold.Vfs.Session.Steps.{
  System, replace, Step, read_opened, read_refused, read_closed, write_opened, write_refused,
  performed, Reach, here, next, total-append, total-replace, open_weight, reader_weight, IsSound,
}
use codexfold.Vfs.Session.Sound.{perform-Performs, performed-IsSound}

handle_from-weight :
    (s : Session) (bytes : Bytes) (backing : Option Bytes) (g : ℕ)
    → reader_weight g (handle_from s bytes backing) ≡ (if s.state.generation == g then 1 else 0)
handle_from-weight s bytes none g = ground arith
handle_from-weight s bytes (some path) g = ground arith

opened-IsSound :
    (σ : System) (bytes : Bytes)
    → IsSound σ
    → IsSound (record σ {
      session = counted (granted σ.session);
      readers = σ.readers ++ (handle_on σ.session bytes ∷ []);
    })
opened-IsSound σ bytes sound = record {
  leases = λ g.
      let s = σ.session in
      let weights = total-append (reader_weight g) σ.readers (handle_on s bytes) in
      let weight = handle_from-weight s bytes s.state.backing_path g in
      counted-leases s g ∙ ground (arith, weights, weight, sound.leases g);
  leased = counted-IsLeased σ.session sound.leased;
  writers = sound.writers;
  apart = record { names = sound.apart.names; backing = sound.apart.backing };
}

unopened-IsSound :
    (σ : System)
    → IsSound σ
    → IsSound (record σ {
      session = release_reader σ.session.state.generation (counted (granted σ.session));
    })
unopened-IsSound σ sound = record {
  leases = λ g. taken_back σ.session g ∙ sound.leases g;
  leased =
      release_reader-IsLeased σ.session.state.generation (counted (granted σ.session))
        (counted-IsLeased σ.session sound.leased);
  writers = sound.writers;
  apart = record { names = sound.apart.names; backing = sound.apart.backing };
}

closed-IsSound :
    (host : Host) (σ : System) (i : ℕ) (h : ReadHandle)
    → IsSound σ
    → get_elem? σ.readers i ≡ some h
    → IsSound (record σ {
      session = (close_reader host h σ.session).1.1;
      readers = replace i ((close_reader host h σ.session).1.0) σ.readers;
    })
unfolding close_reader
closed-IsSound host σ i h sound at = elim (Bool-cases h.closed) [
  | inl closed ↦ simp closed (record {
    leases =
        λ g. sound.leases g ∙ ground (arith, total-replace (reader_weight g) i h h σ.readers at);
    leased = sound.leased;
    writers = sound.writers;
    apart = sound.apart;
  })
  | inr still ↦ simp still (record {
    leases = λ g.
        release_reader-leases h.generation σ.session g
        ∙ ground (
          arith,
          still,
          total-replace (reader_weight g) i h
              (record h { closed = true; close_failure = close_error host }) σ.readers at,
          sound.leases g,
        );
    leased = release_reader-IsLeased h.generation σ.session sound.leased;
    writers = sound.writers;
    apart = record { names = sound.apart.names; backing = sound.apart.backing };
  })
]

write_opened-IsSound :
    (σ : System) (h : WriteHandle) (t : Session)
    → IsSound σ
    → OpensWriter σ.session (ok h, t)
    → IsSound (record σ { session = t; writers = σ.writers ++ (h ∷ []) })
write_opened-IsSound σ h t sound (free, fresh, k, a) = record {
  leases = λ g. k.leases g ∙ sound.leases g;
  leased = k.leased sound.leased;
  writers = ground (
    arith,
    total-append open_weight σ.writers h,
    sound.writers,
    free,
    k.writer_open,
    ap (λ w. w.closed) fresh,
  );
  apart = a sound.apart;
}

write_refused-IsSound :
    (σ : System) (e : Trouble) (t : Session)
    → IsSound σ
    → OpensWriter σ.session (err e, t)
    → IsSound (record σ { session = t })
write_refused-IsSound σ e t sound (k, a) = record {
  leases = λ g. k.leases g ∙ sound.leases g;
  leased = k.leased sound.leased;
  writers = sound.writers ∙ ap (λ b. if b then 1 else 0) (sym k.writer_open);
  apart = a sound.apart;
}

-- The system once a reader, or a writer, is opened or refused.
abbrev pub with_reader : System → Outcome Trouble ReadHandle × Session → System
with_reader σ (ok h, t) = record σ { session = t; readers = σ.readers ++ (h ∷ []) }
with_reader σ (err e, t) = record σ { session = t }

abbrev pub with_opened : System → Outcome Trouble WriteHandle × Session → System
with_opened σ (ok h, t) = record σ { session = t; writers = σ.writers ++ (h ∷ []) }
with_opened σ (err e, t) = record σ { session = t }

pub open_reader-IsSound :
    (host : Host) (σ : System) → IsSound σ → IsSound (with_reader σ (open_reader host σ.session))
open_reader-IsSound host σ sound = elim (open_reader-Opens host σ.session) [
  | inl (e, refused) ↦ rw refused sound
  | inr (inl (e, failed)) ↦ rw failed (unopened-IsSound σ sound)
  | inr (inr (bytes, there, opens)) ↦ rw opens (opened-IsSound σ bytes sound)
]

opened_writer-IsSound :
    (σ : System) (r : Outcome Trouble WriteHandle × Session)
    → IsSound σ
    → OpensWriter σ.session r
    → IsSound (with_opened σ r)
opened_writer-IsSound σ (ok h, t) sound o = write_opened-IsSound σ h t sound o
opened_writer-IsSound σ (err e, t) sound o = write_refused-IsSound σ e t sound o

pub Step-IsSound : {base : Bytes} {σ τ : System} → Step base σ τ → IsSound σ → IsSound τ
Step-IsSound {base} {σ} {τ} (read_opened host h t e eq) sound =
    subst IsSound (sym eq)
      (subst (λ r. IsSound (with_reader σ r)) e (open_reader-IsSound host σ sound))
Step-IsSound {base} {σ} {τ} (read_refused host x t e eq) sound =
    subst IsSound (sym eq)
      (subst (λ r. IsSound (with_reader σ r)) e (open_reader-IsSound host σ sound))
Step-IsSound {base} {σ} {τ} (read_closed host i h at eq) sound =
    subst IsSound (sym eq) (closed-IsSound host σ i h sound at)
Step-IsSound {base} {σ} {τ} (write_opened host h t e eq) sound = subst IsSound (sym eq) (
    opened_writer-IsSound σ (ok h, t) sound
      (subst (OpensWriter σ.session) e (open_writer-OpensWriter host σ.session)))
Step-IsSound {base} {σ} {τ} (write_refused host x t e eq) sound = subst IsSound (sym eq) (
    opened_writer-IsSound σ (err x, t) sound
      (subst (OpensWriter σ.session) e (open_writer-OpensWriter host σ.session)))
Step-IsSound {base} {σ} {τ} (performed host request i h suited at eq) sound =
    subst IsSound (sym eq) (
      performed-IsSound σ i h _ sound
        (perform-Performs base host request h σ.session suited sound.apart) at)

-- From a sound session every sequence of steps, with hosts that fail as they like, leads to a sound
-- one: at most one of all the writers that were ever opened is open, and one is exactly where the
-- session says so; the count of each generation's leases is the number of its open readers, and the
-- lease is held as long as there are any; and no path of a backing file is that of the delta. Where
-- a writer acts, its host serves the file of the session and its hash has no collisions.
pub Reach-IsSound : (base : Bytes) (σ τ : System) → Reach base σ τ → IsSound σ → IsSound τ
Reach-IsSound base σ τ here sound = sound
Reach-IsSound base σ τ (next r st) sound = Step-IsSound st (Reach-IsSound base σ _ r sound)
