-- ===== src/Vfs/Session/Steps.antt =====
-- A session with the handles that were opened on it: its steps, in any order, each with a host of
-- its own. A handle keeps its place in the list once it is closed.
use codexfold.Prelude.{
  ℕ, zero, suc, ◌+◌, ◌≡◌, List, [], ◌∷◌, ◌++◌, some, ok, err, ◌==◌, get_elem?, if◌then◌else◌, ◌&&◌,
  not, arith, ap, some-injective,
}
use codexfold.Prelude.Bytes.{Bytes}
use codexfold.Prelude.Int.{ℤ}
use codexfold.Vfs.Session.State.{Session, Host, Trouble}
use codexfold.Vfs.Session.Readers.{ReadHandle, open_reader, close_reader}
use codexfold.Vfs.Session.Writers.{WriteHandle, Reply, open_writer, append, write_at, truncate}
use codexfold.Vfs.Session.Checkpoints.{sync_and_checkpoint, close_writer}
use codexfold.Vfs.Session.Copied.{CollisionFree}
use codexfold.Vfs.Session.Backing.{IsServed}
use codexfold.Vfs.Session.Kept.{IsLeased, IsApart}

pub record System : Type 0 where
  pub session : Session
  pub readers : List ReadHandle
  pub writers : List WriteHandle

-- The methods of a write handle.
pub data Request : Type 0 where
  appending : Bytes → Request
  writing_at : Bytes → ℤ → Request
  truncating : ℤ → Request
  syncing closing : Request

unfoldable pub perform : Host → Request → WriteHandle → Session → Reply
perform host (appending more) h s = append host more h s
perform host (writing_at more offset) h s = write_at host more offset h s
perform host (truncating size) h s = truncate host size h s
perform host syncing h s = sync_and_checkpoint host h s
perform host closing h s = close_writer host h s

abbrev pub replace {ℓ} : {A : Type ℓ} → ℕ → A → List A → List A
replace i a [] = []
replace zero a (x ∷ xs) = a ∷ xs
replace (suc i) a (x ∷ xs) = x ∷ replace i a xs

-- The host serves the file of the session, and its hash has no collisions.
pub record IsSuited (base : Bytes) (host : Host) (s : Session) : Type 0 where
  pub served : IsServed host base s
  pub collision_free : CollisionFree host

pub data Step (base : Bytes) (σ τ : System) : Type 0 where
  read_opened :
      (host : Host) (h : ReadHandle) (t : Session)
      → open_reader host σ.session ≡ (ok h, t)
      → τ ≡ record σ { session = t; readers = σ.readers ++ (h ∷ []) }
      → Step base σ τ
  read_refused :
      (host : Host) (e : Trouble) (t : Session)
      → open_reader host σ.session ≡ (err e, t)
      → τ ≡ record σ { session = t }
      → Step base σ τ
  read_closed :
      (host : Host) (i : ℕ) (h : ReadHandle)
      → get_elem? σ.readers i ≡ some h
      → τ ≡ record σ {
        session = (close_reader host h σ.session).1.1;
        readers = replace i ((close_reader host h σ.session).1.0) σ.readers;
      }
      → Step base σ τ
  write_opened :
      (host : Host) (h : WriteHandle) (t : Session)
      → open_writer host σ.session ≡ (ok h, t)
      → τ ≡ record σ { session = t; writers = σ.writers ++ (h ∷ []) }
      → Step base σ τ
  write_refused :
      (host : Host) (e : Trouble) (t : Session)
      → open_writer host σ.session ≡ (err e, t)
      → τ ≡ record σ { session = t }
      → Step base σ τ
  performed :
      (host : Host) (request : Request) (i : ℕ) (h : WriteHandle)
      → IsSuited base host σ.session
      → get_elem? σ.writers i ≡ some h
      → τ ≡ record σ {
        session = (perform host request h σ.session).session;
        writers = replace i ((perform host request h σ.session).handle) σ.writers;
      }
      → Step base σ τ

pub data Reach (base : Bytes) (σ : System) : System → Type 0 where
  here : Reach base σ σ
  next : {τ υ : System} → Reach base σ τ → Step base τ υ → Reach base σ υ

module _ {A : Type 0} (weight : A → ℕ) where
  abbrev pub total : List A → ℕ
  total [] = 0
  total (x ∷ xs) = weight x + total xs

  pub total-append : (xs : List A) (x : A) → total (xs ++ (x ∷ [])) ≡ total xs + weight x
  total-append [] x = omega arith
  total-append (y ∷ ys) x = omega (arith, total-append ys x)

  pub total-replace :
      (i : ℕ) (x y : A) (xs : List A)
      → get_elem? xs i ≡ some x
      → total (replace i y xs) + weight x ≡ total xs + weight y
  total-replace i x y [] h = cc
  total-replace zero x y (z ∷ zs) h = omega (arith, ap weight (some-injective _ _ h))
  total-replace (suc i) x y (z ∷ zs) h = omega (arith, total-replace i x y zs h)

-- The writers that are open, and the readers of a generation.
abbrev pub open_weight : WriteHandle → ℕ
open_weight h = if h.closed then 0 else 1

abbrev pub reader_weight : ℕ → ReadHandle → ℕ
reader_weight g h = if not h.closed && h.generation == g then 1 else 0

-- The leases of each generation are its open readers; a writer is open exactly where the session
-- knows of one, and then it is the only one; and the files are apart.
pub record IsSound (σ : System) : Type 0 where
  pub leases : (g : ℕ) → σ.session.reader_leases g ≡ total (reader_weight g) σ.readers
  pub leased : IsLeased σ.session
  pub writers : total open_weight σ.writers ≡ (if σ.session.writer_open then 1 else 0)
  pub apart : IsApart σ.session
