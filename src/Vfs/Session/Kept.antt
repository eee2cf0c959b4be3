-- ===== src/Vfs/Session/Kept.antt =====
-- What the methods of a session leave as it was, and rules for methods in sequence.
use codexfold.Prelude.{ℕ, ◌≡◌, ◌≢◌, refl, ◌∙◌, inl, inr, some, Outcome, ok, err, Bool-cases, ltb}
use codexfold.Prelude.Bytes.{Bytes, bytes_eq, bytes_eq→eq, bytes_eq_refl}
use codexfold.Vfs.Prefixes.{IsPrefix, IsPrefix-refl, IsPrefix-trans}
use codexfold.Vfs.Session.State.{
  Session, Files, Trouble, Method, bytes_at, put, backing_name, continue,
}

-- Where a method ends: in `Failed` with an error, in `Done` with a value.
abbrev pub Ends :
    {A : Type 0}
    → (Session → Type 0)
    → (A → Session → Type 0)
    → Outcome Trouble A × Session
    → Type 0
Ends Failed Done (ok a, s) = Done a s
Ends Failed Done (err e, s) = Failed s

pub continue-Ends :
    {A B : Type 0} (Failed : Session → Type 0) (Half : A → Session → Type 0)
    (Done : B → Session → Type 0) (f : A → Method B) (r : Outcome Trouble A × Session)
    → Ends Failed Half r
    → ((a : A) (s : Session) → Half a s → Ends Failed Done (f a s))
    → Ends Failed Done (continue f r)
continue-Ends Failed Half Done f (ok a, s) h k = k a s h
continue-Ends Failed Half Done f (err e, s) h k = h

pub Ends-map :
    {A : Type 0} (Failed : Session → Type 0) (Half Done : A → Session → Type 0)
    (r : Outcome Trouble A × Session)
    → ((a : A) (s : Session) → Half a s → Done a s)
    → Ends Failed Half r
    → Ends Failed Done r
Ends-map Failed Half Done (ok a, s) f h = f a s h
Ends-map Failed Half Done (err e, s) f h = h

pub put-same : (path bytes : Bytes) (files : Files) → put path bytes files path ≡ some bytes
put-same path bytes files = rw (bytes_eq_refl path) refl

pub put-other :
    (path bytes : Bytes) (files : Files) (p : Bytes) → path ≢ p → put path bytes files p ≡ files p
put-other path bytes files p h = elim (Bool-cases (bytes_eq path p)) [
  | inl same ↦ absurd (h (bytes_eq→eq path p same))
  | inr other ↦ rw other refl
]

abbrev pub delta_of : Session → Bytes
delta_of s = bytes_at s.files s.state.delta_path

-- The paths of backing files are none of the delta.
pub record IsApart (s : Session) : Type 0 where
  pub names : (g : ℕ) → backing_name s.directory g ≢ s.state.delta_path
  pub backing : (p : Bytes) → s.state.backing_path ≡ some p → p ≢ s.state.delta_path

-- The lease of a generation is held as long as it has readers.
abbrev pub IsLeased : Session → Type 0
IsLeased s = (g : ℕ) → s.reader_lease_files g ≡ ltb 0 (s.reader_leases g)

-- What a method that works for a writer leaves as it was. The delta only grows, and the readers are
-- as many.
pub record Kept (s t : Session) : Type 0 where
  pub delta_path : t.state.delta_path ≡ s.state.delta_path
  pub base_bytes : t.state.base_bytes ≡ s.state.base_bytes
  pub directory : t.directory ≡ s.directory
  pub view : t.view ≡ s.view
  pub writer_open : t.writer_open ≡ s.writer_open
  pub leases : (g : ℕ) → t.reader_leases g ≡ s.reader_leases g
  pub leased : IsLeased s → IsLeased t
  pub delta : IsPrefix (delta_of s) (delta_of t)

pub Kept-refl : (s : Session) → Kept s s
Kept-refl s = record {
  delta_path = refl;
  base_bytes = refl;
  directory = refl;
  view = refl;
  writer_open = refl;
  leases = λ g. refl;
  leased = λ h. h;
  delta = IsPrefix-refl _;
}

pub Kept-trans : (s t u : Session) → Kept s t → Kept t u → Kept s u
Kept-trans s t u h k = record {
  delta_path = k.delta_path ∙ h.delta_path;
  base_bytes = k.base_bytes ∙ h.base_bytes;
  directory = k.directory ∙ h.directory;
  view = k.view ∙ h.view;
  writer_open = k.writer_open ∙ h.writer_open;
  leases = λ g. k.leases g ∙ h.leases g;
  leased = λ l. k.leased (h.leased l);
  delta = IsPrefix-trans _ _ _ h.delta k.delta;
}
