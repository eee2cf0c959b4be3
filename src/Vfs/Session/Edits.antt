-- ===== src/Vfs/Session/Edits.antt =====
-- A write into the file in use, and what it makes of the bytes that the session shows.
use codexfold.Prelude.{◌≡◌, ◌≢◌, refl, sym, ap, subst, ◌∙◌, ◌++◌, Option, none, some, append_assoc}
use codexfold.Prelude.Bytes.{Bytes}
use codexfold.Vfs.Prefixes.{IsPrefix, IsPrefix-refl}
use codexfold.Vfs.Session.State.{
  Session, Files, active_path, path_in_use, visible, shown, bytes_at, contents, put,
}
use codexfold.Vfs.Session.Kept.{IsApart, Kept, delta_of, put-same, put-other}

-- The session once the file in use has been written anew.
abbrev pub rewritten : Bytes → Session → Session
rewritten bytes s = record s { files = put (active_path s.state) bytes s.files }

-- What a session shows whose file in use has these bytes.
abbrev pub over : Bytes → Option Bytes → Bytes → Bytes
over base none bytes = base ++ bytes
over base (some path) bytes = bytes

shown-over :
    (base delta_path : Bytes) (files : Files) (backing : Option Bytes)
    → shown base delta_path files backing
      ≡ over base backing (bytes_at files (path_in_use delta_path backing))
shown-over base delta_path files none = refl
shown-over base delta_path files (some path) = refl

over-append :
    (base bytes more : Bytes) (backing : Option Bytes)
    → over base backing (bytes ++ more) ≡ over base backing bytes ++ more
over-append base bytes more none = sym (append_assoc base bytes more)
over-append base bytes more (some path) = refl

pub visible-over :
    (base : Bytes) (s : Session)
    → visible base s ≡ over base s.state.backing_path (bytes_at s.files (active_path s.state))
unfolding visible
visible-over base s = shown-over base s.state.delta_path s.files s.state.backing_path

pub visible-rewritten :
    (base bytes : Bytes) (s : Session)
    → visible base (rewritten bytes s) ≡ over base s.state.backing_path bytes
visible-rewritten base bytes s =
    visible-over base (rewritten bytes s)
    ∙ ap (λ o. over base s.state.backing_path (contents o))
        (put-same (active_path s.state) bytes s.files)

pub visible-appended :
    (base more : Bytes) (s : Session)
    → visible base (rewritten (bytes_at s.files (active_path s.state) ++ more) s)
      ≡ visible base s ++ more
visible-appended base more s =
    visible-rewritten base (bytes_at s.files (active_path s.state) ++ more) s
    ∙ over-append base (bytes_at s.files (active_path s.state)) more s.state.backing_path
    ∙ ap (λ b. b ++ more) (sym (visible-over base s))

-- A write leaves the delta alone, or is one of it that only adds.
rewritten_delta :
    (bytes delta_path : Bytes) (files : Files) (backing : Option Bytes)
    → ((p : Bytes) → backing ≡ some p → p ≢ delta_path)
    → (backing ≡ none → IsPrefix (bytes_at files delta_path) bytes)
    → IsPrefix
        (bytes_at files delta_path)
        (bytes_at (put (path_in_use delta_path backing) bytes files) delta_path)
rewritten_delta bytes delta_path files none apart grows =
    subst (λ o. IsPrefix (bytes_at files delta_path) (contents o))
      (sym (put-same delta_path bytes files)) (grows refl)
rewritten_delta bytes delta_path files (some path) apart grows =
    subst (λ o. IsPrefix (bytes_at files delta_path) (contents o))
      (sym (put-other path bytes files delta_path (apart path refl))) (IsPrefix-refl _)

pub rewritten-Kept :
    (bytes : Bytes) (s : Session)
    → IsApart s
    → (s.state.backing_path ≡ none → IsPrefix (delta_of s) bytes)
    → Kept s (rewritten bytes s)
rewritten-Kept bytes s apart grows = record {
  delta_path = refl;
  base_bytes = refl;
  directory = refl;
  view = refl;
  writer_open = refl;
  leases = λ g. refl;
  leased = λ h. h;
  delta = rewritten_delta bytes s.state.delta_path s.files s.state.backing_path apart.backing grows;
}

pub rewritten-IsApart : (bytes : Bytes) (s : Session) → IsApart s → IsApart (rewritten bytes s)
rewritten-IsApart bytes s apart = record { names = apart.names; backing = apart.backing }

-- A write into the backing file in use.
abbrev pub backing_write : Bytes → Bytes → Session → Session
backing_write path bytes s = record s { files = put path bytes s.files }

module _ (base path bytes : Bytes) (s : Session) (in_use : s.state.backing_path ≡ some path) where
  pub backing_write-visible : visible base (backing_write path bytes s) ≡ bytes
  unfolding visible
  backing_write-visible =
      ap (shown base s.state.delta_path (put path bytes s.files)) in_use
      ∙ ap contents (put-same path bytes s.files)

  pub backing_write-Kept : IsApart s → Kept s (backing_write path bytes s)
  backing_write-Kept apart =
      subst (λ p. Kept s (backing_write p bytes s)) (ap (path_in_use s.state.delta_path) in_use)
        (rewritten-Kept bytes s apart (λ unbacked. absurd (none_or_some (sym unbacked ∙ in_use))))
    where
      none_or_some : ◌≡◌ {A = Option Bytes} none (some path) → ⊥
      none_or_some h = cc
