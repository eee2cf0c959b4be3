-- ===== src/Vfs/Session/Hashes.antt =====
-- The hash of a writer is that of the file that it names, whatever its methods do.
use codexfold.Prelude.{
  ◌+◌, ◌≡◌, ◌⊎◌, refl, sym, ap, subst, ◌∙◌, true, false, ◌&&◌, [], ◌∷◌, ◌++◌, Option, none, some,
  ltb, length, take, arith, length-append, append-nil, Bool-cases, inl, inr,
}
use codexfold.Prelude.Bytes.{Bytes, bytes_eq, bytes_eq→eq}
use codexfold.Vfs.Session.State.{
  Session, SessionState, Host, Trouble, active_path, path_in_use, bytes_at, contents, put, rollback,
  sync_rollback, open_target, stat_target, hash_target, context,
}
use codexfold.Vfs.Session.Writers.{
  WriteHandle, Reply, needs_hash, rehash, hash_more, roll_back, settle_append, append_to,
  append_found, append,
}
use codexfold.Vfs.Session.Kept.{put-same}

-- The file of the hash is the delta, or the backing file in use.
abbrev Known : Bytes → SessionState → Type 0
Known path state = (path ≡ state.delta_path) ⊎ (state.backing_path ≡ some path)

-- A hash that is valid is of all the bytes of its file.
pub record Fits (h : WriteHandle) (s : Session) : Type 0 where
  pub hashed : h.append_hash_valid ≡ true → h.append_hashed ≡ bytes_at s.files h.append_hash_path
  pub counted : h.append_hash_valid ≡ true → h.append_hash_bytes ≡ length h.append_hashed
  pub known : h.append_hash_valid ≡ true → Known h.append_hash_path s.state

active-Known :
    (delta_path : Bytes) (backing : Option Bytes)
    → (path_in_use delta_path backing ≡ delta_path)
      ⊎ (backing ≡ some (path_in_use delta_path backing))
active-Known delta_path none = inl refl
active-Known delta_path (some path) = inr refl

-- A handle that holds the hash of the file in use.
abbrev fresh_on : WriteHandle → Bytes → Bytes → WriteHandle
fresh_on h path bytes = record h {
  append_hashed = bytes;
  append_hash_path = path;
  append_hash_bytes = length bytes;
  append_hash_valid = true;
}

-- What a rehash leaves: the hash of the bytes of the file in use.
record IsHashed (h : WriteHandle) (path bytes : Bytes) : Type 0 where
  path_is : h.append_hash_path ≡ path
  bytes_are : h.append_hashed ≡ bytes
  count_is : h.append_hash_bytes ≡ length bytes

rehash-IsHashed :
    (h : WriteHandle) (s : Session) (bytes : Bytes)
    → Fits h s
    → s.files (active_path s.state) ≡ some bytes
    → IsHashed (rehash h (active_path s.state) bytes) (active_path s.state) bytes
unfolding rehash
rehash-IsHashed h s bytes fits there =
    let path = active_path s.state in
    elim (Bool-cases (h.append_hash_valid && bytes_eq h.append_hash_path path)) [
      | inr stale ↦ rw stale (record { path_is = refl; bytes_are = refl; count_is = refl })
      | inl fine ↦
          let valid : h.append_hash_valid ≡ true = ground arith in
          let same : h.append_hash_path ≡ path =
            bytes_eq→eq h.append_hash_path path (ground arith) in
          let all : h.append_hashed ≡ bytes =
            fits.hashed valid ∙ ap (bytes_at s.files) same ∙ ap contents there in
          rw fine (record {
            path_is = same;
            bytes_are = all;
            count_is = fits.counted valid ∙ ap length all;
          })
    ]

-- A handle that is hashed fits a session whose file in use has these bytes.
hashed-Fits :
    (h : WriteHandle) (s : Session) (bytes : Bytes)
    → IsHashed h (active_path s.state) bytes
    → bytes_at s.files (active_path s.state) ≡ bytes
    → Fits h s
hashed-Fits h s bytes hashed there = record {
  hashed = λ v. hashed.bytes_are ∙ sym there ∙ ap (bytes_at s.files) (sym hashed.path_is);
  counted = λ v. hashed.count_is ∙ ap length (sym hashed.bytes_are);
  known = λ v.
      subst (λ p. Known p s.state) (sym hashed.path_is)
        (active-Known s.state.delta_path s.state.backing_path);
}

true_or_false : true ≡ false → ⊥
true_or_false h = cc

pub no_bytes : (xs : Bytes) → length xs ≡ 0 → xs ≡ []
no_bytes [] h = refl
no_bytes (x ∷ xs) h = absurd (omega arith)

pub invalid-Fits : (h : WriteHandle) (s : Session) → h.append_hash_valid ≡ false → Fits h s
invalid-Fits h s bad = record {
  hashed = λ v. cc;
  counted = λ v. cc;
  known = λ v. absurd (true_or_false (sym v ∙ bad));
}

module _ (host : Host) (more bytes : Bytes) (h : WriteHandle) (s : Session)
    (hashed : IsHashed h (active_path s.state) bytes) where
  abbrev path : Bytes
  path = active_path s.state

  undone-Fits : Fits h (record s { files = put path bytes s.files })
  undone-Fits = hashed-Fits h _ bytes hashed (ap contents (put-same path bytes s.files))

  hash_more-Fits :
      (arrived : Bytes)
      → Fits (hash_more h arrived) (record s { files = put path (bytes ++ arrived) s.files })
  hash_more-Fits arrived =
      let there = ap contents (put-same path (bytes ++ arrived) s.files) in
      elim (Bool-cases (ltb 0 (length arrived))) [
        | inl some_bytes ↦ rw some_bytes (
            hashed-Fits _ _ (bytes ++ arrived)
              (record {
                path_is = hashed.path_is;
                bytes_are = ap (λ b. b ++ arrived) hashed.bytes_are;
                count_is =
                    ap (λ n. n + length arrived) hashed.count_is
                    ∙ sym (length-append bytes arrived);
              })
              there)
        | inr nothing ↦
            let e : arrived ≡ [] = no_bytes arrived (ground arith) in
            subst (λ a. Fits (hash_more h a) (record s { files = put path (bytes ++ a) s.files }))
              (sym e)
              (subst (λ b. Fits h (record s { files = put path b s.files }))
                (sym (append-nil bytes)) undone-Fits)
      ]

  abbrev FitsReply : Reply → Type 0
  FitsReply r = Fits r.handle r.session

  roll_back-Fits :
      (arrived : Bytes) (e : Trouble) → FitsReply (roll_back host h s path bytes arrived e)
  unfolding roll_back
  roll_back-Fits arrived e = elim (Bool-cases (host.fails rollback)) [
    | inl kept ↦ rw kept (invalid-Fits _ _ refl)
    | inr undone ↦ elim (Bool-cases (host.fails sync_rollback)) [
      | inl unsynced ↦ rw (undone, unsynced) (invalid-Fits _ _ refl)
      | inr synced ↦ rw (undone, synced) undone-Fits
    ]
  ]

  settle_append-Fits :
      (arrived : Bytes) (failure : Option Trouble)
      → s.files path ≡ some bytes
      → FitsReply (settle_append host h s path bytes arrived failure)
  unfolding settle_append
  settle_append-Fits arrived none there = hash_more-Fits arrived
  settle_append-Fits arrived (some e) there = elim (Bool-cases (ltb 0 (length arrived))) [
    | inl some_bytes ↦ rw some_bytes (roll_back-Fits arrived e)
    | inr nothing ↦ rw nothing (hashed-Fits h s bytes hashed (ap contents there))
  ]

append_found-Fits :
    (host : Host) (more : Bytes) (h : WriteHandle) (s : Session) (o : Option Bytes)
    → Fits h s
    → s.files (active_path s.state) ≡ o
    → Fits ((append_found host more h s o).handle) ((append_found host more h s o).session)
unfolding append_to
append_found-Fits host more h s none fits there = fits
append_found-Fits host more h s (some bytes) fits there =
    let path = active_path s.state in
    let hashed = rehash-IsHashed h s bytes fits there in
    let kept = hashed-Fits (rehash h path bytes) s bytes hashed (ap contents there) in
    elim (Bool-cases (needs_hash h path && host.fails hash_target)) [
      | inl bad ↦ rw bad fits
      | inr read ↦ elim (Bool-cases (host.fails open_target)) [
        | inl bad ↦ rw (read, bad) kept
        | inr opened ↦ elim (Bool-cases (host.fails stat_target)) [
          | inl bad ↦ rw (read, opened, bad) kept
          | inr fine ↦
              rw (read, opened, fine)
                (settle_append-Fits host more bytes (rehash h path bytes) s hashed
                  (take ((host.writes more).0) more) _ there)
        ]
      ]
    ]

pub append-Fits :
    (host : Host) (more : Bytes) (h : WriteHandle) (s : Session)
    → Fits h s
    → Fits ((append host more h s).handle) ((append host more h s).session)
unfolding append
append-Fits host more h s fits = elim (Bool-cases h.closed) [
  | inl closed ↦ simp closed fits
  | inr still ↦ elim (Bool-cases (host.fails (context 0))) [
    | inl bad ↦ simp still (rw bad fits)
    | inr goes ↦
        simp still
          (rw goes (append_found-Fits host more h s (s.files (active_path s.state)) fits refl))
  ]
]
