-- ===== src/Vfs/Session/Appends.antt =====
-- What `Append` does, on every branch.
use codexfold.Prelude.{
  ℕ, ◌≡◌, ◌≢◌, refl, sym, ap, subst, ◌∙◌, true, ◌&&◌, ◌++◌, [], Option, none, some, ltb, length,
  take, arith, append-nil, take-all, false, ◌⊎◌, inl, inr, Bool-cases,
}
use codexfold.Prelude.Bytes.{Bytes}
use codexfold.Vfs.Prefixes.{take-IsPrefix, take-IsPrefix_eq}
use codexfold.Vfs.Session.State.{
  Session, Host, Trouble, active_path, visible, bytes_at, contents, path_in_use, rollback,
  sync_rollback, hash_target, open_target, stat_target, context, close_target, call_failed,
}
use codexfold.Vfs.Session.Writers.{
  WriteHandle, Reply, refuse, rehash, needs_hash, write_failure, roll_back, settle_append,
  append_to, append_found, append,
}
use codexfold.Vfs.Session.Kept.{IsApart, Kept, Kept-refl}
use codexfold.Vfs.Session.Edits.{rewritten, visible-appended, rewritten-Kept, rewritten-IsApart}

-- How an append ends: nothing of it stays, or all of it is there, where only the file may not have
-- been closed; or its rollback failed, and what had arrived stays and is counted; or its rollback
-- was made but not durably, and a count is returned of bytes that are gone.
pub data Ended (host : Host) (base more : Bytes) (s : Session) (r : Reply) : Type 0 where
  refused :
      r.count ≡ 0
      → r.failure ≢ none
      → visible base r.session ≡ visible base s
      → Ended host base more s r
  done :
      r.count ≡ length more
      → (r.failure ≡ none) ⊎ (r.failure ≡ some (call_failed close_target))
      → visible base r.session ≡ visible base s ++ more
      → Ended host base more s r
  stuck :
      host.fails rollback ≡ true
      → r.failure ≢ none
      → visible base r.session ≡ visible base s ++ take r.count more
      → Ended host base more s r
  unsynced :
      host.fails rollback ≡ false
      → host.fails sync_rollback ≡ true
      → r.failure ≢ none
      → visible base r.session ≡ visible base s
      → Ended host base more s r

pub record Appended (host : Host) (base more : Bytes) (s : Session) (r : Reply) : Type 0 where
  pub ended : Ended host base more s r
  pub kept : Kept s r.session
  pub apart : IsApart r.session

refused-Appended :
    (host : Host) (base more : Bytes) (s : Session) (e : Trouble) (h : WriteHandle)
    → IsApart s
    → Appended host base more s (refuse e h s)
refused-Appended host base more s e h apart = record {
  ended = refused refl (λ h. cc) refl;
  kept = Kept-refl s;
  apart = apart;
}

module _ (host : Host) (base more bytes : Bytes) (s : Session) (apart : IsApart s)
    (there : s.files (active_path s.state) ≡ some bytes) where
  arrived_count : (n : ℕ) → take (length (take n more)) more ≡ take n more
  arrived_count n = take-IsPrefix_eq (take n more) more (take-IsPrefix n more)

  bytes_is : bytes_at s.files (active_path s.state) ≡ bytes
  bytes_is = ap contents there

  -- What is written behind the bytes of the file in use leaves the delta at its beginning.
  added-Kept : (more : Bytes) → Kept s (rewritten (bytes ++ more) s)
  added-Kept more = rewritten-Kept (bytes ++ more) s apart (λ unbacked. (
    more,
    ap (λ b. b ++ more)
        (ap (λ b. bytes_at s.files (path_in_use s.state.delta_path b)) (sym unbacked) ∙ bytes_is),
  ))

  added-visible :
      (more : Bytes) → visible base (rewritten (bytes ++ more) s) ≡ visible base s ++ more
  added-visible more =
      subst (λ b. visible base (rewritten (b ++ more) s) ≡ visible base s ++ more) bytes_is
        (visible-appended base more s)

  -- The file in use, with what has arrived behind it.
  grown-Appended :
      (n : ℕ) (r : Reply)
      → r.session ≡ rewritten (bytes ++ take n more) s
      → Ended host base more s r
      → Appended host base more s r
  grown-Appended n r there_now end = record {
    ended = end;
    kept = subst (Kept s) (sym there_now) (added-Kept (take n more));
    apart = subst IsApart (sym there_now) (rewritten-IsApart (bytes ++ take n more) s apart);
  }

  grown-visible :
      (n : ℕ)
      → visible base (rewritten (bytes ++ take n more) s)
        ≡ visible base s ++ take (length (take n more)) more
  grown-visible n = added-visible (take n more) ∙ ap (◌++◌ (visible base s)) (sym (arrived_count n))

  grown_whole :
      (n : ℕ)
      → length (take n more) ≡ length more
      → visible base (rewritten (bytes ++ take n more) s) ≡ visible base s ++ more
  grown_whole n whole =
      grown-visible n
      ∙ ap (λ k. visible base s ++ take k more) whole
      ∙ ap (◌++◌ (visible base s)) (take-all (length more) more (omega arith))

  undone-visible : visible base (rewritten bytes s) ≡ visible base s
  undone-visible =
      subst (λ b. visible base (rewritten b s) ≡ visible base s) (append-nil bytes)
        (added-visible [] ∙ append-nil _)

  undone-Appended :
      (r : Reply)
      → r.session ≡ rewritten bytes s
      → Ended host base more s r
      → Appended host base more s r
  undone-Appended r there_now end = record {
    ended = end;
    kept =
        subst (Kept s) (sym there_now)
          (subst (λ b. Kept s (rewritten b s)) (append-nil bytes) (added-Kept []));
    apart = subst IsApart (sym there_now) (rewritten-IsApart bytes s apart);
  }

  roll_back-Appended :
      (n : ℕ) (h : WriteHandle) (e : Trouble)
      → Appended host base more s (roll_back host h s (active_path s.state) bytes (take n more) e)
  unfolding roll_back
  roll_back-Appended n h e = elim (Bool-cases (host.fails rollback)) [
    | inl bad ↦ rw bad (grown-Appended n _ refl (stuck bad (λ h. cc) (grown-visible n)))
    | inr fine ↦ elim (Bool-cases (host.fails sync_rollback)) [
      | inl bad ↦
          rw (fine, bad) (undone-Appended _ refl (unsynced fine bad (λ h. cc) undone-visible))
      | inr synced ↦
          rw (fine, synced) (undone-Appended _ refl (refused refl (λ h. cc) undone-visible))
    ]
  ]

  settle_append-Appended :
      (n : ℕ) (h : WriteHandle) (failure : Option Trouble)
      → (failure ≡ none → length (take n more) ≡ length more)
      → Appended host base more s
          (settle_append host h s (active_path s.state) bytes (take n more) failure)
  unfolding settle_append
  settle_append-Appended n h none whole = grown-Appended n _ refl (
      done (whole refl)
        (elim (Bool-cases (host.fails close_target)) [
          | inl bad ↦ inr (rw bad refl)
          | inr closes ↦ inl (rw closes refl)
        ])
        (grown_whole n (whole refl)))
  settle_append-Appended n h (some e) whole = elim (Bool-cases (ltb 0 (length (take n more)))) [
    | inl some_bytes ↦ rw some_bytes (roll_back-Appended n h e)
    | inr nothing ↦ rw nothing (refused-Appended host base more s e h apart)
  ]

  append_to-Appended :
      (h : WriteHandle)
      → Appended host base more s (append_to host h s (active_path s.state) bytes more)
  unfolding append_to
  append_to-Appended h =
      let path = active_path s.state in
      let n = (host.writes more).0 in
      elim (Bool-cases (needs_hash h path && host.fails hash_target)) [
        | inl bad ↦ rw bad (refused-Appended host base more s _ _ apart)
        | inr hashed ↦ elim (Bool-cases (host.fails open_target)) [
          | inl bad ↦ rw (hashed, bad) (refused-Appended host base more s _ _ apart)
          | inr opened ↦ elim (Bool-cases (host.fails stat_target)) [
            | inl bad ↦ rw (hashed, opened, bad) (refused-Appended host base more s _ _ apart)
            | inr fine ↦
                rw (hashed, opened, fine)
                  (settle_append-Appended n (rehash h path bytes)
                    (write_failure ((host.writes more).1) more (take n more)) (λ h. ground arith))
          ]
        ]
      ]

append_found-Appended :
    (host : Host) (base more : Bytes) (h : WriteHandle) (s : Session)
    → IsApart s
    → (o : Option Bytes) → s.files (active_path s.state) ≡ o
    → Appended host base more s (append_found host more h s o)
append_found-Appended host base more h s apart none missing =
    refused-Appended host base more s _ _ apart
append_found-Appended host base more h s apart (some bytes) there =
    append_to-Appended host base more bytes s apart there h

-- Whatever the host fails, an append ends in one of four ways. It has an error, counts nothing, and
-- the session shows what it showed. Or it counts all its bytes, and the session shows them behind
-- what it showed: then there is no error, but perhaps that of closing the file. Or the rollback of
-- a write that broke off fails: with an error, what has arrived is counted and stays. Or the
-- rollback is made and its sync fails: with an error, the session shows what it showed, while
-- nothing is said of the count. On each way the delta only grows, the readers' leases and the
-- writer stay, and the paths of backing files are none of the delta, as they were before.
pub append-Appended :
    (host : Host) (base more : Bytes) (h : WriteHandle) (s : Session)
    → IsApart s
    → Appended host base more s (append host more h s)
unfolding append
append-Appended host base more h s apart = elim (Bool-cases h.closed) [
  | inl closed ↦ rw closed (refused-Appended host base more s _ _ apart)
  | inr open_still ↦ elim (Bool-cases (host.fails (context 0))) [
    | inl bad ↦ simp open_still (rw bad (refused-Appended host base more s _ _ apart))
    | inr goes ↦ simp open_still (
        rw goes
          (append_found-Appended host base more h s apart (s.files (active_path s.state)) refl))
  ]
]
