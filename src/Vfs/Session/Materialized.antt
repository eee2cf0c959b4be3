-- ===== src/Vfs/Session/Materialized.antt =====
-- What MaterializeCurrent of internal/vfs/session.go writes.
use codexfold.Prelude.{
  ℕ, zero, suc, ◌≤◌, ◌≡◌, refl, ap, subst, ◌∙◌, Bool, not, ◌&&◌, ◌||◌, [], ◌++◌, Option, none, some,
  Outcome, ok, err, ltb, ◌==◌, length, arith, length-append, Bool-cases, inl, inr,
}
use codexfold.Prelude.Bytes.{Bytes, bytes_eq, bytes_eq→eq, is_empty}
use codexfold.Vfs.View.{Fault, is_end_of_file}
use codexfold.Vfs.Prefixes.{IsPrefix, extend-IsPrefix, IsPrefix-all}
use codexfold.Vfs.Session.State.{
  Session, NativeFile, Host, Files, Trouble, visible, bytes_at, contents, write_temporary, context,
  publish_file, sync_directory, hash_materialized, sync_temporary, close_temporary,
  stat_target_path, make_directory, create_temporary, chmod_temporary,
}
use codexfold.Vfs.Session.Readers.{ReadHandle, handle_on, close_reader}
use codexfold.Vfs.Session.Copying.{Round, broken, ended, grown}
use codexfold.Vfs.Session.Materializing.{
  heed, after_chunk, materialize_round, materialize_loop, reclaimable, settle_target, after_loop,
  write_target_file, and_close, is_there, materialize_current,
}
use codexfold.Vfs.Session.Reads.{IsReadable, handle_bytes, read_handle-IsPrefix}
use codexfold.Vfs.Session.Copied.{CollisionFree}
use codexfold.Vfs.Session.Kept.{Ends, put-same}
use codexfold.Vfs.Session.Leases.{granted, counted, open_reader-Opens}
use codexfold.Vfs.Session.Backing.{
  IsServed, handle_from-IsReadable, handle_from-shown, handle_from-size,
}

-- A loop that is left has the whole content.
abbrev Fair : Bytes → ℕ → Round → Type 0
Fair content size (broken e) = Unit
Fair content size (ended o) = IsPrefix o content × (size ≤ length o)
Fair content size (grown o) = IsPrefix o content

abbrev Loops : Bytes → ℕ → Outcome Trouble Bytes → Type 0
Loops content size (ok o) = IsPrefix o content × (size ≤ length o)
Loops content size (err e) = Unit

heed-Fair :
    (content : Bytes) (size : ℕ) (out found : Bytes) (failure : Option Fault)
    → IsPrefix (out ++ found) content
    → Fair content size (heed out found failure)
unfolding heed
heed-Fair content size out found none more = more
heed-Fair content size out found (some e) more = elim (Bool-cases (not (is_end_of_file e))) [
  | inl bad ↦ rw bad tt
  | inr end ↦ rw end more
]

after_chunk-Fair :
    (host : Host) (content : Bytes) (size : ℕ) (out : Bytes) (r : Bytes × Option Fault)
    → IsPrefix (out ++ r.0) content
    → Fair content size (after_chunk host out r)
unfolding after_chunk
after_chunk-Fair host content size out (found, failure) more =
    elim (Bool-cases (ltb 0 (length found) && host.fails (write_temporary (length out)))) [
      | inl bad ↦ rw bad tt
      | inr written ↦ rw written (heed-Fair content size out found failure more)
    ]

module _ (host : Host) (base : Bytes) (files : Files) (h : ReadHandle)
    (readable : IsReadable host base files h) where
  abbrev content : Bytes
  content = handle_bytes base files h

  materialize_round-Fair :
      (out : Bytes)
      → IsPrefix out content
      → Fair content h.size (materialize_round host files h out)
  unfolding materialize_round
  materialize_round-Fair out sofar = elim (Bool-cases (not (ltb (length out) h.size))) [
    | inl full ↦ rw full (sofar, ground arith)
    | inr below ↦ elim (Bool-cases (host.fails (context (length out)))) [
      | inl bad ↦ rw (below, bad) tt
      | inr fine ↦
          rw (below, fine)
            (after_chunk-Fair host content h.size out _ (
              extend-IsPrefix out _ content sofar
                (read_handle-IsPrefix host base files h _ (length out) readable)))
    ]
  ]

  pub materialize_loop-Whole :
      (fuel : ℕ) (out : Bytes)
      → IsPrefix out content
      → Loops content h.size (materialize_loop host files h fuel out)
  unfolding materialize_loop
  materialize_loop-Whole zero out sofar = tt
  materialize_loop-Whole (suc fuel) out sofar =
      round_on fuel (materialize_round host files h out) (materialize_round-Fair out sofar)
        (materialize_loop-Whole fuel)
    where
      round_on :
          (fuel : ℕ) (r : Round)
          → Fair content h.size r
          → ((o : Bytes)
              → IsPrefix o content
              → Loops content h.size (materialize_loop host files h fuel o))
          → Loops content h.size (elim r as (λ _. Outcome Trouble Bytes) [
            | broken e ↦ err e
            | ended out' ↦ ok out'
            | grown out' ↦ materialize_loop host files h fuel out'
          ])
      round_on fuel (broken e) fair rest = tt
      round_on fuel (ended o) fair rest = fair
      round_on fuel (grown o) fair rest = rest o fair

-- The target has the bytes, and the answer tells their number.
abbrev pub Written : Bytes → Bytes → NativeFile → Session → Type 0
Written target seen native t = (bytes_at t.files target ≡ seen) × (native.bytes ≡ length seen)

abbrev pub Anyhow : Session → Type 0
Anyhow t = Unit

module _ (host : Host) (collision_free : CollisionFree host) (target : Bytes) where
  settle_target-Written :
      (out : Bytes) (s : Session)
      → Ends Anyhow (Written target out) (settle_target host target out s)
  unfolding settle_target
  settle_target-Written out s =
      let written = host.settles out in
      elim (Bool-cases (host.fails publish_file)) [
        | inl bad ↦ rw bad tt
        | inr renamed ↦ elim (Bool-cases (host.fails sync_directory)) [
          | inl bad ↦ rw (renamed, bad) tt
          | inr synced ↦ elim (Bool-cases (host.fails hash_materialized)) [
            | inl bad ↦ rw (renamed, synced, bad) tt
            | inr hashed ↦
                elim (Bool-cases (
                  not (length written == length out)
                  || not (bytes_eq (host.sha256 written) (host.sha256 out)))) [
                    | inl bad ↦ rw (renamed, synced, hashed, bad) tt
                    | inr same ↦
                        rw (renamed, synced, hashed, same)
                          (
                            ap contents (put-same target written s.files)
                                ∙ collision_free written out (bytes_eq→eq _ _ (ground arith)),
                            refl,
                          )
                  ]
          ]
        ]
      ]

  after_loop-Written :
      (content : Bytes) (size : ℕ) (r : Outcome Trouble Bytes) (s : Session)
      → length content ≡ size
      → Loops content size r
      → Ends Anyhow (Written target content) (after_loop host target r s)
  after_loop-Written content size (err e) s full h = tt
  after_loop-Written content size (ok out) s full (sofar, enough) =
      let (rest, e) = sofar in
      let all : out ≡ content =
        IsPrefix-all out content sofar (omega (arith, length-append out rest, ap length e)) in
      elim (Bool-cases (host.fails sync_temporary)) [
        | inl bad ↦ rw bad tt
        | inr synced ↦ elim (Bool-cases (host.fails close_temporary)) [
          | inl bad ↦ rw (synced, bad) tt
          | inr closed ↦
              rw (synced, closed)
                (subst (λ c. Ends Anyhow (Written target c) (settle_target host target out s)) all
                  (settle_target-Written out s))
        ]
      ]

  write_target_file-Written :
      (base content : Bytes) (fuel : ℕ) (overwrite : Bool) (h : ReadHandle) (s : Session)
      → IsReadable host base s.files h
      → handle_bytes base s.files h ≡ content
      → length content ≡ h.size
      → Ends Anyhow (Written target content) (write_target_file host fuel target overwrite h s)
  unfolding write_target_file
  write_target_file-Written base content fuel overwrite h s readable shows full =
      elim (Bool-cases (overwrite && host.fails stat_target_path)) [
        | inl bad ↦ rw bad tt
        | inr stated ↦
            elim (Bool-cases (
              not (
                host.grants (record {
                  additional_persistent_bytes = h.size;
                  temporary_bytes = h.size;
                  temporary_persistent_overlap_bytes = h.size;
                  reclaimable_bytes = reclaimable overwrite (s.files target);
                })))) [
                  | inl bad ↦ rw (stated, bad) tt
                  | inr granted ↦ elim (Bool-cases (host.fails make_directory)) [
                    | inl bad ↦ rw (stated, granted, bad) tt
                    | inr made ↦ elim (Bool-cases (host.fails create_temporary)) [
                      | inl bad ↦ rw (stated, granted, made, bad) tt
                      | inr created ↦ elim (Bool-cases (host.fails chmod_temporary)) [
                        | inl bad ↦ rw (stated, granted, made, created, bad) tt
                        | inr fine ↦
                            rw (stated, granted, made, created, fine)
                              (after_loop-Written content h.size _ s full (
                                subst
                                  (λ c. Loops c h.size (materialize_loop host s.files h fuel []))
                                  shows
                                  (materialize_loop-Whole host base s.files h readable fuel []
                                    (handle_bytes base s.files h, refl))))
                      ]
                    ]
                  ]
                ]
      ]

close_reader-files :
    (host : Host) (h : ReadHandle) (t : Session) → (close_reader host h t).1.1.files ≡ t.files
unfolding close_reader
close_reader-files host h t = elim (Bool-cases h.closed) [
  | inl closed ↦ simp closed refl
  | inr still ↦ simp still refl
]

module _ (host : Host) (base : Bytes) (target : Bytes) (s : Session) (served : IsServed host base s)
    (collision_free : CollisionFree host) where
  and_close-Written :
      (seen : Bytes) (h : ReadHandle) (r : Outcome Trouble NativeFile × Session)
      → Ends Anyhow (Written target seen) r
      → Ends Anyhow (Written target seen) (and_close host h r)
  and_close-Written seen h (err e, t) w = tt
  and_close-Written seen h (ok native, t) (has, size) =
      (ap (λ f. bytes_at f target) (close_reader-files host h t) ∙ has, size)

  -- Where MaterializeCurrent returns with no error, the target has just the bytes that the session
  -- showed, and the answer tells their number, whatever fails on the way and however many rounds
  -- the loop may take. The session stands on the file that the host serves, and no two contents
  -- have one hash.
  pub materialize_current-Written :
      (fuel : ℕ) (overwrite : Bool)
      → Ends Anyhow
          (Written target (visible base s))
          (materialize_current host fuel target overwrite s)
  unfolding materialize_current visible
  materialize_current-Written fuel overwrite = elim (Bool-cases (is_empty target)) [
    | inl missing ↦ rw missing tt
    | inr given ↦ elim (Bool-cases (not overwrite && is_there (s.files target))) [
      | inl exists ↦ rw (given, exists) tt
      | inr free ↦ elim (Bool-cases (not overwrite && host.fails stat_target_path)) [
        | inl bad ↦ rw (given, free, bad) tt
        | inr fine ↦ elim (open_reader-Opens host s) [
          | inl (e, refused) ↦ rw (given, free, fine, refused) tt
          | inr (inl (e, failed)) ↦ rw (given, free, fine, failed) tt
          | inr (inr (bytes, there, opens)) ↦
              let backing = s.state.backing_path in
              let shows = handle_from-shown host base s served backing bytes there in
              rw (given, free, fine, opens)
                (and_close-Written (visible base s) (handle_on s bytes) _ (
                  write_target_file-Written host collision_free target base (visible base s) fuel
                    overwrite (handle_on s bytes) (counted (granted s))
                    (handle_from-IsReadable host base s served backing bytes there) shows
                    (handle_from-size host base s served backing bytes there)))
        ]
      ]
    ]
  ]
