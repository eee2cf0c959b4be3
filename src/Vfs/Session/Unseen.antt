-- ===== src/Vfs/Session/Unseen.antt =====
-- The copy on write is not seen: whatever fails, the bytes of the session stay as they are.
use codexfold.Prelude.{
  ℕ, ◌≡◌, ◌≢◌, refl, sym, ap, subst, ◌∙◌, not, ◌||◌, ◌==◌, ◌++◌, Option, none, some, some-injective,
  Bool-cases, ltb, inl, inr,
}
use codexfold.Vfs.Prefixes.{IsPrefix, IsPrefix-refl}
use codexfold.Prelude.Bytes.{Bytes}
use codexfold.Vfs.Session.State.{
  Session, SessionState, Host, Files, Method, bytes_at, contents, shown, put, attempt, visible,
  backing_name, next_generation, return, ◌>>=◌, ◌>>◌, publish_file, sync_directory, hook,
  data_synced, after_file_publish, state_published, complete,
}
use codexfold.Vfs.Session.Copying.{
  append_journal, rename_temporary, backed_by, is_backed, set_state, switch_state, switch_to,
  publish_copy, publish_backing,
}
use codexfold.Vfs.Session.Stages.{Stage, attempt-Stage, append_journal-Stage, publish-Stage}
use codexfold.Vfs.Session.Kept.{
  Ends, continue-Ends, Ends-map, put-same, put-other, delta_of, IsApart, Kept,
}

-- The end of a copy on write.
pub record Settled (base seen : Bytes) (s t : Session) : Type 0 where
  pub kept : Kept s t
  pub apart : IsApart t
  pub delta_same : delta_of t ≡ delta_of s
  pub same : visible base t ≡ seen

-- The backing file in use has the bytes of the session.
pub record Backed (base seen : Bytes) (s : Session) (path : Bytes) (t : Session) : Type 0 where
  pub settled : Settled base seen s t
  pub in_use : t.state.backing_path ≡ some path
  pub filled : bytes_at t.files path ≡ seen

none_or_some : (p : Bytes) → ◌≡◌ {A = Option Bytes} none (some p) → ⊥
none_or_some p h = cc

module _ (host : Host) (base bytes : Bytes) (s : Session) (apart : IsApart s)
    (unbacked : s.state.backing_path ≡ none) (same : bytes ≡ visible base s) where
  abbrev path : Bytes
  path = backing_name s.directory (next_generation s.state.generation)

  abbrev after : Files
  after = put path bytes s.files

  abbrev backed : SessionState
  backed = backed_by path s.state

  delta_staged :
      (state : SessionState) (files : Files) (t : Session)
      → Stage s state files t
      → state.delta_path ≡ s.state.delta_path
      → bytes_at files s.state.delta_path ≡ delta_of s
      → delta_of t ≡ delta_of s
  delta_staged state files t st d e =
      ap (λ f. bytes_at f t.state.delta_path) st.files_is
      ∙ ap (λ x. bytes_at files x.delta_path) st.state_is
      ∙ ap (bytes_at files) d
      ∙ e

  stage-Kept :
      (state : SessionState) (files : Files) (t : Session)
      → Stage s state files t
      → state.delta_path ≡ s.state.delta_path
      → state.base_bytes ≡ s.state.base_bytes
      → bytes_at files s.state.delta_path ≡ delta_of s
      → Kept s t
  stage-Kept state files t st d b e = record {
    delta_path = ap (λ x. x.delta_path) st.state_is ∙ d;
    base_bytes = ap (λ x. x.base_bytes) st.state_is ∙ b;
    directory = st.directory;
    view = st.view;
    writer_open = st.writer_open;
    leases = λ g. ap (λ f. f g) st.leases;
    leased = λ h g. ap (λ f. f g) st.lease_files ∙ h g ∙ ap (λ f. ltb 0 (f g)) (sym st.leases);
    delta =
        subst (IsPrefix (delta_of s)) (sym (delta_staged state files t st d e)) (IsPrefix-refl _);
  }

  names_apart :
      (t : Session)
      → t.directory ≡ s.directory
      → t.state.delta_path ≡ s.state.delta_path
      → (g : ℕ) → backing_name t.directory g ≢ t.state.delta_path
  names_apart t d e g h = apart.names g (ap (λ x. backing_name x g) (sym d) ∙ h ∙ e)

  early-Settled :
      (files : Files)
      → bytes_at files s.state.delta_path ≡ delta_of s
      → (t : Session) → Stage s s.state files t
      → Settled base bytes s t
  unfolding visible
  early-Settled files delta t st =
      let delta_is = ap (λ x. x.delta_path) st.state_is in
      let none_is : t.state.backing_path ≡ none = ap (λ x. x.backing_path) st.state_is ∙ unbacked in
      record {
        kept = stage-Kept s.state files t st refl refl delta;
        apart = record {
          names = names_apart t st.directory delta_is;
          backing = λ p h. absurd (none_or_some p (sym none_is ∙ h));
        };
        delta_same = delta_staged s.state files t st refl delta;
        same =
            ap (shown base t.state.delta_path t.files) none_is
            ∙ ap (◌++◌ base) (delta_staged s.state files t st refl delta)
            ∙ ap (shown base s.state.delta_path s.files) (sym unbacked)
            ∙ sym same;
      }

  delta_after : bytes_at after s.state.delta_path ≡ delta_of s
  delta_after =
      ap (λ o. contents o) (put-other path bytes s.files s.state.delta_path (apart.names _))

  late-Backed : (t : Session) → Stage s backed after t → Backed base bytes s path t
  unfolding visible
  late-Backed t st =
      let delta_is = ap (λ x. x.delta_path) st.state_is in
      let in_use : t.state.backing_path ≡ some path = ap (λ x. x.backing_path) st.state_is in
      let filled : t.files path ≡ some bytes =
        ap (λ f. f path) st.files_is ∙ put-same path bytes s.files in
      record {
        settled = record {
          kept = stage-Kept backed after t st refl refl delta_after;
          apart = record {
            names = names_apart t st.directory delta_is;
            backing = λ p h e. apart.names _ (some-injective _ _ (sym in_use ∙ h) ∙ e ∙ delta_is);
          };
          delta_same = delta_staged backed after t st refl delta_after;
          same = ap (shown base t.state.delta_path t.files) in_use ∙ ap contents filled;
        };
        in_use = in_use;
        filled = ap contents filled;
      }

  Unsettled : Session → Type 0
  Unsettled t = Settled base bytes s t

  rename-Stage :
      (t : Session)
      → Stage s s.state s.files t
      → Ends Unsettled (λ u. Stage s s.state after) (rename_temporary host path bytes t)
  unfolding rename_temporary Unsettled
  rename-Stage t st = elim (Bool-cases (host.fails publish_file)) [
    | inl bad ↦ rw bad (early-Settled s.files refl t st)
    | inr fine ↦ rw fine (record {
      state_is = st.state_is;
      files_is = ap (put path bytes) st.files_is;
      directory = st.directory;
      view = st.view;
      writer_open = st.writer_open;
      leases = st.leases;
      lease_files = st.lease_files;
    })
  ]

  OnPath : Bytes → Session → Type 0
  OnPath p u = (p ≡ path) × Backed base bytes s path u

  late-Settled : (t : Session) → Stage s backed after t → Settled base bytes s t
  late-Settled t st = (late-Backed t st).settled

  switch_state-Ends :
      (g : ℕ) (t : Session)
      → Stage s s.state after t
      → Ends Unsettled OnPath (switch_state host g path backed t)
  unfolding switch_state Unsettled OnPath
  switch_state-Ends g t st =
      let Early = λ (u : Unit {0}). Stage s s.state after in
      let Late = λ (u : Unit {0}). Stage s backed after in
      let last : Unit {0} → Method Bytes =
        λ u. append_journal host g complete (some backed) >> return path in
      let third : Unit {0} → Method Bytes =
        λ u. append_journal host g state_published (some backed) >>= last in
      let second : Unit {0} → Method Bytes = λ u. set_state backed >>= third in
      continue-Ends Unsettled Early OnPath second _
        (publish-Stage host s Unsettled s.state after (early-Settled after delta_after) backed t st)
        (λ u t1 st1.
          continue-Ends Unsettled Late OnPath last _
            (append_journal-Stage host s Unsettled backed after late-Settled g state_published
              (some backed) _ (switched t1 st1))
            (λ u t2 st2.
              continue-Ends Unsettled Late OnPath (λ u. return path) _
                (append_journal-Stage host s Unsettled backed after late-Settled g complete
                  (some backed) _ st2)
                (λ u t3 st3. (refl, late-Backed t3 st3))))
    where
      switched :
          (t : Session)
          → Stage s s.state after t
          → Stage s backed after (record t { state = backed })
      switched t st = record {
        state_is = refl;
        files_is = st.files_is;
        directory = st.directory;
        view = st.view;
        writer_open = st.writer_open;
        leases = st.leases;
        lease_files = st.lease_files;
      }

  switch_to-Ends :
      (g : ℕ) (t : Session)
      → Stage s s.state after t
      → Ends Unsettled OnPath (switch_to host g path t)
  unfolding switch_to Unsettled
  switch_to-Ends g t st = elim (Bool-cases (not (t.state.generation == g) || is_backed t.state)) [
    | inl changed ↦ rw changed (early-Settled after delta_after t st)
    | inr fine ↦ rw fine (
        subst (λ x. Ends Unsettled OnPath (switch_state host g path (backed_by path x) t))
          (sym st.state_is) (switch_state-Ends g t st))
  ]

  publish_copy-Ends :
      (g : ℕ) (candidate : SessionState) (t : Session)
      → Stage s s.state s.files t
      → Ends Unsettled OnPath (publish_copy host bytes g path candidate t)
  unfolding publish_copy Unsettled
  publish_copy-Ends g candidate t st =
      let After = λ (u : Unit {0}). Stage s s.state after in
      let early = early-Settled after delta_after in
      let fourth : Unit {0} → Method Bytes = λ u. switch_to host g path in
      let third : Unit {0} → Method Bytes =
        λ u. attempt host (hook after_file_publish) >>= fourth in
      let second : Unit {0} → Method Bytes =
        λ u. append_journal host g after_file_publish (some candidate) >>= third in
      let first : Unit {0} → Method Bytes = λ u. attempt host sync_directory >>= second in
      continue-Ends Unsettled After OnPath first _ (rename-Stage t st) (λ u t1 st1.
        continue-Ends Unsettled After OnPath second _
          (attempt-Stage host s Unsettled s.state after early sync_directory t1 st1)
          (λ u t2 st2.
            continue-Ends Unsettled After OnPath third _
              (append_journal-Stage host s Unsettled s.state after early g after_file_publish
                (some candidate) t2 st2)
              (λ u t3 st3.
                continue-Ends Unsettled After OnPath fourth _
                  (attempt-Stage host s Unsettled s.state after early (hook after_file_publish) t3
                    st3)
                  (λ u t4 st4. switch_to-Ends g t4 st4))))

  pub publish_backing-Ends :
      Ends (Settled base bytes s) (λ p t. Backed base bytes s p t) (publish_backing host bytes s)
  unfolding publish_backing Unsettled OnPath
  publish_backing-Ends =
      let g = s.state.generation in
      let Before = λ (u : Unit {0}). Stage s s.state s.files in
      let early = early-Settled s.files refl in
      let Goal = λ (p : Bytes). Backed base bytes s p in
      let second : Unit {0} → Method Bytes =
        λ u. publish_copy host bytes g path (backed_by path s.state) in
      let first : Unit {0} → Method Bytes = λ u. attempt host (hook data_synced) >>= second in
      continue-Ends Unsettled Before Goal first _
        (append_journal-Stage host s Unsettled s.state s.files early g data_synced none s start)
        (λ u t1 st1.
          continue-Ends Unsettled Before Goal second _
            (attempt-Stage host s Unsettled s.state s.files early (hook data_synced) t1 st1)
            (λ u t2 st2.
              Ends-map Unsettled OnPath Goal _
                (λ p t h. subst (λ q. Backed base bytes s q t) (sym (h.0)) (h.1))
                (publish_copy-Ends g (backed_by path s.state) t2 st2)))
    where
      start : Stage s s.state s.files s
      start = record {
        state_is = refl;
        files_is = refl;
        directory = refl;
        view = refl;
        writer_open = refl;
        leases = refl;
        lease_files = refl;
      }
