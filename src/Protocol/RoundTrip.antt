-- ===== src/Protocol/RoundTrip.antt =====
-- Round trips of the structures: what the decoder makes of what the encoder wrote.
use codexfold.Prelude.{
  ℕ, ◌+◌, ◌≤◌, ◌<◌, ◌≡◌, refl, sym, ap, ◌∙◌, Bool, true, false, List, [], ◌∷◌, ◌++◌, if◌then◌else◌,
  length, ok, arith, append_assoc, append-nil, Bool-cases, inl, inr,
}
use codexfold.Prelude.Bytes.{Bytes}
use codexfold.Protocol.Codec.{
  le_bytes, Time, is_zero, Encoder, new_encoder, put_raw, put_uint8, put_uint16, put_uint32,
  put_uint64, put_int64, put_bytes, put_string, put_time, new_decoder,
}
use codexfold.Protocol.Message.{
  Entry, put_entry, get_generation, get_entry, StatFs, put_stat_fs, get_stat_fs,
}
use codexfold.Protocol.Wire.{
  Reads, Reads-bind, Reads-last, Reads-pure, Reads-get_uint8, Reads-get_uint32, Reads-get_uint64,
  Reads-get_string, Reads-get_time, Reads-new, field_wire, time_wire, received, IsTime,
}

module _ (e : Encoder) where
  pub buffer-put_uint8 : (v : ℕ) → (put_uint8 v e).buffer ≡ e.buffer ++ v ∷ []
  unfolding put_uint8
  buffer-put_uint8 v = refl

  pub buffer-put_uint16 : (v : ℕ) → (put_uint16 v e).buffer ≡ e.buffer ++ le_bytes 2 v
  unfolding put_uint16
  buffer-put_uint16 v = refl

  pub buffer-put_uint32 : (v : ℕ) → (put_uint32 v e).buffer ≡ e.buffer ++ le_bytes 4 v
  unfolding put_uint32
  buffer-put_uint32 v = refl

  pub buffer-put_uint64 : (v : ℕ) → (put_uint64 v e).buffer ≡ e.buffer ++ le_bytes 8 v
  unfolding put_uint64
  buffer-put_uint64 v = refl

  pub buffer-put_raw : (v : Bytes) → (put_raw v e).buffer ≡ e.buffer ++ v
  unfolding put_raw
  buffer-put_raw v = refl

  pub buffer-put_bytes : (v : Bytes) → (put_bytes v e).buffer ≡ e.buffer ++ field_wire v
  unfolding put_bytes put_raw put_uint32
  buffer-put_bytes v = append_assoc e.buffer _ v

  pub buffer-put_string : (v : Bytes) → (put_string v e).buffer ≡ e.buffer ++ field_wire v
  unfolding put_string
  buffer-put_string v = buffer-put_bytes v

  pub buffer-put_time : (t : Time) → (put_time t e).buffer ≡ e.buffer ++ time_wire t
  unfolding put_time put_int64 put_uint32 put_uint64
  buffer-put_time t = elim (Bool-cases (is_zero t)) [
    | inl z ↦ rw z (append_assoc e.buffer _ _)
    | inr z ↦ rw z (append_assoc e.buffer _ _)
  ]

pub ruleset wire_laws = (
  buffer-put_uint8, buffer-put_uint16, buffer-put_uint32, buffer-put_uint64, buffer-put_raw,
  buffer-put_bytes, buffer-put_string, buffer-put_time, append_assoc,
)

abbrev generation_wire : Entry → Bool → Bytes
generation_wire x include = if include then le_bytes 8 x.content_generation else []

-- The layout of an entry.
abbrev entry_wire : Entry → Bool → Bytes
entry_wire x include =
    field_wire x.path
    ++ (field_wire x.name
        ++ (le_bytes 8 x.node_id
            ++ (le_bytes 8 x.parent_id
                ++ ((x.kind ∷ [])
                    ++ (le_bytes 4 x.mode
                        ++ (le_bytes 4 x.uid
                            ++ (le_bytes 4 x.gid
                                ++ (le_bytes 8 x.size
                                    ++ (le_bytes 8 x.alloc_size
                                        ++ (time_wire x.mod_time
                                            ++ (time_wire x.change_time
                                                ++ (time_wire x.access_time
                                                    ++ (le_bytes 8 x.namespace_id
                                                        ++ generation_wire x include)))))))))))))

put_entry-wire :
    (x : Entry) (include : Bool) (e : Encoder)
    → (put_entry x include e).buffer ≡ e.buffer ++ entry_wire x include
unfolding put_entry
put_entry-wire x true e = simp wire_laws
put_entry-wire x false e = simp (wire_laws, append-nil)

-- The values that fit the fields of the Go structure, within the limits of the decoder.
pub record IsEntry (x : Entry) : Type 0 where
  pub path_fits : length x.path ≤ 1048576
  pub name_fits : length x.name ≤ 4096
  pub node_id_fits : x.node_id < 18446744073709551616
  pub parent_id_fits : x.parent_id < 18446744073709551616
  pub mode_fits : x.mode < 4294967296
  pub uid_fits : x.uid < 4294967296
  pub gid_fits : x.gid < 4294967296
  pub size_fits : x.size < 18446744073709551616
  pub alloc_size_fits : x.alloc_size < 18446744073709551616
  pub mod_time_fits : IsTime x.mod_time
  pub change_time_fits : IsTime x.change_time
  pub access_time_fits : IsTime x.access_time
  pub namespace_id_fits : x.namespace_id < 18446744073709551616
  pub generation_fits : x.content_generation < 18446744073709551616

-- The entry as the other side has it.
abbrev pub delivered : Entry → Bool → Entry
delivered x include = record x {
  mod_time = received x.mod_time;
  change_time = received x.change_time;
  access_time = received x.access_time;
  content_generation = if include then x.content_generation else 0;
}

Reads-get_generation :
    (x : Entry) (include : Bool)
    → x.content_generation < 18446744073709551616
    → Reads
        (get_generation include)
        (generation_wire x include)
        (if include then x.content_generation else 0)
unfolding get_generation
Reads-get_generation x true h = Reads-get_uint64 _ h
Reads-get_generation x false h = Reads-pure 0

Reads-get_entry :
    (x : Entry) (include : Bool)
    → IsEntry x
    → Reads (get_entry include) (entry_wire x include) (delivered x include)
unfolding get_entry
Reads-get_entry x include h = Reads-bind _ (Reads-get_string _ x.path (omega arith) h.path_fits) (
    Reads-bind _ (Reads-get_string _ x.name (omega arith) h.name_fits) (
      Reads-bind _ (Reads-get_uint64 _ h.node_id_fits) (
        Reads-bind _ (Reads-get_uint64 _ h.parent_id_fits) (
          Reads-bind _ (Reads-get_uint8 x.kind) (
            Reads-bind _ (Reads-get_uint32 _ h.mode_fits) (
              Reads-bind _ (Reads-get_uint32 _ h.uid_fits) (
                Reads-bind _ (Reads-get_uint32 _ h.gid_fits) (
                  Reads-bind _ (Reads-get_uint64 _ h.size_fits) (
                    Reads-bind _ (Reads-get_uint64 _ h.alloc_size_fits) (
                      Reads-bind _ (Reads-get_time _ h.mod_time_fits) (
                        Reads-bind _ (Reads-get_time _ h.change_time_fits) (
                          Reads-bind _ (Reads-get_time _ h.access_time_fits) (
                            Reads-bind _ (Reads-get_uint64 _ h.namespace_id_fits) (
                              Reads-last _ (Reads-get_generation x include h.generation_fits)
                                (Reads-pure _)))))))))))))))

-- The decoder reads an entry whose fields are in range back from the front of whatever follows
-- it, and stops behind it. A generation that the peers did not agree on arrives as 0, and the
-- Unix epoch as the zero time.
pub get_entry-put_entry :
    (x : Entry) (include : Bool) (rest : Bytes)
    → IsEntry x
    → get_entry include (new_decoder ((put_entry x include new_encoder).buffer ++ rest)) ≡ (
      ok (delivered x include),
      record {
        input = (put_entry x include new_encoder).buffer ++ rest;
        offset = length (put_entry x include new_encoder).buffer;
      },
    )
get_entry-put_entry x include rest h =
    rw (put_entry-wire x include new_encoder) (Reads-new _ rest (Reads-get_entry x include h))

abbrev stat_fs_wire : StatFs → Bytes
stat_fs_wire s =
    le_bytes 4 s.block_size
    ++ (le_bytes 4 s.io_size
        ++ (le_bytes 8 s.total_bytes
            ++ (le_bytes 8 s.available_bytes
                ++ (le_bytes 8 s.free_bytes
                    ++ (le_bytes 8 s.used_bytes
                        ++ (le_bytes 8 s.total_files ++ le_bytes 8 s.free_files))))))

put_stat_fs-wire :
    (s : StatFs) (e : Encoder) → (put_stat_fs s e).buffer ≡ e.buffer ++ stat_fs_wire s
unfolding put_stat_fs
put_stat_fs-wire s e = simp wire_laws

pub record IsStatFs (s : StatFs) : Type 0 where
  pub block_size_fits : s.block_size < 4294967296
  pub io_size_fits : s.io_size < 4294967296
  pub total_bytes_fits : s.total_bytes < 18446744073709551616
  pub available_bytes_fits : s.available_bytes < 18446744073709551616
  pub free_bytes_fits : s.free_bytes < 18446744073709551616
  pub used_bytes_fits : s.used_bytes < 18446744073709551616
  pub total_files_fits : s.total_files < 18446744073709551616
  pub free_files_fits : s.free_files < 18446744073709551616

Reads-get_stat_fs : (s : StatFs) → IsStatFs s → Reads get_stat_fs (stat_fs_wire s) s
unfolding get_stat_fs
Reads-get_stat_fs s h = Reads-bind _ (Reads-get_uint32 _ h.block_size_fits) (
    Reads-bind _ (Reads-get_uint32 _ h.io_size_fits) (
      Reads-bind _ (Reads-get_uint64 _ h.total_bytes_fits) (
        Reads-bind _ (Reads-get_uint64 _ h.available_bytes_fits) (
          Reads-bind _ (Reads-get_uint64 _ h.free_bytes_fits) (
            Reads-bind _ (Reads-get_uint64 _ h.used_bytes_fits) (
              Reads-bind _ (Reads-get_uint64 _ h.total_files_fits)
                (Reads-last _ (Reads-get_uint64 _ h.free_files_fits) (Reads-pure s))))))))

-- The statistics of a file system, which are 64-bit numbers, arrive as they were sent, whatever
-- follows them.
pub get_stat_fs-put_stat_fs :
    (s : StatFs) (rest : Bytes)
    → IsStatFs s
    → get_stat_fs (new_decoder ((put_stat_fs s new_encoder).buffer ++ rest)) ≡ (
      ok s,
      record {
        input = (put_stat_fs s new_encoder).buffer ++ rest;
        offset = length (put_stat_fs s new_encoder).buffer;
      },
    )
get_stat_fs-put_stat_fs s rest h =
    rw (put_stat_fs-wire s new_encoder) (Reads-new _ rest (Reads-get_stat_fs s h))
