-- ===== src/Protocol/Message.antt =====
-- internal/fskitproto: the structures that the codec carries. `Entry` and `StatFS` of codec.go,
-- and the resource descriptor of protocol.go.
use codexfold.Prelude.{ℕ, Bool, true, false, if◌then◌else◌}
use codexfold.Prelude.Bytes.{Bytes}
use codexfold.Protocol.Codec.{
  Time, Write, put_uint8, put_uint32, put_uint64, put_string, put_time, Read, ◌>>=◌, pure,
  get_uint8, get_uint32, get_uint64, get_string, get_time, has_content_generation,
}

pub record Entry : Type 0 where
  pub path : Bytes
  pub name : Bytes
  pub node_id : ℕ
  pub parent_id : ℕ
  pub kind : ℕ
  pub mode : ℕ
  pub uid : ℕ
  pub gid : ℕ
  pub size : ℕ
  pub alloc_size : ℕ
  pub mod_time : Time
  pub change_time : Time
  pub access_time : Time
  pub namespace_id : ℕ
  pub content_generation : ℕ

-- `(*Encoder).entry`: the statements in their order.
unfoldable pub put_entry : Entry → Bool → Write
put_entry x include e =
    let e1 = put_string x.path e in
    let e2 = put_string x.name e1 in
    let e3 = put_uint64 x.node_id e2 in
    let e4 = put_uint64 x.parent_id e3 in
    let e5 = put_uint8 x.kind e4 in
    let e6 = put_uint32 x.mode e5 in
    let e7 = put_uint32 x.uid e6 in
    let e8 = put_uint32 x.gid e7 in
    let e9 = put_uint64 x.size e8 in
    let e10 = put_uint64 x.alloc_size e9 in
    let e11 = put_time x.mod_time e10 in
    let e12 = put_time x.change_time e11 in
    let e13 = put_time x.access_time e12 in
    let e14 = put_uint64 x.namespace_id e13 in
    if include then put_uint64 x.content_generation e14 else e14

unfoldable pub put_entry_for_capabilities : Entry → ℕ → Write
put_entry_for_capabilities x capabilities = put_entry x (has_content_generation capabilities)

-- `(*Decoder).entry`. The generation is left 0 where the peers did not agree on it.
unfoldable pub get_generation : Bool → Read ℕ
get_generation true = get_uint64
get_generation false = pure 0

unfoldable pub get_entry : Bool → Read Entry
unfolding get_generation
get_entry include = do
  path ← get_string 1048576
  name ← get_string 4096
  node_id ← get_uint64
  parent_id ← get_uint64
  kind ← get_uint8
  mode ← get_uint32
  uid ← get_uint32
  gid ← get_uint32
  size ← get_uint64
  alloc_size ← get_uint64
  mod_time ← get_time
  change_time ← get_time
  access_time ← get_time
  namespace_id ← get_uint64
  content_generation ← get_generation include
  pure (record {
    path = path;
    name = name;
    node_id = node_id;
    parent_id = parent_id;
    kind = kind;
    mode = mode;
    uid = uid;
    gid = gid;
    size = size;
    alloc_size = alloc_size;
    mod_time = mod_time;
    change_time = change_time;
    access_time = access_time;
    namespace_id = namespace_id;
    content_generation = content_generation;
  })

unfoldable pub get_entry_for_capabilities : ℕ → Read Entry
get_entry_for_capabilities capabilities = get_entry (has_content_generation capabilities)

pub record StatFs : Type 0 where
  pub block_size : ℕ
  pub io_size : ℕ
  pub total_bytes : ℕ
  pub available_bytes : ℕ
  pub free_bytes : ℕ
  pub used_bytes : ℕ
  pub total_files : ℕ
  pub free_files : ℕ

unfoldable pub put_stat_fs : StatFs → Write
put_stat_fs s e =
    let e1 = put_uint32 s.block_size e in
    let e2 = put_uint32 s.io_size e1 in
    let e3 = put_uint64 s.total_bytes e2 in
    let e4 = put_uint64 s.available_bytes e3 in
    let e5 = put_uint64 s.free_bytes e4 in
    let e6 = put_uint64 s.used_bytes e5 in
    let e7 = put_uint64 s.total_files e6 in put_uint64 s.free_files e7

unfoldable pub get_stat_fs : Read StatFs
get_stat_fs = do
  block_size ← get_uint32
  io_size ← get_uint32
  total_bytes ← get_uint64
  available_bytes ← get_uint64
  free_bytes ← get_uint64
  used_bytes ← get_uint64
  total_files ← get_uint64
  free_files ← get_uint64
  pure (record {
    block_size = block_size;
    io_size = io_size;
    total_bytes = total_bytes;
    available_bytes = available_bytes;
    free_bytes = free_bytes;
    used_bytes = used_bytes;
    total_files = total_files;
    free_files = free_files;
  })
