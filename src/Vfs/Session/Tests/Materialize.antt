-- ===== src/Vfs/Session/Tests/Materialize.antt =====
-- A session that is materialized, and a reader whose backing file has been cut.
use codexfold.Prelude.{◌≡◌, refl, true, false, [], ◌∷◌, some, none, err, arith}
use codexfold.Prelude.Bytes.{Bytes}
use codexfold.Vfs.Tests.{view}
use codexfold.Vfs.Session.State.{Files, visible, out_of_fuel}
use codexfold.Vfs.Session.Readers.{ReadHandle}
use codexfold.Vfs.Session.Materializing.{materialize_loop, materialize_current}
use codexfold.Vfs.Session.Kept.{Ends}
use codexfold.Vfs.Session.Materialized.{Anyhow, Written, materialize_current-Written}
use codexfold.Vfs.Session.Stalls.{materialize_loop-stalls}
use codexfold.Vfs.Session.Tests.{
  well_host, session, base, session-IsServed, no_collisions, well_host-IsWell,
}

abbrev target : Bytes
target = b't' ∷ []

materialize_current-Written_example :
    Ends Anyhow
      (Written target (visible base session))
      (materialize_current well_host 20 target false session)
materialize_current-Written_example =
    materialize_current-Written well_host base target session session-IsServed no_collisions 20
      false

-- A backing file of one byte, where the reader has counted three.
abbrev cut : Files
cut p = some (b'x' ∷ [])

abbrev reader : ReadHandle
reader = record {
  generation = 1;
  base = view;
  base_bytes = 8;
  path = target;
  backing = true;
  delta_bytes = 0;
  size = 3;
  closed = false;
  close_failure = none;
}

materialize_loop-stalls_example : materialize_loop well_host cut reader 1000 [] ≡ err out_of_fuel
materialize_loop-stalls_example =
    materialize_loop-stalls well_host cut reader well_host-IsWell (λ n. refl) refl refl
      (omega arith) 1000
