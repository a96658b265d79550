-- ===== src/Gui/Server/Examples.antt =====
-- server.rs: a client's session, as an example of the server's theorems.
use dunit_os.Prelude.{ℕ, ◌≡◌, refl, arith, true, false, List, [], ◌∷◌, none, some}
use dunit_os.Prelude.Int.{pos}
use dunit_os.Prelude.Table.{lookup, insert, size}
use dunit_os.Prelude.Results.{◌>>=◌, ◌>>◌}
use dunit_os.Gui.Wire.Request
use dunit_os.Gui.Wire.Request.{Request}
use dunit_os.Gui.Server.State.{
  Object, BufState, Phase, new_connection, new_surface, argb_enabled, check_format, dim_ok,
  surface_of, put_surface, buffer_of, check_fresh,
}
use dunit_os.Gui.Server.Seat.{idle_seat}
use dunit_os.Gui.Server.Step.{World, Ctx, settle}
use dunit_os.Gui.Server.Dispatch.{dispatch}
use dunit_os.Gui.Server.Dispatch.Surfaces
use dunit_os.Gui.Server.Dispatch.Commit
use dunit_os.Gui.Server.Pipeline.{Server, new_server, connect, deliver}
use dunit_os.Gui.Server.Calls.{Call, after, run}
use dunit_os.Gui.Server.Consistent.{IsConsistent, new-IsConsistent}
use dunit_os.Gui.Server.Sound.{Sound}
use dunit_os.Gui.Server.Coherent.{IsCoherent}
use dunit_os.Gui.Server.Atomic.{has_error, dispatch_atomic}
use dunit_os.Gui.Server.Bookkeeping.{dispatch-IsConsistent}
use dunit_os.Gui.Server.Guards.{Committable, commit_lem}
use dunit_os.Gui.Server.Reachable.{
  run-Sound, run-IsCoherent, new_server-Sound, new_server-IsCoherent,
}
use dunit_os.Gui.Server.Serials.{
  deliveries, Rejects, Outcome, Sends, deliver-Outcome, deliver_replay, deliver_numbering,
}

abbrev hello_packet : List ℕ
hello_packet = Request.encode (Request.hello 0 0 0 0) 0 1

abbrev create_packet : List ℕ
create_packet = Request.encode (Request.create_surface 1 64 48 1) 7 2

abbrev session : List Call
session =
    Call.connect
    ∷ Call.deliver 1 hello_packet none
    ∷ Call.deliver 1 create_packet none
    ∷ Call.set_pointer_focus (some (1, 7)) (pos 1) (pos 2)
    ∷ Call.pointer_button 1 true
    ∷ Call.composite
    ∷ []

run-Sound_example : Sound (run session new_server)
run-Sound_example =
    run-Sound session new_server (omega arith, (tt, (tt, (tt, (tt, (tt, tt)))))) new_server-Sound

run-IsCoherent_example : IsCoherent (run session new_server).seat
run-IsCoherent_example = run-IsCoherent session new_server new_server-IsCoherent

abbrev connected : Server
connected = record new_server { next_conn = 2; conns = (1, new_connection 0) ∷ [] }

connected-Sound : Sound connected
unfolding run after connect size insert
connected-Sound = run-Sound (Call.connect ∷ []) new_server (omega arith, tt) new_server-Sound

connected_lookup : lookup 1 connected.conns ≡ some (new_connection 0)
unfolding lookup
connected_lookup = refl

deliver-Outcome_example :
    Outcome 1 hello_packet (new_connection 0) (deliver 1 hello_packet none connected).0
deliver-Outcome_example =
    deliver-Outcome 1 hello_packet none connected (new_connection 0) connected-Sound
      connected_lookup

deliver_numbering_example : Sends 1 (new_connection 0) (deliver 1 hello_packet none connected)
deliver_numbering_example =
    deliver_numbering 1 hello_packet none connected (new_connection 0) connected-Sound
      connected_lookup

deliver_replay_example :
    Rejects 1 hello_packet none
      (deliveries ((1, create_packet, none) ∷ []) (deliver 1 hello_packet none connected).0)
deliver_replay_example =
    deliver_replay 1 hello_packet none none ((1, create_packet, none) ∷ []) connected
      (new_connection 0) connected-Sound connected_lookup

abbrev active_world : World
active_world = record {
  conn = record (new_connection 0) { phase = Phase.active; last_client_serial = 5 };
  ncid = 2;
  seat = idle_seat;
}

abbrev request_ctx : Ctx
request_ctx = record { conn_id = 1; now_ns = 10; object = 7; serial = 6 }

-- A surface of no width is refused.
refused :
    has_error (dispatch active_world request_ctx (Request.create_surface 1 0 48 1) none).events
    ≡ true
unfolding dispatch Surfaces.create_surface settle ◌>>◌ ◌>>=◌ check_fresh check_format argb_enabled
    dim_ok
refused = refl

dispatch_atomic_example :
    (dispatch active_world request_ctx (Request.create_surface 1 0 48 1) none).world ≡ active_world
dispatch_atomic_example =
    dispatch_atomic active_world request_ctx (Request.create_surface 1 0 48 1) none refused

active-IsConsistent : IsConsistent active_world.conn
active-IsConsistent = record {
  sorted = v.sorted;
  surface_count = v.surface_count;
  buffer_count = v.buffer_count;
  backing_count = v.backing_count;
  surfaces_max = v.surfaces_max;
  buffers_max = v.buffers_max;
  backing_max = v.backing_max;
  unused = v.unused;
}
  where
    v : IsConsistent (new_connection 0)
    v = new-IsConsistent 0

dispatch-IsConsistent_example :
    IsConsistent
      (dispatch active_world request_ctx (Request.create_surface 1 64 48 1) none).world.conn
dispatch-IsConsistent_example =
    dispatch-IsConsistent active_world request_ctx (Request.create_surface 1 64 48 1) none
      active-IsConsistent

-- A surface whose configure is acknowledged, with an attached buffer of its size.
abbrev attached_world : World
attached_world = record {
  conn = record (new_connection 0) {
    phase = Phase.active;
    last_client_serial = 9;
    objects =
        (
          7,
          Object.surface (record (new_surface 1 64 48 3) {
            acked_token = 3;
            pending_attach = true;
            pending_buffer = 8;
          }),
        )
        ∷ (
          8,
          Object.buffer (record {
            width = 64;
            height = 48;
            format = 1;
            backing = 12288;
            state = BufState.pending;
            commit_token = 0;
          }),
        )
        ∷ [];
    id_watermark = 8;
    surfaces = 1;
    buffers = 1;
    backing_bytes = 12288;
  };
  ncid = 2;
  seat = idle_seat;
}

commit_succeeds : has_error (Commit.commit attached_world request_ctx 3 1).events ≡ false
unfolding Commit.commit Commit.commit_map Commit.release_old settle ◌>>◌ ◌>>=◌ surface_of buffer_of
    put_surface lookup
commit_succeeds = refl

commit_lem_example : Committable attached_world request_ctx 3 1
commit_lem_example = commit_lem attached_world request_ctx 3 1 commit_succeeds
