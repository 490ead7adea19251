-- ===== src/Transport/SyncServer.antt =====
-- extensions/muxio-sync-rpc-server/src/rpc_sync_server.rs: `RpcSyncServer`, a server on a pipe with a
-- thread that reads. The thread's steps are those between which others can come: a read, the store
-- of the flag, and the teardown.
pub mod Life
pub mod Setup
use Prim.Native.String.{String}
use rust_muxio.Prelude.{ℕ, Bool, true, Option, none, some, List, [], ◌∷◌, ◌++◌, if◌then◌else◌}
use rust_muxio.Service.Endpoint.Reading.{EndpointState}
use rust_muxio.Transport.Link
use rust_muxio.Transport.Link.{Link, connected, disconnected, report, disconnect}
use rust_muxio.Transport.Program.{Program, serve, fail_pending}
use rust_muxio.Transport.WriteLoop.{write_loop, write_chunk}
use rust_muxio.Transport.Source.{
  ReadResult, bytes, end_of_file, failed, disconnect_reason, keep_first,
}

-- Where the reader thread is: in its loop, behind it, behind the store of the flag, or done.
pub data Reader : Type 0 where
  reading left stored done : Reader

-- `disconnected_tx` is what was sent on that channel.
pub record RpcSyncServer (R S V N : Type 0) : Type 0 where
  pub link : Link N (List ℕ)
  pub state : EndpointState R S (Unit {0}) V
  pub disconnect_error : Option String
  pub reader : Reader
  pub disconnected_tx : List (Unit {0})

-- `setup`, then `start`; `dispatcher` is what `RpcDispatcher::new` makes.
unfoldable pub new : {R S V N : Type 0} → EndpointState R S (Unit {0}) V → RpcSyncServer R S V N
unfolding Link.fresh
new dispatcher = record {
  link = Link.fresh true;
  state = dispatcher;
  disconnect_error = none;
  reader = reading;
  disconnected_tx = [];
}

module _ {R S V N : Type 0} where
  unfoldable pub emit : List ℕ → RpcSyncServer R S V N → RpcSyncServer R S V N
  emit chunk s = record s { link = record s.link { sent = s.link.sent ++ chunk ∷ [] } }

  -- A handler that comes late is told that the transport is gone.
  unfoldable pub set_state_change_handler : N → RpcSyncServer R S V N → RpcSyncServer R S V N
  unfolding report
  set_state_change_handler handler s =
      let l = record s.link { state_change_handler = some handler } in
      record s { link = if l.is_connected then report connected l else report disconnected l }

  -- The store of the flag, behind the loop.
  unfoldable pub store_disconnected : RpcSyncServer R S V N → RpcSyncServer R S V N
  store_disconnected s = record s { link = disconnect s.link; reader = stored }

-- The writer thread, as in the client.
unfoldable pub writer_thread :
    {W : Type 0} → (List ℕ → W → Bool × W) → (W → Bool × W) → List (List ℕ) → W → Bool × W
unfolding write_loop write_chunk
writer_thread write_all flush chunks w = write_loop (write_chunk write_all flush) chunks w

module _ {R S V N P : Type 0} (program : Program R S (Unit {0}) V P) where
  -- A read of the reader thread.
  unfoldable pub read_one : ReadResult → RpcSyncServer R S V N → RpcSyncServer R S V N
  unfolding serve keep_first
  read_one (bytes b) s = record s { state = serve program b tt s.state }
  read_one end_of_file s = record s {
    disconnect_error = keep_first "unexpected EOF (transport closed)" s.disconnect_error;
    reader = left;
  }
  read_one (failed e) s = record s { reader = left }

  -- The rest of the thread: the report, the pending calls, the signal to `join_reader`.
  unfoldable pub tear_down : RpcSyncServer R S V N → RpcSyncServer R S V N
  unfolding report fail_pending disconnect_reason
  tear_down s = record s {
    link = report disconnected s.link;
    state = fail_pending program (disconnect_reason s.disconnect_error) s.state;
    reader = done;
    disconnected_tx = s.disconnected_tx ++ tt ∷ [];
  }

  -- The whole thread, undisturbed; `none` where it waits for more to read.
  unfoldable pub reader_thread :
      List ReadResult → RpcSyncServer R S V N → Option (RpcSyncServer R S V N)
  unfolding read_one store_disconnected tear_down
  reader_thread [] s = none
  reader_thread (bytes b ∷ rest) s = reader_thread rest (read_one (bytes b) s)
  reader_thread (end_of_file ∷ rest) s =
      some (tear_down (store_disconnected (read_one end_of_file s)))
  reader_thread (failed e ∷ rest) s = some (tear_down (store_disconnected (read_one (failed e) s)))
