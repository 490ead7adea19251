-- ===== src/Transport/SyncClient.antt =====
-- extensions/muxio-sync-rpc-client/src/rpc_sync_client.rs: `RpcSyncClient`, a client on a pipe with a
-- thread that reads.
pub mod Life
pub mod Child
use Prim.Native.String.{String}
use rust_muxio.Prelude.{ℕ, Bool, true, Option, none, some, List, [], ◌∷◌, ◌++◌, if◌then◌else◌}
use rust_muxio.Service.Endpoint.Reading.{EndpointState}
use rust_muxio.Transport.Link
use rust_muxio.Transport.Link.{Link, connected, disconnected, report, disconnect}
use rust_muxio.Transport.Program.{Program, serve, fail_pending}
use rust_muxio.Transport.WriteLoop.{write_loop, write_chunk}
use rust_muxio.Transport.Source.{
  ReadResult, bytes, end_of_file, failed, disconnect_reason, keep_first,
}

pub record RpcSyncClient (R S V N : Type 0) : Type 0 where
  pub link : Link N (List ℕ)
  pub state : EndpointState R S (Unit {0}) V
  pub disconnect_error : Option String

unfoldable pub new : {R S V N : Type 0} → EndpointState R S (Unit {0}) V → RpcSyncClient R S V N
unfolding Link.fresh
new dispatcher = record { link = Link.fresh true; state = dispatcher; disconnect_error = none }

module _ {R S V N : Type 0} where
  -- `is_free` tells whether `try_lock` gets the handler's lock.
  unfoldable pub shutdown_sync : Bool → RpcSyncClient R S V N → RpcSyncClient R S V N
  unfolding report
  shutdown_sync is_free c =
      if c.link.is_connected
      then record c {
        link = if is_free then report disconnected (disconnect c.link) else disconnect c.link;
      }
      else c

  unfoldable pub emit : List ℕ → RpcSyncClient R S V N → RpcSyncClient R S V N
  unfolding Link.emit
  emit chunk c = record c { link = Link.emit chunk c.link }

  -- A handler that comes late is told that the transport is gone.
  unfoldable pub set_state_change_handler : N → RpcSyncClient R S V N → RpcSyncClient R S V N
  unfolding report
  set_state_change_handler handler c =
      let l = record c.link { state_change_handler = some handler } in
      record c { link = if l.is_connected then report connected l else report disconnected l }

-- The writer thread over the chunks that are queued: whether it got to their end, and the pipe.
unfoldable pub writer_thread :
    {W : Type 0} → (List ℕ → W → Bool × W) → (W → Bool × W) → List (List ℕ) → W → Bool × W
unfolding write_loop write_chunk
writer_thread write_all flush chunks w = write_loop (write_chunk write_all flush) chunks w

module _ {R S V N P : Type 0} (program : Program R S (Unit {0}) V P) where
  -- What the reader thread does behind its loop.
  unfoldable pub tear_down : RpcSyncClient R S V N → RpcSyncClient R S V N
  unfolding report fail_pending disconnect_reason
  tear_down c =
      if c.link.is_connected
      then record c {
        link = report disconnected (disconnect c.link);
        state = fail_pending program (disconnect_reason c.disconnect_error) c.state;
      }
      else c

  -- The reader thread; `none` where it waits for more to read.
  unfoldable pub reader_thread :
      List ReadResult → RpcSyncClient R S V N → Option (RpcSyncClient R S V N)
  unfolding serve tear_down keep_first
  reader_thread [] c = none
  reader_thread (bytes b ∷ rest) c =
      reader_thread rest (record c { state = serve program b tt c.state })
  reader_thread (end_of_file ∷ rest) c = some (
      tear_down (record c {
        disconnect_error = keep_first "unexpected EOF (transport closed)" c.disconnect_error;
      }))
  reader_thread (failed e ∷ rest) c = some (tear_down c)
