-- ===== src/Transport/Ipc.antt =====
-- extensions/muxio-tokio-rpc-ipc-client/src/rpc_ipc_client.rs: `RpcIpcClient`, the client on a local
-- socket. `pending_writes` is CLIENT_PENDING_WRITES, of which the client is the only user.
pub mod Life
use Prim.Native.String.{String}
use rust_muxio.Prelude.{
  ℕ, ◌+◌, ◌-◌, ◌%◌, ◌^◌, ◌==◌, Bool, true, Option, none, some, List, [], ◌∷◌, ◌++◌, if◌then◌else◌,
}
use rust_muxio.Service.Endpoint.Reading.{EndpointState}
use rust_muxio.Transport.Link
use rust_muxio.Transport.Link.{Link, disconnected, report, disconnect}
use rust_muxio.Transport.Program.{Program, fail_pending}
use rust_muxio.Transport.ReadLoop.{on_bytes}
use rust_muxio.Transport.Source.{
  ReadResult, bytes, end_of_file, failed, disconnect_reason, keep_first,
}

-- `link.sent` is the write queue.
pub record RpcIpcClient (R S V N : Type 0) : Type 0 where
  pub link : Link N (List ℕ)
  pub state : EndpointState R S (Unit {0}) V
  pub disconnect_error : Option String
  pub pending_writes : ℕ

unfoldable pub new : {R S V N : Type 0} → EndpointState R S (Unit {0}) V → RpcIpcClient R S V N
unfolding Link.fresh
new dispatcher = record {
  link = Link.fresh true;
  state = dispatcher;
  disconnect_error = none;
  pending_writes = 0;
}

-- `try_update` with a decrement that stops at 0.
unfoldable pub one_less : ℕ → ℕ
one_less n = if n == 0 then n else n - 1

module _ {R S V N : Type 0} where
  unfoldable pub shutdown_sync : RpcIpcClient R S V N → RpcIpcClient R S V N
  unfolding Link.shutdown_sync
  shutdown_sync c = record c { link = Link.shutdown_sync c.link }

  unfoldable pub set_state_change_handler : N → RpcIpcClient R S V N → RpcIpcClient R S V N
  unfolding Link.set_state_change_handler
  set_state_change_handler handler c = record c {
    link = Link.set_state_change_handler handler c.link;
  }

  -- `is_open` tells whether the write task still takes chunks.
  unfoldable pub emit : Bool → List ℕ → RpcIpcClient R S V N → RpcIpcClient R S V N
  unfolding one_less
  emit is_open chunk c =
      let pending = (c.pending_writes + 1) % 2 ^ 64 in
      if c.link.is_connected
      then (if is_open
          then record c {
            link = record c.link { sent = c.link.sent ++ chunk ∷ [] };
            pending_writes = pending;
          }
          else record c { pending_writes = one_less pending })
      else c

  -- One round of the write task: a chunk leaves the queue, whether it could be written or not.
  unfoldable pub write_next : RpcIpcClient R S V N → RpcIpcClient R S V N
  unfolding one_less
  write_next c = elim c.link.sent [
    | [] ↦ c
    | (_ ∷ rest) ↦ record c {
      link = record c.link { sent = rest };
      pending_writes = one_less c.pending_writes;
    }
  ]

module _ {R S V N P : Type 0} (program : Program R S (Unit {0}) V P) where
  -- The flag is not looked at.
  unfoldable pub shutdown_async : RpcIpcClient R S V N → RpcIpcClient R S V N
  unfolding report fail_pending disconnect_reason
  shutdown_async c = record c {
    link = report disconnected (disconnect c.link);
    state = fail_pending program (disconnect_reason c.disconnect_error) c.state;
  }

  -- The reads of the socket, through the body of the read loop; the task ends at the end of the
  -- stream, and still waits where the reads so far have none.
  unfoldable pub read_task : List ReadResult → RpcIpcClient R S V N → Option (RpcIpcClient R S V N)
  unfolding on_bytes shutdown_async keep_first
  read_task [] c = none
  read_task (bytes b ∷ rest) c = read_task rest (record c { state = on_bytes program tt b c.state })
  read_task (end_of_file ∷ rest) c = some (
      shutdown_async (record c {
        disconnect_error = keep_first "unexpected EOF (connection closed)" c.disconnect_error;
      }))
  read_task (failed e ∷ rest) c = some (shutdown_async (record c { disconnect_error = some e }))
