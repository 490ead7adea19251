-- ===== src/Transport/Wasm.antt =====
-- extensions/muxio-wasm-rpc-client/src/rpc_wasm_client.rs: `RpcWasmClient`. The emit callback is the
-- list of the chunks that were emitted by calls. An operation is one step, its locks being free.
pub mod Life
use rust_muxio.Prelude.{true, false, List, [], ◌∷◌, ◌++◌, if◌then◌else◌}
use rust_muxio.Frame.Types.{read_after_cancel}
use rust_muxio.Service.Endpoint.Reading.{EndpointState}
use rust_muxio.Prelude.{ℕ}
use rust_muxio.Transport.Link
use rust_muxio.Transport.Link.{Link, connected, disconnected, report, disconnect}
use rust_muxio.Transport.Program.{Program, serve, fail_pending}

pub record RpcWasmClient (R S V N : Type 0) : Type 0 where
  pub link : Link N (List ℕ)
  pub state : EndpointState R S (Unit {0}) V

-- `dispatcher` is what `RpcDispatcher::new` makes.
unfoldable pub new : {R S V N : Type 0} → EndpointState R S (Unit {0}) V → RpcWasmClient R S V N
unfolding Link.fresh
new dispatcher = record { link = Link.fresh false; state = dispatcher }

module _ {R S V N : Type 0} where
  unfoldable pub handle_connect : RpcWasmClient R S V N → RpcWasmClient R S V N
  unfolding report
  handle_connect c = record c { link = report connected (record c.link { is_connected = true }) }

  unfoldable pub set_state_change_handler : N → RpcWasmClient R S V N → RpcWasmClient R S V N
  unfolding Link.set_state_change_handler
  set_state_change_handler handler c = record c {
    link = Link.set_state_change_handler handler c.link;
  }

  -- `get_emit_fn`: the callback itself, whether the client is connected or not.
  unfoldable pub emit : List ℕ → RpcWasmClient R S V N → RpcWasmClient R S V N
  emit chunk c = record c { link = record c.link { sent = c.link.sent ++ chunk ∷ [] } }

module _ {R S V N P : Type 0} (program : Program R S (Unit {0}) V P) where
  unfoldable pub read_bytes : List ℕ → RpcWasmClient R S V N → RpcWasmClient R S V N
  unfolding serve
  read_bytes bytes c = record c { state = serve program bytes tt c.state }

  unfoldable pub handle_disconnect : RpcWasmClient R S V N → RpcWasmClient R S V N
  unfolding report fail_pending
  handle_disconnect c =
      if c.link.is_connected
      then record c {
        link = report disconnected (disconnect c.link);
        state = fail_pending program read_after_cancel c.state;
      }
      else c
