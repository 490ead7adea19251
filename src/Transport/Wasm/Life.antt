-- ===== src/Transport/Wasm/Life.antt =====
-- The life of a wasm client: connects, reads and disconnects in any order.
use rust_muxio.Prelude.{ℕ, ◌≡◌, refl, true, false, List}
use rust_muxio.Frame.Types.{read_after_cancel}
use rust_muxio.Service.Endpoint.Reading.{EndpointState}
use rust_muxio.Transport.Link.{report, disconnect, disconnected}
use rust_muxio.Transport.Link.Reports.{report_to-is_connected}
use rust_muxio.Transport.Program.{Program, IsIdle, fail_pending-IsIdle}
use rust_muxio.Transport.Wasm.{
  RpcWasmClient, new, handle_connect, handle_disconnect, read_bytes, set_state_change_handler, emit,
}

module _ {R S V N P : Type 0} (program : Program R S (Unit {0}) V P) where
  -- One operation of the client; a call changes the dispatcher in any way.
  pub data Step : RpcWasmClient R S V N → RpcWasmClient R S V N → Type 0 where
    connects : (c : RpcWasmClient R S V N) → Step c (handle_connect c)
    reads : (bytes : List ℕ) (c : RpcWasmClient R S V N) → Step c (read_bytes program bytes c)
    disconnects : (c : RpcWasmClient R S V N) → Step c (handle_disconnect program c)
    listens : (h : N) (c : RpcWasmClient R S V N) → Step c (set_state_change_handler h c)
    emits : (chunk : List ℕ) (c : RpcWasmClient R S V N) → Step c (emit chunk c)
    calls :
        (state : EndpointState R S (Unit {0}) V) (c : RpcWasmClient R S V N)
        → Step c (record c { state = state })

  pub data Reachable : RpcWasmClient R S V N → Type 0 where
    start : (dispatcher : EndpointState R S (Unit {0}) V) → Reachable (new dispatcher)
    next : {c c' : RpcWasmClient R S V N} → Reachable c → Step c c' → Reachable c'

  -- A disconnect of a connected client leaves it disconnected with no call waiting, and a second one
  -- changes nothing.
  pub handle_disconnect_once :
      (c : RpcWasmClient R S V N)
      → c.link.is_connected ≡ true
      → ((handle_disconnect program c).link.is_connected ≡ false)
        × IsIdle (handle_disconnect program c).state
        × (handle_disconnect program (handle_disconnect program c) ≡ handle_disconnect program c)
  unfolding handle_disconnect report
  handle_disconnect_once c e =
      let down =
        report_to-is_connected c.link.state_change_handler disconnected (disconnect c.link) in
      rw (e, down) (refl, fail_pending-IsIdle program read_after_cancel c.state, refl)
