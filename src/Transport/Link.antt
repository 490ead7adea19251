-- ===== src/Transport/Link.antt =====
-- The connection state that every client keeps, and its change handler:
-- extensions/muxio-rpc-service-caller/src/transport_state.rs, and the fields `is_connected`,
-- `state_change_handler` and the sender of the clients. A handler is a value of a type `N`, and a
-- client keeps the list of what handlers were told. No lock is poisoned. What is sent on the write
-- channel is of a type `M`.
pub mod Reports
use rust_muxio.Prelude.{Bool, false, Option, none, some, List, [], ◌∷◌, ◌++◌, if◌then◌else◌}

pub data RpcTransportState : Type 0 where
  connected disconnected connecting : RpcTransportState

pub record Link (N M : Type 0) : Type 0 where
  pub is_connected : Bool
  pub state_change_handler : Option N
  pub reports : List (N × RpcTransportState)
  pub sent : List M

unfoldable pub fresh : {N M : Type 0} → Bool → Link N M
fresh is_connected = record {
  is_connected = is_connected;
  state_change_handler = none;
  reports = [];
  sent = [];
}

module _ {N M : Type 0} where
  -- `if let Some(handler) = guard.as_ref() { handler(state) }`
  unfoldable pub report_to : Option N → RpcTransportState → Link N M → Link N M
  report_to none state l = l
  report_to (some handler) state l = record l { reports = l.reports ++ (handler, state) ∷ [] }

  unfoldable pub report : RpcTransportState → Link N M → Link N M
  unfolding report_to
  report state l = report_to l.state_change_handler state l

  abbrev pub disconnect : Link N M → Link N M
  disconnect l = record l { is_connected = false }

  -- `shutdown_sync` of the clients on tokio: a disconnect is reported where it is one. Only the drop
  -- calls it, when the last reference to the client is gone, so that nothing comes between the swap
  -- of the flag and the lock of the handler.
  unfoldable pub shutdown_sync : Link N M → Link N M
  unfolding report
  shutdown_sync l = if l.is_connected then report disconnected (disconnect l) else l

  -- `set_state_change_handler` of the clients on tokio and of the wasm client.
  unfoldable pub set_state_change_handler : N → Link N M → Link N M
  unfolding report
  set_state_change_handler handler l =
      let l' = record l { state_change_handler = some handler } in
      if l.is_connected then report connected l' else l'

  -- What `get_emit_fn` gives: a disconnected client drops the chunk.
  unfoldable pub emit : M → Link N M → Link N M
  emit chunk l = if l.is_connected then record l { sent = l.sent ++ chunk ∷ [] } else l
