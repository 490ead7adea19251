-- ===== src/Transport/IpcServer/Serving.antt =====
-- extensions/muxio-tokio-rpc-ipc-server/src/rpc_ipc_server.rs: `RpcIpcServer` with all of its
-- connections, and the loop that accepts them. The connections that are there are those whose tasks
-- have not ended; they share the channel of events, and come to their turns in any order.
pub mod History
pub mod Changes
pub mod Events
use rust_muxio.Prelude.{ℕ, Option, none, some, List, [], ◌∷◌}
use rust_muxio.Prelude.Map.{Map, get, insert, remove}
use rust_muxio.Service.Endpoint.Reading.{EndpointState}
use rust_muxio.Transport.Program.{Program}
use rust_muxio.Transport.Source.{bytes, end_of_file, failed}
use rust_muxio.Transport.IpcServer.{
  RpcIpcServerEvent, Turn, reader, writer_ended, RpcIpcConnection, accept_connection, on_read,
  handle_connection,
}

pub record RpcIpcServer (R S C V : Type 0) : Type 0 where
  pub connections : Map (RpcIpcConnection R S C V)
  pub event_tx : Option (List RpcIpcServerEvent)
  pub next_conn_id : ℕ

-- What `listener.accept()` gives: a connection, for which `new_with_id_space` makes a dispatcher, or
-- an error.
pub data Accepted (R S C V : Type 0) : Type 0 where
  connection : EndpointState R S C V → Accepted R S C V
  refused : Accepted R S C V

module _ {R S C V : Type 0} where
  -- `NEXT_CONN_ID` is as in a new process.
  unfoldable pub new : Option (List RpcIpcServerEvent) → RpcIpcServer R S C V
  new event_tx = record { connections = []; event_tx = event_tx; next_conn_id = 1 }

  -- A round of the loop: a connection's task begins, and an error is passed over.
  unfoldable pub accept_next : Accepted R S C V → RpcIpcServer R S C V → RpcIpcServer R S C V
  unfolding accept_connection insert
  accept_next refused s = s
  accept_next (connection dispatcher) s =
      let (c, next) = accept_connection dispatcher s.event_tx s.next_conn_id in
      record {
        connections = insert c.conn_id c s.connections;
        event_tx = c.event_tx;
        next_conn_id = next;
      }

  -- What is left of a connection and of the channel of events behind a turn.
  unfoldable pub put_back :
      ℕ → Option (RpcIpcConnection R S C V) → RpcIpcServer R S C V → RpcIpcServer R S C V
  unfolding remove
  put_back id none s = s
  put_back id (some ended) s = record s {
    connections = remove id s.connections;
    event_tx = ended.event_tx;
  }

  module _ {P : Type 0} (program : Program R S C V P) (context : ℕ → C) where
    -- A turn of a connection: it reads, or its tasks end.
    unfoldable pub on_turn :
        Turn → RpcIpcConnection R S C V → RpcIpcServer R S C V → RpcIpcServer R S C V
    unfolding on_read handle_connection insert put_back
    on_turn (reader (bytes b)) c s = record s {
      connections =
          insert c.conn_id (record c { state = on_read program (context c.conn_id) b c.state })
            s.connections;
    }
    on_turn (reader end_of_file) c s =
        put_back c.conn_id
          (handle_connection program (context c.conn_id) (reader end_of_file ∷ [])
            (record c { event_tx = s.event_tx }))
          s
    on_turn (reader (failed e)) c s =
        put_back c.conn_id
          (handle_connection program (context c.conn_id) (reader (failed e) ∷ [])
            (record c { event_tx = s.event_tx }))
          s
    on_turn (writer_ended before behind) c s =
        put_back c.conn_id
          (handle_connection program (context c.conn_id) (writer_ended before behind ∷ [])
            (record c { event_tx = s.event_tx }))
          s

    -- The turn of the connection with a number; one that has ended has no turns.
    unfoldable pub turn : ℕ → Turn → RpcIpcServer R S C V → RpcIpcServer R S C V
    unfolding get on_turn
    turn id t s = elim (get id s.connections) [ none ↦ s | some c ↦ on_turn t c s ]
