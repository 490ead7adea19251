-- ===== src/Transport/IpcServer/Serving/Events.antt =====
-- What the events of a server tell of its connections, whatever comes.
use rust_muxio.Prelude.{
  ℕ, ◌+◌, ◌<◌, ◌^◌, ◌%◌, ◌≡◌, refl, sym, ap, ◌∙◌, subst, Option, none, some, List, [], ◌∷◌, ◌++◌,
  arith,
}
use rust_muxio.Prelude.Map.{get, insert, remove}
use rust_muxio.Service.Endpoint.Reading.{EndpointState}
use rust_muxio.Transport.Program.{Program}
use rust_muxio.Transport.Source.{bytes, end_of_file, failed}
use rust_muxio.Transport.IpcServer.{
  RpcIpcServerEvent, client_connected, client_disconnected, Turn, reader, writer_ended, send_event,
  RpcIpcConnection, on_read, accept_connection, handle_connection, tear_down,
}
use rust_muxio.Transport.IpcServer.Life.{IsLastTurn, handle_connection-IsClosed}
use rust_muxio.Transport.IpcServer.Serving.{
  RpcIpcServer, Accepted, connection, refused, new, accept_next, put_back, on_turn, turn,
}
use rust_muxio.Transport.IpcServer.Serving.Changes.{
  AreTold, new-AreTold, put_in-AreTold, replace-AreTold, end-AreTold,
}

module _ {R S C V P : Type 0} (program : Program R S C V P) (context : ℕ → C) where
  -- Accepts and turns of connections, in any order, as long as the numbers do not wrap.
  pub data Reachable : RpcIpcServer R S C V → Type 0 where
    start : Reachable (new (some []))
    accepted :
        {s : RpcIpcServer R S C V}
        → Reachable s
        → (a : Accepted R S C V) → s.next_conn_id + 1 < 2 ^ 64
        → Reachable (accept_next a s)
    turned :
        {s : RpcIpcServer R S C V}
        → Reachable s
        → (id : ℕ) (t : Turn) → Reachable (turn program context id t s)

  on_turn-ends :
      (t : Turn) (c : RpcIpcConnection R S C V) (s : RpcIpcServer R S C V)
      → IsLastTurn t
      → on_turn program context t c s ≡ record s {
        connections = remove c.conn_id s.connections;
        event_tx = send_event (client_disconnected c.conn_id) s.event_tx;
      }
  unfolding on_turn put_back handle_connection tear_down
  on_turn-ends (reader (bytes b)) c s h = absurd h
  on_turn-ends (reader end_of_file) c s h = refl
  on_turn-ends (reader (failed e)) c s h = refl
  on_turn-ends (writer_ended before behind) c s h =
      let p =
        handle_connection-IsClosed program (context c.conn_id) [] (writer_ended before behind) []
          (record c { event_tx = s.event_tx }) tt in
      ap (λ o. put_back c.conn_id o s) p.ends
      ∙ ap (λ e. record s { connections = remove c.conn_id s.connections; event_tx = e })
          p.one_event

  accept_next_lem :
      (dispatcher : EndpointState R S C V) (s : RpcIpcServer R S C V)
      (events : List RpcIpcServerEvent)
      → s.event_tx ≡ some events
      → s.next_conn_id + 1 < 2 ^ 64
      → (c : RpcIpcConnection R S C V) × (accept_next (connection dispatcher) s ≡ record {
        connections = insert s.next_conn_id c s.connections;
        event_tx = some (events ++ client_connected s.next_conn_id ∷ []);
        next_conn_id = s.next_conn_id + 1;
      })
        × (c.conn_id ≡ s.next_conn_id)
  unfolding accept_next accept_connection send_event
  accept_next_lem dispatcher s events logged few = (
    (accept_connection dispatcher s.event_tx s.next_conn_id).0,
    λ i. record {
      connections =
          insert s.next_conn_id (accept_connection dispatcher s.event_tx s.next_conn_id).0
            s.connections;
      event_tx = ap (send_event (client_connected s.next_conn_id)) logged i;
      next_conn_id = small (s.next_conn_id + 1) few i;
    },
    refl,
  )
    where
      small : (n : ℕ) → n < 2 ^ 64 → n % 2 ^ 64 ≡ n
      small n few = omega arith

  ended :
      (tn : Turn) (s : RpcIpcServer R S C V) (n : ℕ) (c : RpcIpcConnection R S C V) (t : AreTold s)
      → get n s.connections ≡ some c
      → IsLastTurn tn
      → AreTold (on_turn program context tn c s)
  unfolding send_event
  ended tn s n c t there last =
      let (is_named, some_number, below) = t.named n c there in
      rw (on_turn-ends tn c s last, is_named, t.is_logged) (end-AreTold s n c t there)

  on_turn-AreTold :
      (tn : Turn) (s : RpcIpcServer R S C V) (n : ℕ) (c : RpcIpcConnection R S C V) (t : AreTold s)
      → get n s.connections ≡ some c
      → AreTold (on_turn program context tn c s)
  unfolding on_turn
  on_turn-AreTold (reader (bytes b)) s n c t there =
      let (is_named, some_number, below) = t.named n c there in
      let c' = record c { state = on_read program (context c.conn_id) b c.state } in
      subst (λ k. AreTold (record s { connections = insert k c' s.connections })) (sym is_named)
        (replace-AreTold s n c c' t there is_named)
  on_turn-AreTold (reader end_of_file) s n c t there = ended (reader end_of_file) s n c t there tt
  on_turn-AreTold (reader (failed e)) s n c t there = ended (reader (failed e)) s n c t there tt
  on_turn-AreTold (writer_ended before behind) s n c t there =
      ended (writer_ended before behind) s n c t there tt

  turn-AreTold :
      (tn : Turn) (s : RpcIpcServer R S C V) (n : ℕ)
      → AreTold s
      → AreTold (turn program context n tn s)
  unfolding turn
  turn-AreTold tn s n t = go (get n s.connections) refl
    where
      go :
          (c : Option (RpcIpcConnection R S C V))
          → get n s.connections ≡ c
          → AreTold (turn program context n tn s)
      go none e = rw (turn, e) t
      go (some c) e = rw (turn, e) (on_turn-AreTold tn s n c t e)

  accept_next-AreTold :
      (a : Accepted R S C V) (s : RpcIpcServer R S C V)
      → s.next_conn_id + 1 < 2 ^ 64
      → AreTold s
      → AreTold (accept_next a s)
  unfolding accept_next
  accept_next-AreTold refused s few t = t
  accept_next-AreTold (connection dispatcher) s few t =
      let (c, e, named) = accept_next_lem dispatcher s t.events t.is_logged few in
      rw e (put_in-AreTold s c t named)

  -- However connections come, are refused, read and end, in any order, as long as their numbers fit
  -- 64 bits, the events of a server on local sockets tell of each connection its connect, once, and
  -- its disconnect, once and behind that, exactly where it is not there any more; of numbers that no
  -- connection has had they tell nothing; and a connection is kept under its own number.
  pub Reachable-AreTold : {s : RpcIpcServer R S C V} → Reachable s → AreTold s
  Reachable-AreTold start = new-AreTold
  Reachable-AreTold (accepted {s} r a few) = accept_next-AreTold a s few (Reachable-AreTold r)
  Reachable-AreTold (turned {s} r id t) = turn-AreTold t s id (Reachable-AreTold r)
