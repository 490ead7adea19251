-- ===== src/Transport/Examples.antt =====
-- The theorems of the transports at concrete inputs.
use rust_muxio.Prelude.{ℕ, ◌+◌, ◌≡◌, refl, Bool, true, some, List, [], ◌∷◌, ◌++◌, map, ok, arith}
use rust_muxio.Rpc.Dispatcher
use rust_muxio.Service.Endpoint.Reading.{EndpointState}
use rust_muxio.Transport.Link
use rust_muxio.Transport.Program.{Program}
use rust_muxio.Transport.ReadLoop.{serve_all}
use rust_muxio.Transport.Source.{bytes, end_of_file}
use rust_muxio.Transport.WriteLoop.{
  WriteLoop, spawn_write_loop, send, drop_senders, write_loop, write_chunk,
}
use rust_muxio.Transport.WriteLoop.Life as WriteLoopLife
use rust_muxio.Transport.StaticClient.{static_muxio_handle_connect, fresh}
use rust_muxio.Transport.StaticClient.Promises.{
  Event, inits, calls, begins, finishes, on_thread, on_thread_all,
}
use rust_muxio.Transport.StaticClient.Life.{IsEmpty, IsOne, SameRejected}
use rust_muxio.Transport.StaticClient.One.{effects}
use rust_muxio.Transport.StaticClient.Begin.{on_thread_all-IsOne}
use rust_muxio.Transport.Wasm
use rust_muxio.Transport.Wasm.{RpcWasmClient}
use rust_muxio.Transport.Wasm.Life as WasmLife
use rust_muxio.Transport.Ws
use rust_muxio.Transport.Ws.{RpcClient, binary, begin_shutdown, tell_disconnected}
use rust_muxio.Transport.Ws.Life as WsLife
use rust_muxio.Transport.Ipc
use rust_muxio.Transport.Ipc.Life as IpcLife
use rust_muxio.Transport.SyncServer
use rust_muxio.Transport.SyncServer.{RpcSyncServer}
use rust_muxio.Transport.SyncServer.Life as SyncServerLife
use rust_muxio.Transport.WsServer.{heartbeat, message, closed, receiver_task, handle_socket}
use rust_muxio.Transport.WsServer.Life as WsServerLife
use rust_muxio.Transport.IpcServer
use rust_muxio.Transport.IpcServer.{RpcIpcConnection, Turn, reader, writer_ended, takes, answers}
use rust_muxio.Transport.IpcServer.Life as IpcServerLife

-- A program whose closures count events, and whose handler gives its arguments back.
abbrev a_program : Program ℕ ℕ (Unit {0}) ℕ ℕ
a_program = record {
  on_response = λ h e v. v + h;
  on_stream = λ h e c v. ([], v + h);
  run = λ h args c. ok args;
  encode_payload = λ p. [];
  endpoint = record { prebuffered_handlers = (6, 60) ∷ []; stream_handlers = [] };
}

abbrev a_state : EndpointState ℕ ℕ (Unit {0}) ℕ
a_state = ((Dispatcher.new 0).0, record { responders = []; pending = []; user_state = 0 }, 1)

-- A wasm client that has a handler, 8, connects and disconnects.
abbrev listening : RpcWasmClient ℕ ℕ ℕ ℕ
listening = Wasm.set_state_change_handler 8 (Wasm.new a_state)

abbrev came_and_went :
    WasmLife.Reachable a_program (Wasm.handle_disconnect a_program (Wasm.handle_connect listening))
came_and_went =
    WasmLife.next
      (WasmLife.next
        (WasmLife.next (WasmLife.start a_state) (WasmLife.listens 8 (Wasm.new a_state)))
        (WasmLife.connects listening))
      (WasmLife.disconnects (Wasm.handle_connect listening))

-- A client on a WebSocket that loses its connection, and gets a handler before it tells of that.
abbrev listener : RpcClient ℕ ℕ ℕ ℕ
listener = Ws.set_state_change_handler 8 (Ws.new a_state)

abbrev told : RpcClient ℕ ℕ ℕ ℕ
told = tell_disconnected (Ws.set_state_change_handler 9 (begin_shutdown listener))

Reachable-IsOnce_example : WsLife.IsOnce told
unfolding begin_shutdown Ws.set_state_change_handler Link.set_state_change_handler Ws.new Link.fresh
    Link.report Link.report_to
Reachable-IsOnce_example = WsLife.Reachable-IsOnce a_program {E = ℕ} (
    WsLife.next
      (WsLife.next
        (WsLife.next (WsLife.next (WsLife.start a_state) (WsLife.listens 8 (Ws.new a_state)))
          (WsLife.begins listener))
        (WsLife.listens 9 (begin_shutdown listener)))
      (WsLife.tells 0 (Ws.set_state_change_handler 9 (begin_shutdown listener)) refl))

read_task-IsLost_example :
    IpcLife.IsLost a_program
      (serve_all a_program tt ((1 ∷ []) ∷ []) (Ipc.new {N = ℕ} a_state).state)
      (IpcLife.reason end_of_file (Ipc.new {N = ℕ} a_state).disconnect_error)
      (Ipc.read_task a_program
        (map bytes ((1 ∷ []) ∷ []) ++ end_of_file ∷ [])
        (Ipc.new {N = ℕ} a_state))
read_task-IsLost_example =
    IpcLife.read_task-IsLost a_program ((1 ∷ []) ∷ []) end_of_file [] (Ipc.new a_state) tt

-- A server on a pipe that is closed, with a handler that comes late.
abbrev served : RpcSyncServer ℕ ℕ ℕ ℕ
served = SyncServer.new a_state

abbrev left_loop : RpcSyncServer ℕ ℕ ℕ ℕ
left_loop = SyncServer.read_one a_program end_of_file served

Reachable-IsSound_example :
    SyncServerLife.IsSound
      (SyncServer.set_state_change_handler 8 (SyncServer.store_disconnected left_loop))
Reachable-IsSound_example = SyncServerLife.Reachable-IsSound a_program (
    SyncServerLife.next
      (SyncServerLife.next
        (SyncServerLife.next (SyncServerLife.start a_state)
          (SyncServerLife.reads end_of_file served (unfold SyncServer.new in refl)))
        (SyncServerLife.stores left_loop (unfold SyncServer.read_one in refl)))
      (SyncServerLife.listens 8 (SyncServer.store_disconnected left_loop)))

receiver_task-IsClosed_example :
    WsServerLife.IsClosed a_program tt
      (serve_all a_program tt ((1 ∷ []) ∷ []) (handle_socket 9 a_state (some [])).state)
      (handle_socket 9 a_state (some [])).addr
      (handle_socket 9 a_state (some [])).event_tx
      (receiver_task a_program tt
        (message (binary (1 ∷ [])) ∷ heartbeat true ∷ closed ∷ [])
        (handle_socket 9 a_state (some [])))
receiver_task-IsClosed_example =
    WsServerLife.receiver_task-IsClosed a_program tt
      (message (binary (1 ∷ [])) ∷ heartbeat true ∷ []) closed []
      (handle_socket 9 a_state (some [])) (refl, (refl, tt)) refl

abbrev accepted : RpcIpcConnection ℕ ℕ (Unit {0}) ℕ
accepted = (IpcServer.accept_connection a_state (some []) 1).0

-- The write task ends while the reader has decoded a read, which it answers behind the teardown.
abbrev broken : Turn
broken = writer_ended (takes (bytes (2 ∷ [])) ∷ []) (answers ∷ [])

handle_connection-IsClosed_example :
    IpcServerLife.IsClosed a_program tt broken
      (record accepted { state = serve_all a_program tt ((1 ∷ []) ∷ []) accepted.state })
      (IpcServer.handle_connection a_program tt
        (map (λ b. reader (bytes b)) ((1 ∷ []) ∷ []) ++ broken ∷ [])
        accepted)
handle_connection-IsClosed_example =
    IpcServerLife.handle_connection-IsClosed a_program tt ((1 ∷ []) ∷ []) broken [] accepted tt

-- The handler of a writer thread, on a sink that takes whatever it is given.
abbrev append_chunk : List ℕ → List ℕ → Bool × List ℕ
append_chunk = write_chunk (λ chunk w. (true, w ++ chunk)) (λ w. (true, w))

-- A channel that has taken two chunks, and whose senders are gone.
abbrev two_chunks : WriteLoop (List ℕ) (List ℕ)
two_chunks = drop_senders (send (2 ∷ []) (send (1 ∷ []) (spawn_write_loop [])).1).1

Reachable-written_example :
    ((WriteLoopLife.rounds append_chunk [] 2 two_chunks).sink
      ≡ (write_loop append_chunk ((1 ∷ []) ∷ (2 ∷ []) ∷ []) []).1)
    × ((WriteLoopLife.rounds append_chunk [] 2 two_chunks).queue ≡ [])
unfolding drop_senders send spawn_write_loop
Reachable-written_example =
    WriteLoopLife.Reachable-written append_chunk [] 2
      (WriteLoopLife.drops
        (WriteLoopLife.takes (2 ∷ []) (WriteLoopLife.takes (1 ∷ []) WriteLoopLife.start refl) refl))
      (omega arith)

-- A promise is called and begins, and one is called only; then the client is made twice, the second
-- promise begins and ends, and the first has a turn.
abbrev early_events : List (Event ℕ ℕ ℕ ℕ ℕ)
early_events =
    calls 1 static_muxio_handle_connect ∷ begins 1 ∷ calls 2 static_muxio_handle_connect ∷ []

abbrev late_events : List (Event ℕ ℕ ℕ ℕ ℕ)
late_events = begins 2 ∷ inits a_state ∷ finishes 2 ∷ finishes 1 ∷ []

on_thread_all-IsOne_example :
    let early = on_thread_all a_program early_events fresh in
    let page = on_thread_all a_program (early_events ++ inits a_state ∷ late_events) fresh in
    IsEmpty early
    × IsOne page (
        effects a_program late_events
          (on_thread a_program (inits a_state) early)
          (Wasm.new a_state))
    × SameRejected early page
on_thread_all-IsOne_example =
    on_thread_all-IsOne a_program early_events late_events a_state (tt, (tt, (tt, tt)))
