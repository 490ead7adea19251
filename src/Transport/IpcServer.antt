-- ===== src/Transport/IpcServer.antt =====
-- extensions/muxio-tokio-rpc-ipc-server/src/rpc_ipc_server.rs: a connection of `RpcIpcServer`.
-- Where the write task ends the reader is aborted and not waited for: it goes on up to the next
-- `.await` that does not return at once, while the connection is torn down.
pub mod Life
pub mod Serving
use Prim.Native.String.{String}
use rust_muxio.Prelude.{
  ℕ, ◌+◌, ◌%◌, ◌^◌, Bool, true, false, Option, none, some, List, [], ◌∷◌, ◌++◌, if◌then◌else◌,
  Result, ok, err,
}
use rust_muxio.Rpc.Types.{RpcRequest}
use rust_muxio.Service.Error.{RpcServiceEndpointError}
use rust_muxio.Service.Endpoint.{run_handlers}
use rust_muxio.Service.Endpoint.Reading
use rust_muxio.Service.Endpoint.Reading.{EndpointState, decode_bytes}
use rust_muxio.Transport.Program.{Program, fail_pending}
use rust_muxio.Transport.ReadLoop.{answer, requests_or_default}
use rust_muxio.Transport.Source.{ReadResult, bytes, end_of_file, failed, disconnect_reason}

pub data RpcIpcServerEvent : Type 0 where
  client_connected client_disconnected : ℕ → RpcIpcServerEvent

-- What the reader task does at once: it takes what a read gives, or it answers the requests that it
-- has decoded last. Between two of these it can be aborted.
pub data Stage : Type 0 where
  takes : ReadResult → Stage
  answers : Stage

-- What the tasks of a connection come to next: a read, with what is done with it, or the end of the
-- write task. Then come the stages that the reader still does before the connection is torn down, and
-- those that it does behind that.
pub data Turn : Type 0 where
  reader : ReadResult → Turn
  writer_ended : List Stage → List Stage → Turn

-- `event_tx` is what was sent on the channel of events, where there is one.
pub record RpcIpcConnection (R S C V : Type 0) : Type 0 where
  pub conn_id : ℕ
  pub is_connected : Bool
  pub state : EndpointState R S C V
  pub disconnect_error : Option String
  pub event_tx : Option (List RpcIpcServerEvent)

unfoldable pub send_event :
    RpcIpcServerEvent → Option (List RpcIpcServerEvent) → Option (List RpcIpcServerEvent)
send_event event none = none
send_event event (some events) = some (events ++ event ∷ [])

-- A new connection and the next number; `dispatcher` is what `new_with_id_space` makes.
unfoldable pub accept_connection :
    {R S C V : Type 0}
    → EndpointState R S C V
    → Option (List RpcIpcServerEvent)
    → ℕ
    → RpcIpcConnection R S C V × ℕ
unfolding send_event
accept_connection dispatcher event_tx next_conn_id = (
  record {
    conn_id = next_conn_id;
    is_connected = true;
    state = dispatcher;
    disconnect_error = none;
    event_tx = send_event (client_connected next_conn_id) event_tx;
  },
  (next_conn_id + 1) % 2 ^ 64,
)

module _ {R S C V P : Type 0} (program : Program R S C V P) (context : C) where
  -- Bytes that cannot be decoded are passed over.
  unfoldable pub on_decoded :
      Result RpcServiceEndpointError (List (ℕ × RpcRequest))
      → EndpointState R S C V
      → EndpointState R S C V
  unfolding run_handlers answer
  on_decoded (err e) state = state
  on_decoded (ok requests) state =
      (answer program context
        (run_handlers program.run program.encode_payload context requests program.endpoint) state).1

  unfoldable pub on_read : List ℕ → EndpointState R S C V → EndpointState R S C V
  unfolding decode_bytes on_decoded
  on_read b state =
      let (r, state') =
        decode_bytes program.on_response program.on_stream b context program.endpoint state in
      on_decoded r state'

  -- A stage of the reader, with the requests that wait for their handlers.
  unfoldable pub on_stage :
      Stage
      → List (ℕ × RpcRequest) × RpcIpcConnection R S C V
      → List (ℕ × RpcRequest) × RpcIpcConnection R S C V
  unfolding decode_bytes on_decoded requests_or_default
  on_stage (takes (bytes b)) (waiting, c) =
      let (r, state) =
        decode_bytes program.on_response program.on_stream b context program.endpoint c.state in
      (requests_or_default r, record c { state = state })
  on_stage (takes end_of_file) (waiting, c) =
      ([], record c { disconnect_error = some "unexpected EOF (client closed)" })
  on_stage (takes (failed e)) (waiting, c) = ([], record c { disconnect_error = some e })
  on_stage answers (waiting, c) = ([], record c { state = on_decoded (ok waiting) c.state })

  unfoldable pub on_stages :
      List Stage
      → List (ℕ × RpcRequest) × RpcIpcConnection R S C V
      → List (ℕ × RpcRequest) × RpcIpcConnection R S C V
  unfolding on_stage
  on_stages [] at = at
  on_stages (s ∷ rest) at = on_stages rest (on_stage s at)

  -- Behind both tasks.
  unfoldable pub tear_down : RpcIpcConnection R S C V → RpcIpcConnection R S C V
  unfolding fail_pending send_event disconnect_reason
  tear_down c = record c {
    is_connected = false;
    state = fail_pending program (disconnect_reason c.disconnect_error) c.state;
    event_tx = send_event (client_disconnected c.conn_id) c.event_tx;
  }

  -- The tasks of a connection; `none` where they still wait.
  unfoldable pub handle_connection :
      List Turn → RpcIpcConnection R S C V → Option (RpcIpcConnection R S C V)
  unfolding on_read tear_down on_stages
  handle_connection [] c = none
  handle_connection (reader (bytes b) ∷ rest) c =
      handle_connection rest (record c { state = on_read b c.state })
  handle_connection (reader end_of_file ∷ rest) c =
      some (tear_down (record c { disconnect_error = some "unexpected EOF (client closed)" }))
  handle_connection (reader (failed e) ∷ rest) c =
      some (tear_down (record c { disconnect_error = some e }))
  handle_connection (writer_ended before behind ∷ rest) c =
      let (waiting, c') = on_stages before ([], c) in
      some (on_stages behind (waiting, tear_down c')).1
