-- ===== src/Transport/Ws.antt =====
-- extensions/muxio-tokio-rpc-client/src/rpc_client.rs: `RpcClient`, the client on a WebSocket, with
-- its heartbeat and its filter of messages. The tasks of the client are steps of it.
pub mod Life
use rust_muxio.Prelude.{
  ℕ, suc, ◌-◌, true, Option, none, some, List, [], ◌∷◌, ◌++◌, if◌then◌else◌, Result, ok, err,
}
use rust_muxio.Frame.Types.{read_after_cancel}
use rust_muxio.Service.Endpoint.Reading.{EndpointState}
use rust_muxio.Transport.Link
use rust_muxio.Transport.Link.{Link, disconnected, report, disconnect}
use rust_muxio.Transport.Program.{Program, fail_pending}
use rust_muxio.Transport.ReadLoop.{on_bytes}

-- The messages of a WebSocket.
pub data WsMessage : Type 0 where
  text binary ping pong : List ℕ → WsMessage
  close : WsMessage

-- Of the tasks in `shutdown_async` that have taken the flag down, `telling` wait for the lock of the
-- change handler, and `stopping` for that of the dispatcher.
pub record RpcClient (R S V N : Type 0) : Type 0 where
  pub link : Link N WsMessage
  pub state : EndpointState R S (Unit {0}) V
  pub telling : ℕ
  pub stopping : ℕ

-- A client that has connected; `dispatcher` is what `RpcDispatcher::new` makes.
unfoldable pub new : {R S V N : Type 0} → EndpointState R S (Unit {0}) V → RpcClient R S V N
unfolding Link.fresh
new dispatcher = record { link = Link.fresh true; state = dispatcher; telling = 0; stopping = 0 }

-- A message that the socket yields: bytes to read, and what is answered at once.
unfoldable pub filter_message : {E : Type 0} → Result E WsMessage → Option (List ℕ) × List WsMessage
filter_message (ok (binary bytes)) = (some bytes, [])
filter_message (ok (ping bytes)) = (none, pong bytes ∷ [])
filter_message (ok (pong bytes)) = (none, [])
filter_message (ok (text bytes)) = (none, [])
filter_message (ok close) = (none, [])
filter_message (err e) = (none, [])

module _ {R S V N : Type 0} where
  unfoldable pub send_all : List WsMessage → RpcClient R S V N → RpcClient R S V N
  send_all messages c = record c { link = record c.link { sent = c.link.sent ++ messages } }

  -- One round of the heartbeat task, which does not look at `is_connected`.
  unfoldable pub heartbeat : RpcClient R S V N → RpcClient R S V N
  unfolding send_all
  heartbeat c = send_all (ping [] ∷ []) c

  -- It is called by the drop, which has the client to itself: nothing comes in between.
  unfoldable pub shutdown_sync : RpcClient R S V N → RpcClient R S V N
  unfolding Link.shutdown_sync
  shutdown_sync c = record c { link = Link.shutdown_sync c.link }

  unfoldable pub set_state_change_handler : N → RpcClient R S V N → RpcClient R S V N
  unfolding Link.set_state_change_handler
  set_state_change_handler handler c = record c {
    link = Link.set_state_change_handler handler c.link;
  }

  unfoldable pub emit : List ℕ → RpcClient R S V N → RpcClient R S V N
  unfolding Link.emit
  emit chunk c = record c { link = Link.emit (binary chunk) c.link }

  -- `shutdown_async` up to the lock of the change handler: the swap of the flag.
  unfoldable pub begin_shutdown : RpcClient R S V N → RpcClient R S V N
  begin_shutdown c =
      if c.link.is_connected
      then record c { link = disconnect c.link; telling = suc c.telling }
      else c

  -- With that lock: whoever is the handler by then is told.
  unfoldable pub tell_disconnected : RpcClient R S V N → RpcClient R S V N
  unfolding report
  tell_disconnected c = record c {
    link = report disconnected c.link;
    telling = c.telling - 1;
    stopping = suc c.stopping;
  }

module _ {R S V N P : Type 0} (program : Program R S (Unit {0}) V P) where
  -- `shutdown_async` with the dispatcher's lock.
  unfoldable pub end_shutdown : RpcClient R S V N → RpcClient R S V N
  unfolding fail_pending
  end_shutdown c = record c {
    state = fail_pending program read_after_cancel c.state;
    stopping = c.stopping - 1;
  }

  -- The whole of it, where nothing comes in between.
  unfoldable pub shutdown_async : RpcClient R S V N → RpcClient R S V N
  unfolding begin_shutdown tell_disconnected end_shutdown
  shutdown_async c =
      if c.link.is_connected then end_shutdown (tell_disconnected (begin_shutdown c)) else c

  unfoldable pub read_some : Option (List ℕ) → RpcClient R S V N → RpcClient R S V N
  unfolding on_bytes
  read_some none c = c
  read_some (some bytes) c = record c { state = on_bytes program tt bytes c.state }

  -- A message is filtered, and its bytes go through the body of the read loop.
  unfoldable pub receive : {E : Type 0} → Result E WsMessage → RpcClient R S V N → RpcClient R S V N
  unfolding filter_message send_all read_some
  receive message c =
      let (bytes, answers) = filter_message message in read_some bytes (send_all answers c)

  unfoldable pub receive_all :
      {E : Type 0} → List (Result E WsMessage) → RpcClient R S V N → RpcClient R S V N
  unfolding receive
  receive_all [] c = c
  receive_all (m ∷ ms) c = receive_all ms (receive m c)

  -- The task of the read loop: the messages of the socket up to its end, then the shutdown.
  unfoldable pub read_task :
      {E : Type 0} → List (Result E WsMessage) → RpcClient R S V N → RpcClient R S V N
  unfolding receive_all shutdown_async
  read_task messages c = shutdown_async (receive_all messages c)
