-- ===== src/Transport/WsServer.antt =====
-- extensions/muxio-tokio-rpc-server/src/rpc_server.rs: a connection of `RpcServer`. What `select!`
-- yields in a round of the receiver task is a value; `addr` is a number.
pub mod Life
use rust_muxio.Prelude.{
  ℕ, Bool, true, false, Option, none, some, List, [], ◌∷◌, ◌++◌, if◌then◌else◌,
}
use rust_muxio.Frame.Types.{read_after_cancel}
use rust_muxio.Service.Endpoint.Reading.{EndpointState}
use rust_muxio.Transport.Program.{Program, serve, fail_pending}
use rust_muxio.Transport.Ws.{WsMessage, text, binary, ping, pong, close}

-- In seconds.
abbrev pub heartbeat_interval : ℕ
heartbeat_interval = 5

abbrev pub client_timeout : ℕ
client_timeout = 15

pub data RpcServerEvent : Type 0 where
  client_connected client_disconnected : ℕ → RpcServerEvent

-- A round: the heartbeat, and whether its ping could be sent; the timeout; a message; or the end of
-- the socket's stream or an error of it.
pub data Round : Type 0 where
  heartbeat : Bool → Round
  timed_out : Round
  message : WsMessage → Round
  closed : Round

-- `mpsc_tx` is what was sent on the write channel, and `event_tx` what was sent on the channel of
-- events, where there is one.
pub record Connection (R S C V : Type 0) : Type 0 where
  pub addr : ℕ
  pub is_connected : Bool
  pub state : EndpointState R S C V
  pub mpsc_tx : List WsMessage
  pub event_tx : Option (List RpcServerEvent)

unfoldable pub send_event :
    RpcServerEvent → Option (List RpcServerEvent) → Option (List RpcServerEvent)
send_event event none = none
send_event event (some events) = some (events ++ event ∷ [])

-- `handle_socket`; `dispatcher` is what `new_with_id_space` makes.
unfoldable pub handle_socket :
    {R S C V : Type 0}
    → ℕ
    → EndpointState R S C V
    → Option (List RpcServerEvent)
    → Connection R S C V
unfolding send_event
handle_socket addr dispatcher event_tx = record {
  addr = addr;
  is_connected = true;
  state = dispatcher;
  mpsc_tx = [];
  event_tx = send_event (client_connected addr) event_tx;
}

module _ {R S C V P : Type 0} (program : Program R S C V P) (context : C) where
  -- A message of the client: whether the loop goes on.
  unfoldable pub on_message : WsMessage → Connection R S C V → Bool × Connection R S C V
  unfolding serve
  on_message (binary bytes) c = (true, record c { state = serve program bytes context c.state })
  on_message close c = (false, c)
  on_message (text bytes) c = (true, c)
  on_message (ping bytes) c = (true, c)
  on_message (pong bytes) c = (true, c)

  unfoldable pub on_round : Round → Connection R S C V → Bool × Connection R S C V
  unfolding on_message
  on_round (heartbeat true) c = (true, record c { mpsc_tx = c.mpsc_tx ++ ping [] ∷ [] })
  on_round (heartbeat false) c = (false, c)
  on_round timed_out c = (false, c)
  on_round (message m) c = on_message m c
  on_round closed c = (false, c)

  -- Behind the loop.
  unfoldable pub tear_down : Connection R S C V → Connection R S C V
  unfolding fail_pending send_event
  tear_down c = record c {
    is_connected = false;
    state = fail_pending program read_after_cancel c.state;
    event_tx = send_event (client_disconnected c.addr) c.event_tx;
  }

  -- The receiver task; `none` where it still waits behind the rounds.
  unfoldable pub receiver_task : List Round → Connection R S C V → Option (Connection R S C V)
  unfolding on_round tear_down
  receiver_task [] c = none
  receiver_task (r ∷ rs) c =
      let (goes_on, c') = on_round r c in
      let rest = receiver_task rs c' in if goes_on then rest else some (tear_down c')
