-- ===== src/Transport/WsServer/Life.antt =====
-- The end of a connection of the server on WebSockets, and the timeout.
use rust_muxio.Prelude.{
  ℕ, ◌≤◌, ◌≡◌, refl, Bool, true, false, Option, none, some, List, [], ◌∷◌, ◌++◌, map, All, arith,
}
use rust_muxio.Frame.Types.{read_after_cancel}
use rust_muxio.Service.Endpoint.Reading.{EndpointState}
use rust_muxio.Transport.Program.{Program, IsIdle, fail_pending, fail_pending-IsIdle}
use rust_muxio.Transport.ReadLoop.{serve_all}
use rust_muxio.Transport.Ws.{text, binary, ping, pong, close}
use rust_muxio.Transport.WsServer.{
  Connection, Round, heartbeat, timed_out, message, closed, RpcServerEvent, client_disconnected,
  send_event, heartbeat_interval, client_timeout, on_message, on_round, tear_down, receiver_task,
}

-- Whether the loop goes on behind a round.
abbrev pub goes_on : Round → Bool
goes_on (heartbeat could_send) = could_send
goes_on (message close) = false
goes_on (message (text b)) = true
goes_on (message (binary b)) = true
goes_on (message (ping b)) = true
goes_on (message (pong b)) = true
goes_on timed_out = false
goes_on closed = false

-- The bytes that the rounds bring.
abbrev pub input_of : List Round → List (List ℕ)
input_of [] = []
input_of (message (binary b) ∷ rs) = b ∷ input_of rs
input_of (message (text b) ∷ rs) = input_of rs
input_of (message (ping b) ∷ rs) = input_of rs
input_of (message (pong b) ∷ rs) = input_of rs
input_of (message close ∷ rs) = input_of rs
input_of (heartbeat b ∷ rs) = input_of rs
input_of (timed_out ∷ rs) = input_of rs
input_of (closed ∷ rs) = input_of rs

-- What a round may be that completed `at` seconds after it began: `select!` takes what completes
-- first, and the heartbeat's sleep completes after its interval, `timeout` after its own.
abbrev pub IsTimely : ℕ × Round → Type 0
IsTimely (at, heartbeat could_send) = at ≡ heartbeat_interval
IsTimely (at, timed_out) = (at ≡ client_timeout) × (at ≤ heartbeat_interval)
IsTimely (at, message m) = at ≤ heartbeat_interval
IsTimely (at, closed) = at ≤ heartbeat_interval

-- The client says nothing, and its socket takes what is sent.
abbrev pub IsSilent : Round → Type 0
IsSilent (heartbeat could_send) = could_send ≡ true
IsSilent timed_out = Unit
IsSilent (message m) = ⊥
IsSilent closed = ⊥

no : false ≡ true → ⊥
no t = cc

module _ {R S C V P : Type 0} (program : Program R S C V P) (context : C) where
  -- What is left of a connection whose reads led to `state`: it is disconnected, its calls have
  -- failed, and there is one event behind the others.
  pub record IsClosed (state : EndpointState R S C V) (addr : ℕ)
      (events : Option (List RpcServerEvent)) (r : Option (Connection R S C V)) : Type 0 where
    pub after : Connection R S C V
    pub ends : r ≡ some after
    pub down : after.is_connected ≡ false
    pub failed_with : after.state ≡ fail_pending program read_after_cancel state
    pub idle : IsIdle after.state
    pub one_event : after.event_tx ≡ send_event (client_disconnected addr) events

  tear_down-IsClosed :
      (c : Connection R S C V)
      → IsClosed c.state c.addr c.event_tx (some (tear_down program context c))
  unfolding tear_down
  tear_down-IsClosed c = record {
    after = tear_down program context c;
    ends = refl;
    down = refl;
    failed_with = refl;
    idle = fail_pending-IsIdle program read_after_cancel c.state;
    one_event = refl;
  }

  last_round :
      (last : Round) (rest : List Round) (c : Connection R S C V)
      → goes_on last ≡ false
      → IsClosed c.state c.addr c.event_tx (receiver_task program context (last ∷ rest) c)
  unfolding receiver_task on_round on_message
  last_round (heartbeat false) rest c e = tear_down-IsClosed c
  last_round (heartbeat true) rest c e = cc
  last_round timed_out rest c e = tear_down-IsClosed c
  last_round (message close) rest c e = tear_down-IsClosed c
  last_round (message (text b)) rest c e = cc
  last_round (message (binary b)) rest c e = cc
  last_round (message (ping b)) rest c e = cc
  last_round (message (pong b)) rest c e = cc
  last_round closed rest c e = tear_down-IsClosed c

  -- The receiver task ends in the first round that is a failed ping, a timeout, a close message, or
  -- the end or an error of the socket: the messages up to there were served in order, the connection
  -- is marked as disconnected, the pending calls are failed and none waits, and one event tells of
  -- the disconnect, behind the others.
  pub receiver_task-IsClosed :
      (rounds : List Round) (last : Round) (rest : List Round) (c : Connection R S C V)
      → All (λ r. goes_on r ≡ true) rounds
      → goes_on last ≡ false
      → IsClosed
          (serve_all program context (input_of rounds) c.state)
          c.addr
          c.event_tx
          (receiver_task program context (rounds ++ last ∷ rest) c)
  unfolding receiver_task on_round on_message
  receiver_task-IsClosed [] last rest c g e = last_round last rest c e
  receiver_task-IsClosed (heartbeat true ∷ rs) last rest c g e =
      receiver_task-IsClosed rs last rest (record c { mpsc_tx = _ }) g.1 e
  receiver_task-IsClosed (message (binary b) ∷ rs) last rest c g e =
      receiver_task-IsClosed rs last rest (record c { state = _ }) g.1 e
  receiver_task-IsClosed (message (text b) ∷ rs) last rest c g e =
      receiver_task-IsClosed rs last rest c g.1 e
  receiver_task-IsClosed (message (ping b) ∷ rs) last rest c g e =
      receiver_task-IsClosed rs last rest c g.1 e
  receiver_task-IsClosed (message (pong b) ∷ rs) last rest c g e =
      receiver_task-IsClosed rs last rest c g.1 e
  receiver_task-IsClosed (heartbeat false ∷ rs) last rest c g e = absurd (no g.0)
  receiver_task-IsClosed (timed_out ∷ rs) last rest c g e = absurd (no g.0)
  receiver_task-IsClosed (message close ∷ rs) last rest c g e = absurd (no g.0)
  receiver_task-IsClosed (closed ∷ rs) last rest c g e = absurd (no g.0)

  -- Where the heartbeat's sleep and the timeout both begin with each round, as they do in the loop, a
  -- client that says nothing gets heartbeats only: each sleep is over before the timeout that was made
  -- with it, and the receiver task does not end as long as pings can be sent.
  pub receiver_task-silent :
      (rounds : List (ℕ × Round)) (c : Connection R S C V)
      → All IsTimely rounds
      → All (λ (r : ℕ × Round). IsSilent r.1) rounds
      → receiver_task program context (map (λ (r : ℕ × Round). r.1) rounds) c ≡ none
  unfolding receiver_task on_round
  receiver_task-silent [] c t s = refl
  receiver_task-silent ((at, heartbeat true) ∷ rs) c t s =
      receiver_task-silent rs (record c { mpsc_tx = _ }) t.1 s.1
  receiver_task-silent ((at, heartbeat false) ∷ rs) c t s = absurd (no s.0)
  receiver_task-silent ((at, timed_out) ∷ rs) c t s = absurd (omega (arith, t.0.0, t.0.1))
  receiver_task-silent ((at, message m) ∷ rs) c t s = absurd s.0
  receiver_task-silent ((at, closed) ∷ rs) c t s = absurd s.0
