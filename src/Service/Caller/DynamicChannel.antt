-- ===== src/Service/Caller/DynamicChannel.antt =====
-- extensions/muxio-rpc-service-caller/src/dynamic_channel.rs: `DynamicSender` and `DynamicReceiver`,
-- the two ends of a channel, taken together. The bounded channel is the futures crate's: its
-- operations on a channel of a type `Q` are parameters, with what is documented of them.
pub mod Room
use rust_muxio.Prelude.{
  ℕ, ◌≡◌, Bool, Option, none, some, List, [], ◌∷◌, ◌++◌, length, ltb, if◌then◌else◌,
}
use rust_muxio.Rpc.Types.{RpcStreamEvent}
use rust_muxio.Service.Caller.{Delivery, RecvState, recv_fn}

-- DEFAULT_RPC_STREAM_CHANNEL_BUFFER_SIZE
abbrev pub default_rpc_stream_channel_buffer_size : ℕ
default_rpc_stream_channel_buffer_size = 8

-- A bounded channel, `contents` being what it holds. `try_send` tells whether the item was taken.
pub record BoundedChannel (Q : Type 0) : Type 0 where
  pub try_send : Delivery → Q → Bool × Q
  pub poll_next : Q → Option Delivery × Q
  pub contents : Q → List Delivery
  pub capacity : ℕ

-- An item is taken where there is room, and given back otherwise.
pub record HasRoom {Q : Type 0} (channel : BoundedChannel Q) : Type 0 where
  pub try_send_lem :
      (item : Delivery) (q : Q)
      → channel.contents (channel.try_send item q).1 ≡ (
          if ltb (length (channel.contents q)) channel.capacity
          then channel.contents q ++ item ∷ []
          else channel.contents q)

pub data DynamicChannelType : Type 0 where
  bounded_type unbounded_type : DynamicChannelType

pub data DynamicChannel (Q : Type 0) : Type 0 where
  bounded : Q → DynamicChannel Q
  unbounded : List Delivery → DynamicChannel Q

-- The channel of a new call; `new` makes a bounded one.
unfoldable pub new_channel : {Q : Type 0} → (ℕ → Q) → DynamicChannelType → DynamicChannel Q
new_channel new bounded_type = bounded (new default_rpc_stream_channel_buffer_size)
new_channel new unbounded_type = unbounded []

module _ {Q : Type 0} (channel : BoundedChannel Q) where
  -- The result of the send is dropped.
  unfoldable pub send_and_ignore : Delivery → DynamicChannel Q → DynamicChannel Q
  send_and_ignore item (bounded q) = bounded (channel.try_send item q).1
  send_and_ignore item (unbounded items) = unbounded (items ++ item ∷ [])

  -- The channel and its reader stay of the kind that the call has chosen.
  unfoldable pub with_bounded : Option Delivery × Q → Option Delivery × DynamicChannel Q
  with_bounded (item, q) = (item, bounded q)

  unfoldable pub poll_next : DynamicChannel Q → Option Delivery × DynamicChannel Q
  unfolding with_bounded
  poll_next (bounded q) = with_bounded (channel.poll_next q)
  poll_next (unbounded []) = (none, unbounded [])
  poll_next (unbounded (item ∷ items)) = (some item, unbounded items)

  -- What waits for the reader.
  unfoldable pub waiting : DynamicChannel Q → List Delivery
  waiting (bounded q) = channel.contents q
  waiting (unbounded items) = items

  unfoldable pub send_all : List Delivery → DynamicChannel Q → DynamicChannel Q
  unfolding send_and_ignore
  send_all [] c = c
  send_all (item ∷ items) c = send_all items (send_and_ignore item c)

  -- `recv_fn` with its sender: what it sends for one event goes to the channel.
  unfoldable pub on_event :
      (List ℕ → List ℕ)
      → RpcStreamEvent
      → RecvState × DynamicChannel Q
      → RecvState × DynamicChannel Q
  unfolding send_all recv_fn
  on_event lossy e (s, c) =
      let s' = recv_fn lossy e (record s { sent = [] }) in (s', send_all s'.sent c)

  unfoldable pub on_events :
      (List ℕ → List ℕ)
      → List RpcStreamEvent
      → RecvState × DynamicChannel Q
      → RecvState × DynamicChannel Q
  unfolding on_event
  on_events lossy [] s = s
  on_events lossy (e ∷ es) s = on_events lossy es (on_event lossy e s)
