-- ===== src/Transport/WriteLoop.antt =====
-- extensions/muxio-rpc-service-caller/src/write_channel.rs: `spawn_write_loop`, a task that takes
-- messages from an unbounded channel and hands them to a handler. The handler works on a sink of a
-- type `W`, and tells whether it succeeded. The writer threads of the sync client and the sync server
-- are such loops, with `write_chunk` as their handler.
pub mod Life
use rust_muxio.Prelude.{ℕ, Bool, true, false, List, [], ◌∷◌, ◌++◌, if◌then◌else◌}

-- The channel and its task; the task holds the receiver.
pub record WriteLoop (M W : Type 0) : Type 0 where
  pub queue : List M
  pub has_senders : Bool
  pub is_receiving : Bool
  pub sink : W

module _ {M W : Type 0} where
  unfoldable pub spawn_write_loop : W → WriteLoop M W
  spawn_write_loop w = record { queue = []; has_senders = true; is_receiving = true; sink = w }

  -- `tx.send`: whether the message was taken.
  unfoldable pub send : M → WriteLoop M W → Bool × WriteLoop M W
  send m l = if l.is_receiving then (true, record l { queue = l.queue ++ m ∷ [] }) else (false, l)

  unfoldable pub drop_senders : WriteLoop M W → WriteLoop M W
  drop_senders l = record l { has_senders = false }

  -- What the task does with what `recv` gives: behind an error of the handler, or where no sender is
  -- left, it ends and drops the receiver with all that is still queued.
  unfoldable pub received : List M → Bool × W → WriteLoop M W → WriteLoop M W
  received rest (true, w) l = record l { queue = rest; sink = w }
  received rest (false, w) l = record l { queue = []; is_receiving = false; sink = w }

  module _ (handler : M → W → Bool × W) where
    unfoldable pub next_round : List M → WriteLoop M W → WriteLoop M W
    unfolding received
    next_round [] l = if l.has_senders then l else record l { is_receiving = false }
    next_round (m ∷ rest) l = received rest (handler m l.sink) l

    -- A round of the task, which waits where nothing is queued.
    unfoldable pub round : WriteLoop M W → WriteLoop M W
    unfolding next_round
    round l = if l.is_receiving then next_round l.queue l else l

    -- The loop over messages that are there: whether it got to their end, and the sink.
    unfoldable pub write_loop : List M → W → Bool × W
    write_loop [] w = (true, w)
    write_loop (m ∷ rest) w =
        let (is_written, w') = handler m w in
        let more = write_loop rest w' in if is_written then more else (false, w')

-- The handler of the writer threads on a `Box<dyn Write>`, whose `write_all` and `flush` tell
-- whether they succeeded.
unfoldable pub write_chunk :
    {W : Type 0} → (List ℕ → W → Bool × W) → (W → Bool × W) → List ℕ → W → Bool × W
write_chunk write_all flush chunk w =
    let (is_written, w') = write_all chunk w in if is_written then flush w' else (false, w')
