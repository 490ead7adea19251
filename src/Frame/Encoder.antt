-- ===== src/Frame/Encoder.antt =====
-- core/src/frame/frame_stream_encoder.rs: `FrameStreamEncoder`. The `on_emit` callback is the
-- caller's: `emitted` lists the byte slices that it has been called with, in order. `u32` and
-- `usize` counters wrap as they do in a release build.
pub mod Trace
pub mod Guard
pub mod Write
pub mod End
use rust_muxio.Prelude.{
  ℕ, zero, suc, ◌+◌, ◌-◌, ◌%◌, ◌^◌, Bool, true, false, none, List, [], ◌∷◌, ◌++◌, leb,
  if◌then◌else◌, is_empty, length, take, drop, Exec, ◌>>=◌, ◌>>◌, pure, raise,
}
use rust_muxio.Frame.Types.{
  FrameKind, open_kind, data_kind, end_kind, cancel_kind, FrameEncodeError, write_after_end,
  write_after_cancel, Frame,
}
use rust_muxio.Frame.Codec.{encode}

pub record FrameStreamEncoder : Type 0 where
  pub stream_id : ℕ
  pub max_chunk_size : ℕ
  pub next_seq_id : ℕ
  pub next_kind : FrameKind
  pub buffer : List ℕ
  pub is_canceled : Bool
  pub is_ended : Bool
  pub emitted : List (List ℕ)

abbrev pub Encode : Type 0 → Type 0
Encode A = Exec FrameStreamEncoder FrameEncodeError A

unfoldable pub new : ℕ → ℕ → FrameStreamEncoder
new stream_id max_chunk_size = record {
  stream_id = stream_id;
  max_chunk_size = max_chunk_size;
  next_seq_id = 0;
  next_kind = open_kind;
  buffer = [];
  is_canceled = false;
  is_ended = false;
  emitted = [];
}

-- The guard that every operation starts with.
unfoldable pub check_open : Encode (Unit {0})
check_open s =
    if s.is_canceled
    then raise write_after_cancel s
    else if s.is_ended
    then raise write_after_end s
    else pure tt s

unfoldable pub emit_frame : Frame → Encode ℕ
emit_frame frame = do
  check_open
  λ s. pure (length (encode frame)) (record s { emitted = s.emitted ++ encode frame ∷ [] })

-- `self.next_seq_id += 1; self.next_kind = FrameKind::Data`
unfoldable pub advance : Encode (Unit {0})
advance s = pure tt (record s { next_seq_id = (s.next_seq_id + 1) % 2 ^ 32; next_kind = data_kind })

abbrev pub frame_of : FrameStreamEncoder → FrameKind → List ℕ → Frame
frame_of s kind payload = record {
  stream_id = s.stream_id;
  seq_id = s.next_seq_id;
  kind = kind;
  payload = payload;
}

-- The body of the loop of `write_bytes`: drain a chunk and emit it.
unfoldable pub write_chunk : Encode ℕ
write_chunk s =
    let chunk = take s.max_chunk_size s.buffer in
    let drained = record s { buffer = drop s.max_chunk_size s.buffer } in
    (do n ← emit_frame (frame_of s s.next_kind chunk); advance; pure n) drained

-- `while self.buffer.len() >= self.max_chunk_size`; `none` when the rounds run out.
unfoldable pub write_loop : ℕ → ℕ → Encode ℕ
write_loop zero written s = none
write_loop (suc fuel) written s =
    let again = (do n ← write_chunk; write_loop fuel (written + n)) s in
    if leb s.max_chunk_size (length s.buffer) then again else pure written s

-- Each round drains a byte at least, unless `max_chunk_size` is 0, so one round more than the
-- buffer has bytes is enough.
unfoldable pub write_bytes : List ℕ → Encode ℕ
write_bytes input = do
  check_open
  λ s. write_loop (suc (length (s.buffer ++ input))) 0 (record s { buffer = s.buffer ++ input })

unfoldable pub flush : Encode ℕ
flush = do
  check_open
  λ s.
      if is_empty s.buffer
      then pure 0 s
      else (do n ← emit_frame (frame_of s s.next_kind s.buffer); advance; pure n)
          (record s { buffer = [] })

unfoldable pub end_stream : Encode ℕ
end_stream = do
  check_open
  λ s.
      (do n ← emit_frame (frame_of s end_kind s.buffer); λ t. pure n (record t { is_ended = true }))
        (record s { buffer = [] })

unfoldable pub cancel_stream : Encode ℕ
cancel_stream = do
  check_open
  λ s.
      (do n ← emit_frame (frame_of s cancel_kind []); λ t. pure n (record t { is_canceled = true }))
        s
