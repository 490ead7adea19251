-- ===== src/Transport/Source.antt =====
-- What a transport reads from: a pipe or a socket, whose reads give bytes, the end, or an error with
-- its text; and the error that pending calls fail with.
use Prim.Native.String.{String}
use rust_muxio.Prelude.{ℕ, Option, none, some, List}
use rust_muxio.Frame.Types.{FrameDecodeError, transport, read_after_cancel}

pub data ReadResult : Type 0 where
  bytes : List ℕ → ReadResult
  end_of_file : ReadResult
  failed : String → ReadResult

-- A read that ends a loop over reads.
abbrev pub IsLast : ReadResult → Type 0
IsLast (bytes b) = ⊥
IsLast end_of_file = Unit
IsLast (failed e) = Unit

-- `FrameDecodeError::Transport` for an error that was kept, `ReadAfterCancel` otherwise.
unfoldable pub disconnect_reason : Option String → FrameDecodeError
disconnect_reason none = read_after_cancel
disconnect_reason (some message) = transport message

-- An error is kept where none was.
unfoldable pub keep_first : String → Option String → Option String
keep_first message none = some message
keep_first message (some e) = some e
