-- ===== src/Rpc/StreamEncoder.antt =====
-- core/src/rpc/rpc_internals/rpc_stream_encoder.rs: `RpcStreamEncoder`, an encoder that has the
-- stream's header written first.
use rust_muxio.Prelude.{
  ℕ, ◌%◌, ◌^◌, Option, none, some, List, ◌∷◌, ◌++◌, length, Result, ok, err, Exec,
}
use rust_muxio.Prelude.Bytes.{to_le_bytes}
use rust_muxio.Frame.Types.{FrameEncodeError}
use rust_muxio.Frame.Encoder
use rust_muxio.Frame.Encoder.{FrameStreamEncoder}
use rust_muxio.Rpc.Types.{RpcHeader, message_type_to_u8}

pub record RpcStreamEncoder : Type 0 where
  pub stream_id : ℕ
  pub encoder : FrameStreamEncoder

-- `meta_buf`; the metadata's length is cast to `u16`.
unfoldable pub header_bytes : RpcHeader → List ℕ
header_bytes h =
    message_type_to_u8 h.rpc_msg_type
    ∷ (to_le_bytes 4 h.rpc_request_id
        ++ (to_le_bytes 8 h.rpc_method_id
            ++ (to_le_bytes 2 (length h.rpc_metadata_bytes % 2 ^ 16) ++ h.rpc_metadata_bytes)))

created :
    ℕ
    → Option (Result FrameEncodeError ℕ × FrameStreamEncoder)
    → Option (Result FrameEncodeError RpcStreamEncoder)
created stream_id none = none
created stream_id (some (ok n, encoder)) =
    some (ok (record { stream_id = stream_id; encoder = encoder }))
created stream_id (some (err e, encoder)) = some (err e)

unfoldable pub new : ℕ → ℕ → RpcHeader → Option (Result FrameEncodeError RpcStreamEncoder)
unfolding created
new stream_id max_chunk_size h =
    created stream_id (Encoder.write_bytes (header_bytes h) (Encoder.new stream_id max_chunk_size))

abbrev with_encoder :
    RpcStreamEncoder
    → Option (Result FrameEncodeError ℕ × FrameStreamEncoder)
    → Option (Result FrameEncodeError ℕ × RpcStreamEncoder)
with_encoder e none = none
with_encoder e (some (r, encoder)) = some (r, record e { encoder = encoder })

unfoldable pub write_bytes : List ℕ → Exec RpcStreamEncoder FrameEncodeError ℕ
write_bytes input e = with_encoder e (Encoder.write_bytes input e.encoder)

unfoldable pub flush : Exec RpcStreamEncoder FrameEncodeError ℕ
flush e = with_encoder e (Encoder.flush e.encoder)

unfoldable pub cancel_stream : Exec RpcStreamEncoder FrameEncodeError ℕ
cancel_stream e = with_encoder e (Encoder.cancel_stream e.encoder)

unfoldable pub end_stream : Exec RpcStreamEncoder FrameEncodeError ℕ
end_stream e = with_encoder e (Encoder.end_stream e.encoder)
