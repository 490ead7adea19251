-- ===== src/Service/Examples.antt =====
-- The theorems of the RPC layer and the service layer at concrete inputs.
use rust_muxio.Prelude.{ℕ, ◌≡◌, refl, inr, true, false, none, some, List, [], ◌∷◌, arith}
use rust_muxio.Prelude.Map.{get}
use rust_muxio.Frame.Types.{DecodedFrame, data_kind}
use rust_muxio.Rpc.Types.{RpcHeader, response, message_type_to_u8}
use rust_muxio.Rpc.StreamEncoder
use rust_muxio.Rpc.StreamEncoder.{RpcStreamEncoder, header_bytes}
use rust_muxio.Rpc.StreamDecoder
use rust_muxio.Rpc.StreamDecoder.Header.{IsHeader}
use rust_muxio.Rpc.StreamDecoder.Events.{Delivers, decode_all, decode_all-Delivers}
use rust_muxio.Rpc.Dispatcher.{send_on}
use rust_muxio.Rpc.Dispatcher.Sending.{Sends, send_on-Sends}
use rust_muxio.Rpc.Respondable.{Routing}
use rust_muxio.Service.Endpoint.{RpcServiceEndpoint, register_prebuffered}
use rust_muxio.Service.Endpoint.Registration.{
  IsSeparate, IsRegistered, register_prebuffered-IsRegistered,
}
use rust_muxio.Service.Responder.{respond_all, set_writer, then_on, respond_all-set_writer}
use rust_muxio.Service.Responder
use rust_muxio.Service.Caller.{request_for}
use rust_muxio.Frame.Encoder
use rust_muxio.Rpc.Dispatcher.{contains_request}
use rust_muxio.Service.Channel.{stream_on, open_stream}
use rust_muxio.Service.Channel.Streaming.{stream_on-Sends}
use rust_muxio.Rpc.Dispatcher
use rust_muxio.Rpc.Dispatcher.{RpcDispatcher}
use rust_muxio.Service.Endpoint.{collect_finalized}
use rust_muxio.Service.Endpoint.Collect.{ids_of, finalized, unfinished, collect_finalized-finalized}

abbrev a_header : RpcHeader
a_header = record {
  rpc_msg_type = response;
  rpc_request_id = 5;
  rpc_method_id = 6;
  rpc_metadata_bytes = 0 ∷ [];
}

a_header-IsHeader : IsHeader a_header
a_header-IsHeader = record {
  request_id_fits = omega arith;
  method_id_fits = omega arith;
  metadata_fits = omega arith;
}

abbrev part : ℕ → List ℕ → DecodedFrame
part n bytes = record {
  inner = record { stream_id = 1; seq_id = n; kind = data_kind; payload = bytes };
  decode_error = none;
}

-- The header in two parts, the second of which holds the body's first byte.
abbrev parts : List DecodedFrame
parts =
    part 0 (1 ∷ 5 ∷ 0 ∷ 0 ∷ 0 ∷ 6 ∷ [])
    ∷ part 1 (0 ∷ 0 ∷ 0 ∷ 0 ∷ 0 ∷ 0 ∷ 0 ∷ 1 ∷ 0 ∷ 0 ∷ 42 ∷ [])
    ∷ part 2 (43 ∷ [])
    ∷ []

decode_all-Delivers_example : Delivers a_header (42 ∷ 43 ∷ []) (decode_all parts StreamDecoder.new)
unfolding header_bytes message_type_to_u8
decode_all-Delivers_example =
    decode_all-Delivers a_header (42 ∷ 43 ∷ []) parts a_header-IsHeader
      ((refl, refl), ((refl, refl), ((refl, refl), tt))) refl

send_on-Sends_example :
    Sends 1 a_header
      (42 ∷ 43 ∷ [])
      (send_on (some (42 ∷ 43 ∷ [])) true (StreamEncoder.new 1 4 a_header))
unfolding header_bytes
send_on-Sends_example =
    send_on-Sends 1 4 a_header (42 ∷ 43 ∷ []) (omega arith) a_header-IsHeader (omega arith)

abbrev an_encoder : RpcStreamEncoder
an_encoder = record { stream_id = 1; encoder = Encoder.new 1 4 }

respond_all-set_writer_example :
    then_on
      (respond_all ((7 ∷ [], false) ∷ (8 ∷ [], true) ∷ []) (Responder.new 5))
      (set_writer an_encoder)
    ≡ then_on
        (set_writer an_encoder (Responder.new 5))
        (respond_all ((7 ∷ [], false) ∷ (8 ∷ [], true) ∷ []))
respond_all-set_writer_example =
    respond_all-set_writer ((7 ∷ [], false) ∷ (8 ∷ [], true) ∷ []) an_encoder (Responder.new 5)
      (unfold Responder.new in refl)

abbrev one_handler : RpcServiceEndpoint ℕ ℕ
one_handler = record { prebuffered_handlers = (6, 60) ∷ []; stream_handlers = [] }

one_handler-IsSeparate : IsSeparate one_handler
unfolding get
one_handler-IsSeparate id = inr refl

register_prebuffered-IsRegistered_example :
    IsRegistered 7 one_handler
      (λ t. get 7 t.prebuffered_handlers)
      70
      (register_prebuffered 7 70 one_handler)
register_prebuffered-IsRegistered_example =
    register_prebuffered-IsRegistered one_handler 7 70 one_handler-IsSeparate

-- A prebuffered response of request 5, whose handler counts its events.
abbrev waiting : Routing ℕ ℕ
waiting = record {
  response_handlers = (5, 1) ∷ [];
  catch_all_response_handler = none;
  prebuffered_responses = (5, 42 ∷ []) ∷ [];
  prebuffering_flags = (5, true) ∷ [];
  stream_method_router = none;
}

stream_on-Sends_example :
    Sends 1 a_header
      (42 ∷ 43 ∷ [])
      (stream_on ((42 ∷ []) ∷ [] ∷ (43 ∷ []) ∷ []) (open_stream (StreamEncoder.new 1 4 a_header)))
unfolding header_bytes
stream_on-Sends_example =
    stream_on-Sends 1 4 a_header ((42 ∷ []) ∷ [] ∷ (43 ∷ []) ∷ []) (omega arith) a_header-IsHeader
      (omega arith)

-- A queue with a finalized request behind one that is not.
abbrev two_requests : RpcDispatcher ℕ ℕ
two_requests =
    let d : RpcDispatcher ℕ ℕ = (Dispatcher.new 0).0 in
    record d {
      rpc_request_queue =
          (5, record (request_for 6 (1 ∷ [])) { is_finalized = false })
          ∷ (9, request_for 6 (1 ∷ []))
          ∷ [];
    }

collect_finalized-finalized_example :
    collect_finalized (ids_of two_requests.rpc_request_queue) two_requests ≡ (
      finalized two_requests.rpc_request_queue,
      record two_requests { rpc_request_queue = unfinished two_requests.rpc_request_queue },
    )
collect_finalized-finalized_example =
    collect_finalized-finalized two_requests (unfold contains_request in (refl, (refl, tt)))
