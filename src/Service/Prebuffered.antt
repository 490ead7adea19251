-- ===== src/Service/Prebuffered.antt =====
-- A typed call: extensions/muxio-rpc-service/src/prebuffered/prebuffered_traits.rs,
-- `call_rpc_buffered` of extensions/muxio-rpc-service-caller/src/caller_interface.rs, and `call` of
-- prebuffered/traits.rs of the same crate. What comes behind an `.await` is a function of what the
-- response handler has made of the events so far, and gives `none` while it waits. `E` is the type
-- of the errors of a method's encoders and decoders.

pub mod Methods
pub mod Returns
use rust_muxio.Prelude.{ℕ, Bool, Option, none, some, List, [], if◌then◌else◌, Result, ok, err}
use rust_muxio.Rpc.StreamEncoder.{RpcStreamEncoder}
use rust_muxio.Rpc.Dispatcher.{RpcDispatcher}
use rust_muxio.Service.Error.{HandlerError}
use rust_muxio.Service.Caller.{RpcServiceError, Delivery, RecvState, request_for, consume}
use rust_muxio.Service.Caller.Calling.{CallError, call_rpc_streaming}

pub record RpcMethodPrebuffered (I O E : Type 0) : Type 0 where
  pub method_id : ℕ
  pub encode_request : I → Result E (List ℕ)
  pub decode_request : List ℕ → Result E I
  pub encode_response : O → Result E (List ℕ)
  pub decode_response : List ℕ → Result E O

-- What a typed call fails with. All but the last are an `RpcServiceError::Transport`.
pub data CallFailure (E : Type 0) : Type 0 where
  cannot_encode cannot_decode : E → CallFailure E
  cannot_call : CallError → CallFailure E
  failed : RpcServiceError → CallFailure E

-- Behind the loop over the stream: an error ends it at once, the bytes are there when the sender is
-- gone.
unfoldable pub behind_loop : Bool → Delivery → Option Delivery
behind_loop has_sender (err e) = some (err e)
behind_loop has_sender (ok success_buf) = if has_sender then none else some (ok success_buf)

-- The nested result of `call_rpc_buffered`, once it has its stream.
unfoldable pub call_rpc_buffered :
    {T : Type 0} → (List ℕ → T) → RecvState → Option (Result RpcServiceError T)
unfolding behind_loop consume
call_rpc_buffered decode s = elim (behind_loop s.tx (consume s.sent [])) [
  | none ↦ none
  | some (err e) ↦ some (err e)
  | some (ok success_buf) ↦ some (ok (decode success_buf))
]

-- The end of `call`: the nested result is unpacked.
unfoldable pub unpack :
    {O E : Type 0} → Result RpcServiceError (Result E O) → Result (CallFailure E) O
unpack (ok (ok output)) = ok output
unpack (ok (err e)) = err (cannot_decode e)
unpack (err e) = err (failed e)

module _ {I O E : Type 0} (m : RpcMethodPrebuffered I O E) where
  -- `call` up to the stream of the response; a request that cannot be encoded is not sent.
  unfoldable pub begin_call :
      {H U : Type 0}
      → Bool
      → I
      → H
      → RpcDispatcher H U
      → ℕ
      → Option (Result (CallFailure E) RpcStreamEncoder) × RpcDispatcher H U × ℕ
  unfolding call_rpc_streaming request_for
  begin_call is_connected input recv_fn d counter = elim (m.encode_request input) [
    | err e ↦ (some (err (cannot_encode e)), d, counter)
    | ok encoded_args ↦
        let (r, d', counter') =
          call_rpc_streaming is_connected (request_for m.method_id encoded_args) recv_fn d
            counter in
        (
          elim r [
            | none ↦ none
            | some (ok e) ↦ some (ok e)
            | some (err x) ↦ some (err (cannot_call x))
          ],
          d',
          counter',
        )
  ]

  -- The rest of `call`.
  unfoldable pub end_call : RecvState → Option (Result (CallFailure E) O)
  unfolding call_rpc_buffered unpack
  end_call s = elim (call_rpc_buffered m.decode_response s) [
    | none ↦ none
    | some nested ↦ some (unpack nested)
  ]

  -- A handler as programs write it for such a method, with `?` on the results: it decodes the
  -- request, works on it, and encodes the response.
  unfoldable pub typed_handler :
      {C : Type 0}
      → (E → HandlerError)
      → (I → C → Result HandlerError O)
      → List ℕ
      → C
      → Result HandlerError (List ℕ)
  typed_handler to_error work request_bytes context = elim (m.decode_request request_bytes) [
    | err e ↦ err (to_error e)
    | ok input ↦ elim (work input context) [
      | err e ↦ err e
      | ok output ↦ elim (m.encode_response output) [
        | err e ↦ err (to_error e)
        | ok response_bytes ↦ ok response_bytes
      ]
    ]
  ]
