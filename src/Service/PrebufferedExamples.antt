-- ===== src/Service/PrebufferedExamples.antt =====
-- Tests and witnesses for typed calls.
use rust_muxio.Prelude.{ℕ, ◌+◌, ◌≡◌, refl, Bool, true, some, List, [], ◌∷◌, arith, Result, ok, err}
use rust_muxio.Prelude.Map.{get}
use rust_muxio.Rpc.StreamEncoder.{RpcStreamEncoder}
use rust_muxio.Rpc.Types.{RpcStreamEvent}
use rust_muxio.Service.Error.{HandlerError, RpcServiceErrorPayload, structured, other}
use rust_muxio.Service.Error
use rust_muxio.Service.Caller.{RecvState, fresh}
use rust_muxio.Service.Endpoint.{RpcServiceEndpoint}
use rust_muxio.Service.Endpoint.Reading.{Shared}
use rust_muxio.Service.Call.Returns.{called}
use rust_muxio.Service.Call.Sequence.{Connection, Fits, opened, opened-AreAtRest, exchange}
use rust_muxio.Service.Prebuffered.{RpcMethodPrebuffered, begin_call, end_call, typed_handler}
use rust_muxio.Service.Prebuffered.Returns.{receive, Serves, typed_call, typed_call-outcome}
use rust_muxio.Service.Prebuffered.Methods.{
  Bitcode, AddRequestParams, AddResponseParams, add, add-IsCodec, take_out,
}

-- A byte for each number.
abbrev number_bytes : Bitcode (AddRequestParams ℕ) (List ℕ)
number_bytes = record { encode = λ p. p.numbers; decode = λ b. ok (record { numbers = b }) }

abbrev first_byte_of : List ℕ → Result (List ℕ) (AddResponseParams ℕ)
first_byte_of [] = err []
first_byte_of (b ∷ bs) = ok (record { sum = b })

abbrev sum_byte : Bitcode (AddResponseParams ℕ) (List ℕ)
sum_byte = record { encode = λ p. p.sum ∷ []; decode = first_byte_of }

abbrev adds : RpcMethodPrebuffered (List ℕ) ℕ (List ℕ)
adds = add 6 number_bytes sum_byte

abbrev sum_of : List ℕ → ℕ
sum_of [] = 0
sum_of (x ∷ xs) = x + sum_of xs

-- There is nothing to add up of no number.
abbrev add_up : List ℕ → ℕ → Result HandlerError ℕ
add_up [] context = err (structured (record { code = Error.fail; message = [] }))
add_up (x ∷ xs) context = ok (x + sum_of xs)

abbrev run_typed : ℕ → List ℕ → ℕ → Result HandlerError (List ℕ)
run_typed h = typed_handler adds other add_up

abbrev message_of : RpcServiceErrorPayload → List ℕ
message_of p = p.message

abbrev adding : RpcServiceEndpoint ℕ ℕ
adding = record { prebuffered_handlers = (6, 60) ∷ []; stream_handlers = [] }

abbrev count_events : ℕ → RpcStreamEvent → ℕ → ℕ
count_events h e v = v + h

abbrev ignore_stream : ℕ → RpcStreamEvent → ℕ → ℕ → List (List ℕ × Bool) × ℕ
ignore_stream h e c v = ([], v)

abbrev empty_store : Shared ℕ
empty_store = record { responders = []; pending = []; user_state = 0 }

abbrev new_connection : Connection ℕ ℕ ℕ ℕ (Unit {0}) RecvState
new_connection = opened 3 7 fresh empty_store 6 9

adding-Serves : Serves run_typed message_of (λ b. b) adding 0 adds other add_up
unfolding get add
adding-Serves = record { handler = 60; is_registered = refl; is_typed = λ b. refl }

two_numbers-Fits : Fits run_typed message_of (λ b. b) adding 0 (typed_call adds (2 ∷ 3 ∷ []))
unfolding get typed_handler add take_out
two_numbers-Fits = record {
  method_fits = omega arith;
  args_fit = omega arith;
  reply_fits = omega arith;
  no_stream = refl;
}

typed_call-outcome_example :
    let sent = called 6 (2 ∷ 3 ∷ []) tt new_connection.caller new_connection.counter in
    (e : RpcStreamEncoder) × (begin_call adds true (2 ∷ 3 ∷ []) tt new_connection.caller 6
      ≡ (some (ok e), sent.1, sent.2))
    × (end_call adds
          (exchange count_events ignore_stream run_typed message_of
            (λ b. b)
            (receive (λ b. b))
            adding
            0
            (record { method = 6; args = 2 ∷ 3 ∷ []; on_result = tt })
            new_connection).heard
        ≡ some (ok 5))
unfolding add
typed_call-outcome_example =
    typed_call-outcome count_events ignore_stream run_typed message_of (λ b. b) adding 0 adds other
      add_up new_connection (2 ∷ 3 ∷ []) (2 ∷ 3 ∷ [])
      (add-IsCodec 6 number_bytes sum_byte (λ p. refl) (λ p. refl)) adding-Serves refl
      two_numbers-Fits
      (opened-AreAtRest count_events ignore_stream run_typed message_of (λ b. b) (receive (λ b. b))
        adding 0 3 7 fresh empty_store 6 9)
      refl
