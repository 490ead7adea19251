-- ===== src/Service/Call/Batch/Answered.antt =====
-- The calls of a batch as messages, and the endpoint's answers to them.
use rust_muxio.Prelude.{
  ℕ, ◌≡◌, refl, ap, ◌∙◌, false, some, List, [], ◌∷◌, ◌++◌, map, Result, All, arith, length,
}
use rust_muxio.Prelude.Map.{get}
use rust_muxio.Rpc.IdSpace.{IdSpace, place}
use rust_muxio.Rpc.IdSpace.Apart.{place-apart}
use rust_muxio.Rpc.Respondable.{or_default}
use rust_muxio.Rpc.Dispatcher.{RpcDispatcher}
use rust_muxio.Rpc.Dispatcher.Sending.{message_events}
use rust_muxio.Rpc.Dispatcher.Several
use rust_muxio.Rpc.Dispatcher.Several.{all_bytes}
use rust_muxio.Rpc.Dispatcher.Several.Requests.{request_of}
use rust_muxio.Rpc.Dispatcher.Several.Responses.{messages}
use rust_muxio.Service.Error.{HandlerError, RpcServiceErrorPayload}
use rust_muxio.Service.Caller.{request_for, recv_all, consume, fresh}
use rust_muxio.Service.Endpoint.{
  RpcServiceEndpoint, args_for_handler, process_single_prebuffered_request,
}
use rust_muxio.Service.Endpoint.Answering.{Attempt, reply, AllFit, AllAnswered}
use rust_muxio.Service.Call.{expected, handled}
use rust_muxio.Service.Call.Arrival.{request_for-method, header_of, stream_of, start_call-Sends}
use rust_muxio.Service.Call.Answered.{
  reply_bytes, result_of, process_with-reply_bytes, handled-request_for,
}
use rust_muxio.Service.Call.Returns.{called}
use rust_muxio.Service.Call.Sequence.{Call, Fits, emitted_by, all_emitted}
use rust_muxio.Service.Call.Batch.{called_all, ids_of, id_of}

module _ {S C P H : Type 0} (run : P → List ℕ → C → Result HandlerError (List ℕ))
    (encode : RpcServiceErrorPayload → List ℕ) (lossy : List ℕ → List ℕ)
    (endpoint : RpcServiceEndpoint P S) (context : C) where
  abbrev pub AreFit : List (Call H) → Type 0
  AreFit cs = All (Fits run encode lossy endpoint context) cs

module _ {S C P H U : Type 0} (run : P → List ℕ → C → Result HandlerError (List ℕ))
    (encode : RpcServiceErrorPayload → List ℕ) (lossy : List ℕ → List ℕ)
    (endpoint : RpcServiceEndpoint P S) (context : C) where
  -- The message that a call sends.
  abbrev pub sent_of :
      (c : Call H) → Fits run encode lossy endpoint context c → RpcDispatcher H U → ℕ → Several.Sent
  sent_of c f d counter = record {
    sid = stream_of d;
    header = header_of d (request_for c.method c.args);
    body = or_default [] (request_for c.method c.args).rpc_prebuffered_payload_bytes;
    result = (called c.method c.args c.on_result d counter).0;
    fits = (place-apart d.rpc_respondable_session.rpc_session.next_stream_id 0 _).1;
    sends =
        start_call-Sends c.method c.args (some c.on_result) false d counter f.method_fits
          f.args_fit;
  }

  abbrev pub messages_of :
      (cs : List (Call H))
      → AreFit run encode lossy endpoint context cs
      → RpcDispatcher H U
      → ℕ
      → List Several.Sent
  messages_of [] fits d counter = []
  messages_of (c ∷ cs) fits d counter =
      let (r, d1, counter1) = called c.method c.args c.on_result d counter in
      sent_of c fits.0 d counter ∷ messages_of cs fits.1 d1 counter1

  pub emitted-messages_of :
      (cs : List (Call H)) (fits : AreFit run encode lossy endpoint context cs)
      (d : RpcDispatcher H U) (counter : ℕ)
      → all_emitted (called_all cs d counter).0 ≡ all_bytes (messages_of cs fits d counter)
  unfolding called_all
  emitted-messages_of [] fits d counter = refl
  emitted-messages_of (c ∷ cs) fits d counter =
      let (r, d1, counter1) = called c.method c.args c.on_result d counter in
      ap (λ t. emitted_by t ++ all_emitted (called_all cs d1 counter1).0)
        (sent_of c fits.0 d counter).sends.returns
      ∙ ap (λ b. Several.bytes_of (sent_of c fits.0 d counter) ++ b)
          (emitted-messages_of cs fits.1 d1 counter1)

  pub ids-messages_of :
      (cs : List (Call H)) (fits : AreFit run encode lossy endpoint context cs)
      (d : RpcDispatcher H U) (counter : ℕ)
      → map id_of (messages_of cs fits d counter) ≡ ids_of cs d counter
  ids-messages_of [] fits d counter = refl
  ids-messages_of (c ∷ cs) fits d counter =
      ap (λ ids. place d.id_space d.next_rpc_request_id ∷ ids) (ids-messages_of cs fits.1 _ _)

  -- What the handler gives for the request of a call's message is what it gives for the call.
  same_result :
      (c : Call H) (f : Fits run encode lossy endpoint context c) (d : RpcDispatcher H U)
      (counter : ℕ)
      → let request = (request_of (sent_of c f d counter)).1 in
        handled run encode lossy
          (get request.rpc_method_id endpoint.prebuffered_handlers)
          (args_for_handler request)
          context
        ≡ result_of run encode lossy endpoint context c.method c.args
  same_result c f d counter =
      let m = sent_of c f d counter in
      handled-request_for run encode lossy endpoint context (place d.id_space d.next_rpc_request_id)
        c.method c.args m.sends.chunks m.sends.joins

  pub requests-AllFit :
      (cs : List (Call H)) (fits : AreFit run encode lossy endpoint context cs)
      (d : RpcDispatcher H U) (counter : ℕ)
      → AllFit run encode context endpoint (map request_of (messages_of cs fits d counter))
  unfolding process_single_prebuffered_request
  requests-AllFit [] fits d counter = tt
  requests-AllFit (c ∷ cs) fits d counter =
      let m = sent_of c fits.0 d counter in
      let request = (request_of m).1 in
      let size : length (
            or_default []
              (reply run encode context endpoint (id_of m) request).rpc_prebuffered_payload_bytes)
          ≡ length
              (reply_bytes encode (result_of run encode lossy endpoint context c.method c.args)) =
        ap length (
          process_with-reply_bytes run encode lossy endpoint context
            (get request.rpc_method_id endpoint.prebuffered_handlers) (id_of m) request
          ∙ ap (reply_bytes encode) (same_result c fits.0 d counter)) in
      (
        record {
          id_fits = (place-apart d.next_rpc_request_id 0 d.id_space).1;
          method_fits = rw (request_for-method c.method c.args) fits.0.method_fits;
          payload_fits = omega (arith, fits.0.reply_fits, size);
        },
        requests-AllFit cs fits.1 _ _,
      )

  -- The responses answer the calls, each once and in order, and each goes with its call's handler: a
  -- buffered call makes of its events what the method's handler gives for the arguments.
  abbrev pub AnswerCalls : List (Call H) → RpcDispatcher H U → ℕ → List (Several.Sent × H) → Type 0
  AnswerCalls [] d counter [] = Unit
  AnswerCalls [] d counter (p ∷ ps) = ⊥
  AnswerCalls (c ∷ cs) d counter [] = ⊥
  AnswerCalls (c ∷ cs) d counter ((m, h) ∷ ps) =
      let (r, d1, counter1) = called c.method c.args c.on_result d counter in
      (id_of m ≡ place d.id_space d.next_rpc_request_id)
      × (h ≡ c.on_result)
      × (consume (recv_all lossy (message_events m.header m.sends.chunks) fresh).sent []
          ≡ expected lossy encode (result_of run encode lossy endpoint context c.method c.args))
      × AnswerCalls cs d1 counter1 ps

  pub answered-AnswerCalls :
      (cs : List (Call H)) (fits : AreFit run encode lossy endpoint context cs)
      (d : RpcDispatcher H U) (counter : ℕ) (space : IdSpace) (next counter' : ℕ)
      (attempts : List Attempt)
      → AllAnswered run encode context endpoint lossy space next counter'
          (map request_of (messages_of cs fits d counter))
          attempts
      → (ps : List (Several.Sent × H)) × (all_emitted attempts ≡ all_bytes (messages ps))
        × AnswerCalls cs d counter ps
  answered-AnswerCalls [] fits d counter space next counter' [] all = ([], refl, tt)
  answered-AnswerCalls [] fits d counter space next counter' (r ∷ rs) all = absurd all
  answered-AnswerCalls (c ∷ cs) fits d counter space next counter' [] all = absurd all
  answered-AnswerCalls (c ∷ cs) fits d counter space next counter' (r ∷ rs) (a, all) =
      let (ps, emits, answer) = answered-AnswerCalls cs fits.1 _ _ space _ _ rs all in
      let m : Several.Sent = record {
        sid = place space next;
        header = a.header;
        body = a.body;
        result = r;
        fits = (place-apart next 0 space).1;
        sends = a.sends;
      } in
      (
        (m, c.on_result) ∷ ps,
        ap (λ t. emitted_by t ++ all_emitted rs) a.sends.returns
            ∙ ap (λ b. Several.bytes_of m ++ b) emits,
        (
          a.to_request,
          refl,
          a.received ∙ ap (expected lossy encode) (same_result c fits.0 d counter),
          answer,
        ),
      )
