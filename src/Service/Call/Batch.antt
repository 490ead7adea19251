-- ===== src/Service/Call/Batch.antt =====
-- Calls that are made before any of them is answered: their bytes arrive together, and so do those of
-- the responses.
pub mod Decoded
pub mod Answered
pub mod Heard
pub mod Returns
use rust_muxio.Prelude.{
  ℕ, ◌≡◌, refl, ap, ◌∙◌, Bool, false, none, List, [], ◌∷◌, ◌++◌, ◌==◌, arith, map, Result, All,
}
use rust_muxio.Rpc.Types.{RpcStreamEvent}
use rust_muxio.Rpc.IdSpace.{place}
use rust_muxio.Rpc.Dispatcher
use rust_muxio.Rpc.Dispatcher.{RpcDispatcher, Queue, contains_request}
use rust_muxio.Rpc.Dispatcher.Several
use rust_muxio.Rpc.Dispatcher.Several.Requests.{request_of, AllNew}
use rust_muxio.Service.Error.{HandlerError, RpcServiceErrorPayload}
use rust_muxio.Service.Endpoint.{RpcServiceEndpoint}
use rust_muxio.Service.Endpoint.Reading
use rust_muxio.Service.Endpoint.Answering.{Attempt}
use rust_muxio.Service.Endpoint.Collect.{IsDistinct, finalized, unfinished, contains_request-snoc}
use rust_muxio.Service.Call.Returns.{called}
use rust_muxio.Service.Call.Sequence.{Call, Connection, all_emitted, replies}

module _ {H U : Type 0} where
  -- Calls, one behind the other, and none answered yet.
  unfoldable pub called_all :
      List (Call H) → RpcDispatcher H U → ℕ → List Attempt × RpcDispatcher H U × ℕ
  called_all [] d counter = ([], d, counter)
  called_all (c ∷ cs) d counter =
      let (r, d1, counter1) = called c.method c.args c.on_result d counter in
      let (rs, d2, counter2) = called_all cs d1 counter1 in (r ∷ rs, d2, counter2)

  -- The ids that the calls get.
  abbrev pub ids_of : List (Call H) → RpcDispatcher H U → ℕ → List ℕ
  ids_of [] d counter = []
  ids_of (c ∷ cs) d counter =
      let (r, d1, counter1) = called c.method c.args c.on_result d counter in
      place d.id_space d.next_rpc_request_id ∷ ids_of cs d1 counter1

-- No id is in the list twice.
abbrev pub AreDistinct : List ℕ → Type 0
AreDistinct [] = Unit
AreDistinct (id ∷ ids) = All (λ j. (id == j) ≡ false) ids × AreDistinct ids

abbrev pub id_of : Several.Sent → ℕ
id_of m = m.header.rpc_request_id

module _ {R S C V P H U : Type 0} (on_response : R → RpcStreamEvent → V → V)
    (on_stream : S → RpcStreamEvent → C → V → List (List ℕ × Bool) × V)
    (run : P → List ℕ → C → Result HandlerError (List ℕ)) (encode : RpcServiceErrorPayload → List ℕ)
    (invoke_caller : H → RpcStreamEvent → U → U) (endpoint : RpcServiceEndpoint P S)
    (context : C) where
  -- All calls are made, the endpoint reads what they have emitted, in one read, and the caller reads
  -- what the endpoint has emitted, in one read.
  unfoldable pub exchange_all : List (Call H) → Connection R S C V H U → Connection R S C V H U
  unfolding called_all
  exchange_all cs conn =
      let (sent, d, counter) = called_all cs conn.caller conn.counter in
      let (answers, serving) =
        Reading.read_bytes on_response on_stream run encode (all_emitted sent) context endpoint
          conn.serving in
      let (ids, d', heard) = Dispatcher.read_bytes invoke_caller (replies answers) d conn.heard in
      record { caller = d'; heard = heard; counter = counter; serving = serving }

-- Requests with distinct ids stand in a queue once each, and none was there before.
contains_none :
    (id : ℕ) (ms : List Several.Sent)
    → All (λ j. (id == j) ≡ false) (map id_of ms)
    → contains_request id (map request_of ms) ≡ false
unfolding contains_request
contains_none id [] h = refl
contains_none id (m ∷ ms) h = let more = contains_none id ms h.1 in ground (arith, h.0, more)

pub requests-IsDistinct :
    (ms : List Several.Sent) → AreDistinct (map id_of ms) → IsDistinct (map request_of ms)
requests-IsDistinct [] h = tt
requests-IsDistinct (m ∷ ms) h =
    (contains_none m.header.rpc_request_id ms h.0, requests-IsDistinct ms h.1)

abbrev AreNewTo : Queue → List Several.Sent → Type 0
AreNewTo q ms = All (λ m. contains_request (id_of m) q ≡ false) ms

AreNewTo-snoc :
    (q : Queue) (m : Several.Sent) (ms : List Several.Sent)
    → AreNewTo q ms
    → All (λ j. (id_of m == j) ≡ false) (map id_of ms)
    → AreNewTo (q ++ request_of m ∷ []) ms
AreNewTo-snoc q m [] h a = tt
AreNewTo-snoc q m (n ∷ ms) h a = (
  contains_request-snoc (id_of n) (id_of m) q (request_of m).1 h.0 a.0,
  AreNewTo-snoc q m ms h.1 a.1,
)

AreNewTo-AllNew :
    (ms : List Several.Sent) (q : Queue) → AreDistinct (map id_of ms) → AreNewTo q ms → AllNew ms q
AreNewTo-AllNew [] q h new = tt
AreNewTo-AllNew (m ∷ ms) q h new =
    (new.0, AreNewTo-AllNew ms (q ++ request_of m ∷ []) h.1 (AreNewTo-snoc q m ms new.1 h.0))

AreNewTo-nil : (ms : List Several.Sent) → AreNewTo [] ms
unfolding contains_request
AreNewTo-nil [] = tt
AreNewTo-nil (m ∷ ms) = (refl, AreNewTo-nil ms)

pub requests-AllNew : (ms : List Several.Sent) → AreDistinct (map id_of ms) → AllNew ms []
requests-AllNew ms h = AreNewTo-AllNew ms [] h (AreNewTo-nil ms)

pub requests-finalized :
    (ms : List Several.Sent) → finalized (map request_of ms) ≡ map request_of ms
requests-finalized [] = refl
requests-finalized (m ∷ ms) = ap (λ q. request_of m ∷ q) (requests-finalized ms)

pub requests-unfinished : (ms : List Several.Sent) → unfinished (map request_of ms) ≡ []
requests-unfinished [] = refl
requests-unfinished (m ∷ ms) = requests-unfinished ms
