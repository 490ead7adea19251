-- ===== src/Rpc/Dispatcher/Interleaved.antt =====
-- Requests whose events come between those of others: what the queue holds of one request depends on
-- its own events only.
use rust_muxio.Prelude.{
  ℕ, ◌≡◌, refl, ap, ◌∙◌, Bool, true, false, ◌==◌, List, [], ◌∷◌, ◌++◌, arith, append-nil,
  if◌then◌else◌, Bool-cases, inl, inr,
}
use rust_muxio.Rpc.Types.{RpcHeader, RpcRequest, RpcStreamEvent, header, payload_chunk, end, error}
use rust_muxio.Rpc.Dispatcher.{Queue, update_first, on_queue, contains_request, find_request}
use rust_muxio.Rpc.Dispatcher.Sending.{message_events}
use rust_muxio.Rpc.Dispatcher.Requests.{
  queue_all, queue_all-message_events, collected, request_so_far,
}

-- The entries of request `k`.
abbrev pub entries : ℕ → Queue → Queue
entries k [] = []
entries k ((i, r) ∷ q) = let rest = entries k q in if i == k then (i, r) ∷ rest else rest

-- Whether an event changes what the queue holds of request `k`.
abbrev pub concerns : ℕ → RpcStreamEvent → Bool
concerns k (header i m h) = i == k
concerns k (payload_chunk h i m bytes) = i == k
concerns k (end h i m) = i == k
concerns k (error h i m e) = false

-- The events of request `k`.
abbrev pub events_of : ℕ → List RpcStreamEvent → List RpcStreamEvent
events_of k [] = []
events_of k (e ∷ es) = let rest = events_of k es in if concerns k e then e ∷ rest else rest

entries-append : (k : ℕ) (p q : Queue) → entries k (p ++ q) ≡ entries k p ++ entries k q
entries-append k [] q = refl
entries-append k ((i, r) ∷ p) q = ground (arith, entries-append k p q)

entries-update_first :
    (k id : ℕ) (f : RpcRequest → RpcRequest) (q : Queue)
    → entries k (update_first id f q)
      ≡ (if id == k then update_first id f (entries k q) else entries k q)
unfolding update_first
entries-update_first k id f [] = ground arith
entries-update_first k id f ((i, r) ∷ q) = ground (arith, entries-update_first k id f q)

entries-on_queue :
    (k : ℕ) (e : RpcStreamEvent) (q : Queue)
    → entries k (on_queue e q) ≡ (if concerns k e then on_queue e (entries k q) else entries k q)
unfolding on_queue
entries-on_queue k (header i m h) q =
    entries-append k q _ ∙ elim (Bool-cases (i == k)) [ inl e ↦ rw e | inr e ↦ rw (e, append-nil) ]
entries-on_queue k (payload_chunk h i m bytes) q = entries-update_first k i _ q
entries-on_queue k (end h i m) q = entries-update_first k i _ q
entries-on_queue k (error h i m e) q = refl

pub entries-queue_all :
    (k : ℕ) (es : List RpcStreamEvent) (q : Queue)
    → entries k (queue_all es q) ≡ queue_all (events_of k es) (entries k q)
unfolding queue_all
entries-queue_all k [] q = refl
entries-queue_all k (e ∷ es) q =
    entries-queue_all k es (on_queue e q) ∙ elim (Bool-cases (concerns k e)) [
      | inl h ↦ rw h (ap (queue_all (events_of k es)) (entries-on_queue k e q ∙ rw h))
      | inr h ↦ rw h (ap (queue_all (events_of k es)) (entries-on_queue k e q ∙ rw h))
    ]

find_request-entries : (k : ℕ) (q : Queue) → find_request k q ≡ find_request k (entries k q)
unfolding find_request
find_request-entries k [] = refl
find_request-entries k ((i, r) ∷ q) = ground (arith, find_request-entries k q)

entries_new : (k : ℕ) (q : Queue) → contains_request k q ≡ false → entries k q ≡ []
unfolding contains_request
entries_new k [] h = refl
entries_new k ((i, r) ∷ q) h = ground (arith, entries_new k q)

-- However the events of a whole request come between those of other requests, they leave one request
-- under its id, where that is new: it is finalized, its method is the header's, its parameters are
-- the metadata unless that is empty, and its payload is its own chunks together, in order.
pub queue_all-interleaved :
    (h : RpcHeader) (cs : List (List ℕ)) (es : List RpcStreamEvent) (q : Queue)
    → contains_request h.rpc_request_id q ≡ false
    → events_of h.rpc_request_id es ≡ message_events h cs
    → entries h.rpc_request_id (queue_all es q)
      ≡ (h.rpc_request_id, request_so_far h (collected cs) true) ∷ []
unfolding contains_request
queue_all-interleaved h cs es q new mine =
    entries-queue_all h.rpc_request_id es q
    ∙ ap (λ l. queue_all l (entries h.rpc_request_id q)) mine
    ∙ ap (queue_all (message_events h cs)) (entries_new h.rpc_request_id q new)
    ∙ queue_all-message_events h cs [] refl
