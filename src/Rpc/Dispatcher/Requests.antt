-- ===== src/Rpc/Dispatcher/Requests.antt =====
-- The request queue: what the events of whole requests leave in it.
use rust_muxio.Prelude.{
  ℕ, ◌≡◌, refl, ap, ◌∙◌, Bool, true, false, Option, none, some, List, [], ◌∷◌, ◌++◌, map,
  append-nil, append_assoc, arith, ==_refl,
}
use rust_muxio.Rpc.Types.{RpcHeader, RpcRequest, RpcStreamEvent, header, end}
use rust_muxio.Rpc.Respondable.{or_default}
use rust_muxio.Rpc.StreamDecoder.Events.{join, chunk_of}
use rust_muxio.Rpc.Dispatcher.{
  Queue, update_first, non_empty, on_queue, contains_request, find_request, remove_first,
}
use rust_muxio.Rpc.Dispatcher.Sending.{message_events}

-- The events that reach the queue, one after the other.
unfoldable pub queue_all : List RpcStreamEvent → Queue → Queue
queue_all [] q = q
queue_all (e ∷ es) q = queue_all es (on_queue e q)

-- The payload that chunks make, where there is one.
abbrev pub collected : List (List ℕ) → Option (List ℕ)
collected [] = none
collected (c ∷ cs) = some (c ++ join cs)

-- A request with header `h` whose payload `p` has come so far.
abbrev pub request_so_far : RpcHeader → Option (List ℕ) → Bool → RpcRequest
request_so_far h p is_finalized = record {
  rpc_method_id = h.rpc_method_id;
  rpc_param_bytes = non_empty h.rpc_metadata_bytes;
  rpc_prebuffered_payload_bytes = p;
  is_finalized = is_finalized;
}

-- The update of a request that stands last, its id being new.
pub update_first-append :
    (id : ℕ) (f : RpcRequest → RpcRequest) (q : Queue) (r : RpcRequest)
    → contains_request id q ≡ false
    → update_first id f (q ++ (id, r) ∷ []) ≡ q ++ (id, f r) ∷ []
unfolding update_first contains_request
update_first-append id f [] r h = rw (==_refl id)
update_first-append id f ((i, s) ∷ q) r h = ground (arith, update_first-append id f q r)

queue_all-append :
    (xs ys : List RpcStreamEvent) (q : Queue)
    → queue_all (xs ++ ys) q ≡ queue_all ys (queue_all xs q)
unfolding queue_all
queue_all-append [] ys q = refl
queue_all-append (x ∷ xs) ys q = queue_all-append xs ys (on_queue x q)

-- The payload `p` with more chunks.
abbrev gathered : Option (List ℕ) → List (List ℕ) → Option (List ℕ)
gathered p [] = p
gathered p (c ∷ cs) = gathered (some (or_default [] p ++ c)) cs

gathered-some : (p : List ℕ) (cs : List (List ℕ)) → gathered (some p) cs ≡ some (p ++ join cs)
gathered-some p [] = rw append-nil
gathered-some p (c ∷ cs) = gathered-some (p ++ c) cs ∙ rw append_assoc

gathered-none : (cs : List (List ℕ)) → gathered none cs ≡ collected cs
gathered-none [] = refl
gathered-none (c ∷ cs) = gathered-some c cs

queue_chunks :
    (h : RpcHeader) (cs : List (List ℕ)) (p : Option (List ℕ)) (q : Queue)
    → contains_request h.rpc_request_id q ≡ false
    → queue_all (map (chunk_of h) cs) (q ++ (h.rpc_request_id, request_so_far h p false) ∷ [])
      ≡ q ++ (h.rpc_request_id, request_so_far h (gathered p cs) false) ∷ []
unfolding queue_all on_queue
queue_chunks h [] p q new = refl
queue_chunks h (c ∷ cs) p q new =
    ap (queue_all (map (chunk_of h) cs))
      (update_first-append h.rpc_request_id _ q (request_so_far h p false) new)
    ∙ queue_chunks h cs (some (or_default [] p ++ c)) q new

-- The events of a whole request whose id is not in the queue put one finalized request behind the
-- others: its method is the header's, its parameters are the metadata unless that is empty, and its
-- payload is the chunks together. The other requests stay as they are.
pub queue_all-message_events :
    (h : RpcHeader) (cs : List (List ℕ)) (q : Queue)
    → contains_request h.rpc_request_id q ≡ false
    → queue_all (message_events h cs) q
      ≡ q ++ (h.rpc_request_id, request_so_far h (collected cs) true) ∷ []
unfolding queue_all on_queue
queue_all-message_events h cs q new =
    queue_all-append (map (chunk_of h) cs) (end h h.rpc_request_id h.rpc_method_id ∷ [])
      (on_queue (header h.rpc_request_id h.rpc_method_id h) q)
    ∙ ap (λ t. queue_all (end h h.rpc_request_id h.rpc_method_id ∷ []) t)
        (queue_chunks h cs none q new ∙ rw (gathered-none cs))
    ∙ update_first-append h.rpc_request_id _ q (request_so_far h (collected cs) false) new

pub find_request-append :
    (id : ℕ) (q : Queue) (r : RpcRequest)
    → contains_request id q ≡ false
    → find_request id (q ++ (id, r) ∷ []) ≡ some r
unfolding find_request contains_request
find_request-append id [] r h = rw (==_refl id)
find_request-append id ((i, s) ∷ q) r h = ground (arith, find_request-append id q r)

pub remove_first-append :
    (id : ℕ) (q : Queue) (r : RpcRequest)
    → contains_request id q ≡ false
    → remove_first id (q ++ (id, r) ∷ []) ≡ q
unfolding remove_first contains_request
remove_first-append id [] r h = rw (==_refl id)
remove_first-append id ((i, s) ∷ q) r h = ground (arith, remove_first-append id q r)
