-- ===== src/Rpc/Dispatcher/Queues.antt =====
-- core/src/rpc/rpc_dispatcher.rs: the queue of requests, and the handler of `RpcDispatcher` that
-- collects requests in it.
use rust_muxio.Prelude.{
  ℕ, Bool, true, false, Option, none, some, List, [], ◌∷◌, ◌++◌, ◌==◌, ◌||◌, if◌then◌else◌,
}
use rust_muxio.Rpc.Types.{RpcStreamEvent, header, payload_chunk, end, error, RpcRequest}
use rust_muxio.Rpc.Respondable.{or_default}

abbrev pub Queue : Type 0
Queue = List (ℕ × RpcRequest)

-- `iter_mut().find(|(id, _)| *id == request_id)`
unfoldable pub update_first : ℕ → (RpcRequest → RpcRequest) → Queue → Queue
update_first id f [] = []
update_first id f ((i, r) ∷ q) =
    let rest = update_first id f q in if i == id then (i, f r) ∷ q else (i, r) ∷ rest

unfoldable pub non_empty : List ℕ → Option (List ℕ)
non_empty [] = none
non_empty (b ∷ bs) = some (b ∷ bs)

-- The handler that `init_catch_all_response_handler` installs.
unfoldable pub on_queue : RpcStreamEvent → Queue → Queue
on_queue (header id m h) q =
    q
    ++ (
      id,
      record {
        rpc_method_id = h.rpc_method_id;
        rpc_param_bytes = non_empty h.rpc_metadata_bytes;
        rpc_prebuffered_payload_bytes = none;
        is_finalized = false;
      },
    )
      ∷ []
on_queue (payload_chunk h id m bytes) q =
    update_first id
      (λ r. record r {
        rpc_prebuffered_payload_bytes =
            some (or_default [] r.rpc_prebuffered_payload_bytes ++ bytes);
      })
      q
on_queue (end h id m) q = update_first id (λ r. record r { is_finalized = true }) q
on_queue (error h id m e) q = q

unfoldable pub find_request : ℕ → Queue → Option RpcRequest
find_request id [] = none
find_request id ((i, r) ∷ q) = let rest = find_request id q in if i == id then some r else rest

-- `queue.remove(position)`
unfoldable pub remove_first : ℕ → Queue → Queue
remove_first id [] = []
remove_first id ((i, r) ∷ q) = let rest = remove_first id q in if i == id then q else (i, r) ∷ rest

unfoldable pub contains_request : ℕ → Queue → Bool
contains_request id [] = false
contains_request id ((i, r) ∷ q) = i == id || contains_request id q
