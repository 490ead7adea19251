-- ===== src/Service/Endpoint/Collect.antt =====
-- The requests that `decode_bytes` takes from the dispatcher's queue.
use rust_muxio.Prelude.{
  ℕ, ◌≡◌, refl, sym, ap, ◌∙◌, Bool, true, false, ◌==◌, ==_refl, some, List, [], ◌∷◌, ◌++◌,
  append_assoc, if◌then◌else◌, arith,
}
use rust_muxio.Rpc.Types.{RpcRequest}
use rust_muxio.Rpc.Dispatcher.{
  RpcDispatcher, Queue, contains_request, find_request, remove_first, is_rpc_request_finalized,
  delete_rpc_request,
}
use rust_muxio.Service.Endpoint.{collect_finalized}

-- No id is in the queue twice.
abbrev pub IsDistinct : Queue → Type 0
IsDistinct [] = Unit
IsDistinct ((id, r) ∷ q) = (contains_request id q ≡ false) × IsDistinct q

-- The requests that are finalized, and the others.
abbrev pub finalized : Queue → Queue
finalized [] = []
finalized ((id, r) ∷ q) = let rest = finalized q in if r.is_finalized then (id, r) ∷ rest else rest

abbrev pub unfinished : Queue → Queue
unfinished [] = []
unfinished ((id, r) ∷ q) =
    let rest = unfinished q in if r.is_finalized then rest else (id, r) ∷ rest

abbrev pub ids_of : Queue → List ℕ
ids_of [] = []
ids_of ((id, r) ∷ q) = id ∷ ids_of q

-- No id of the second queue is in the first.
abbrev Apart : Queue → Queue → Type 0
Apart pre [] = Unit
Apart pre ((id, r) ∷ q) = (contains_request id pre ≡ false) × Apart pre q

find_behind :
    (id : ℕ) (pre : Queue) (r : RpcRequest) (q : Queue)
    → contains_request id pre ≡ false
    → find_request id (pre ++ (id, r) ∷ q) ≡ some r
unfolding find_request contains_request
find_behind id [] r q h = rw (==_refl id)
find_behind id ((i, s) ∷ pre) r q h = ground (arith, find_behind id pre r q)

remove_behind :
    (id : ℕ) (pre : Queue) (r : RpcRequest) (q : Queue)
    → contains_request id pre ≡ false
    → remove_first id (pre ++ (id, r) ∷ q) ≡ pre ++ q
unfolding remove_first contains_request
remove_behind id [] r q h = rw (==_refl id)
remove_behind id ((i, s) ∷ pre) r q h = ground (arith, remove_behind id pre r q)

pub contains_request-snoc :
    (i id : ℕ) (pre : Queue) (r : RpcRequest)
    → contains_request i pre ≡ false
    → (id == i) ≡ false
    → contains_request i (pre ++ (id, r) ∷ []) ≡ false
unfolding contains_request
contains_request-snoc i id [] r h ne = ground arith
contains_request-snoc i id ((j, s) ∷ pre) r h ne = ground (arith, contains_request-snoc i id pre r)

Apart-snoc :
    (pre q : Queue) (id : ℕ) (r : RpcRequest)
    → contains_request id q ≡ false
    → Apart pre q
    → Apart (pre ++ (id, r) ∷ []) q
unfolding contains_request
Apart-snoc pre [] id r h a = tt
Apart-snoc pre ((i, s) ∷ q) id r h a =
    (contains_request-snoc i id pre r a.0 (ground arith), Apart-snoc pre q id r (ground arith) a.1)

Apart-nil : (q : Queue) → Apart [] q
unfolding contains_request
Apart-nil [] = tt
Apart-nil ((id, r) ∷ q) = (refl, Apart-nil q)

module _ {H U : Type 0} where
  abbrev with_queue : RpcDispatcher H U → Queue → RpcDispatcher H U
  with_queue d q = record d { rpc_request_queue = q }

  -- A request that stays is one of those that were looked at.
  passed :
      (d : RpcDispatcher H U) (pre : Queue) (id : ℕ) (r : RpcRequest) (q : Queue)
      → collect_finalized (ids_of q) (with_queue d ((pre ++ (id, r) ∷ []) ++ q))
        ≡ (finalized q, with_queue d ((pre ++ (id, r) ∷ []) ++ unfinished q))
      → collect_finalized (ids_of q) (with_queue d (pre ++ (id, r) ∷ q))
        ≡ (finalized q, with_queue d (pre ++ (id, r) ∷ unfinished q))
  passed d pre id r q e =
      ap (λ t. collect_finalized (ids_of q) (with_queue d t))
        (sym (append_assoc pre ((id, r) ∷ []) q))
      ∙ e
      ∙ ap (λ t. (finalized q, with_queue d t)) (append_assoc pre ((id, r) ∷ []) (unfinished q))

  by_flag :
      (d : RpcDispatcher H U) (pre : Queue) (id : ℕ) (r : RpcRequest) (more rest : Queue) (b : Bool)
      → ◌≡◌ {A = Queue × RpcDispatcher H U}
          (if b
            then ((id, r) ∷ more, with_queue d (pre ++ rest))
            else (more, with_queue d (pre ++ (id, r) ∷ rest)))
          (
            (if b then (id, r) ∷ more else more),
            with_queue d (pre ++ (if b then rest else (id, r) ∷ rest)),
          )
  by_flag d pre id r more rest true = refl
  by_flag d pre id r more rest false = refl

  collect_behind :
      (d : RpcDispatcher H U) (pre q : Queue)
      → IsDistinct q
      → Apart pre q
      → collect_finalized (ids_of q) (with_queue d (pre ++ q))
        ≡ (finalized q, with_queue d (pre ++ unfinished q))
  unfolding collect_finalized is_rpc_request_finalized delete_rpc_request
  collect_behind d pre [] h a = refl
  collect_behind d pre ((id, r) ∷ q) h a =
      let flag : is_rpc_request_finalized id (with_queue d (pre ++ (id, r) ∷ q))
          ≡ some r.is_finalized =
        rw (is_rpc_request_finalized, find_behind id pre r q a.0) refl in
      rw (flag, find_behind id pre r q a.0, remove_behind id pre r q a.0)
        (rw
          (
            collect_behind d pre q h.1 a.1,
            passed d pre id r q
                (collect_behind d (pre ++ (id, r) ∷ []) q h.1 (Apart-snoc pre q id r h.0 a.1)),
          )
          (by_flag d pre id r (finalized q) (unfinished q) r.is_finalized))

  -- Where no id is in the dispatcher's queue twice, the requests that are finalized are taken out of
  -- it, each with its id and in the order of the queue; the others stay, in their order, and nothing
  -- else of the dispatcher changes.
  pub collect_finalized-finalized :
      (d : RpcDispatcher H U)
      → IsDistinct d.rpc_request_queue
      → collect_finalized (ids_of d.rpc_request_queue) d ≡ (
        finalized d.rpc_request_queue,
        record d { rpc_request_queue = unfinished d.rpc_request_queue },
      )
  collect_finalized-finalized d h =
      collect_behind d [] d.rpc_request_queue h (Apart-nil d.rpc_request_queue)
