-- ===== src/Rpc/Dispatcher/Failing.antt =====
-- `fail_all_pending_requests`, which a transport calls where its connection is lost.
use rust_muxio.Prelude.{◌≡◌, refl, ap, ◌∙◌, none, some, [], ◌∷◌}
use rust_muxio.Prelude.Map.{Map}
use rust_muxio.Frame.Types.{FrameDecodeError}
use rust_muxio.Rpc.Types.{RpcStreamEvent, error}
use rust_muxio.Rpc.Respondable
use rust_muxio.Rpc.Dispatcher.{
  RpcDispatcher, Handler, user, Queue, run_handler, fail_handlers, fail_all_pending_requests,
}

-- Handlers of the program, by request id, as the session keeps them.
abbrev pub users : {H : Type 0} → Map H → Map (Handler H)
users [] = []
users ((id, h) ∷ hs) = (id, user h) ∷ users hs

module _ {H U : Type 0} (invoke : H → RpcStreamEvent → U → U) where
  -- Each handler once, with an error for its own request.
  abbrev pub notify_all : FrameDecodeError → Map H → U → U
  notify_all e [] u = u
  notify_all e ((id, h) ∷ hs) u = notify_all e hs (invoke h (error none (some id) none e) u)

  fail_handlers-users :
      (e : FrameDecodeError) (hs : Map H) (q : Queue) (u : U)
      → fail_handlers invoke e (users hs) (q, u) ≡ (q, notify_all e hs u)
  unfolding fail_handlers run_handler
  fail_handlers-users e [] q u = refl
  fail_handlers-users e ((id, h) ∷ hs) q u =
      fail_handlers-users e hs q (invoke h (error none (some id) none e) u)

  -- What is left of a dispatcher whose pending requests were failed.
  pub record IsFailed (e : FrameDecodeError) (hs : Map H) (d : RpcDispatcher H U) (u : U)
      (r : RpcDispatcher H U × U) : Type 0 where
    pub notified : r.1 ≡ notify_all e hs u
    pub no_handlers : r.0.rpc_respondable_session.routing.response_handlers ≡ []
    pub no_buffers : r.0.rpc_respondable_session.routing.prebuffered_responses ≡ []
    pub no_flags : r.0.rpc_respondable_session.routing.prebuffering_flags ≡ []
    pub no_requests : r.0.rpc_request_queue ≡ []
    pub same_session :
        r.0.rpc_respondable_session.rpc_session ≡ d.rpc_respondable_session.rpc_session

  -- Where the pending handlers are those of the program, each is called once, with an error for its
  -- own request, and then none is pending: no handler, no prebuffered response, no flag and no
  -- queued request is left. What the session has decoded so far stays, an unfinished frame too.
  pub fail_all_pending_requests-IsFailed :
      (e : FrameDecodeError) (hs : Map H) (d : RpcDispatcher H U) (u : U)
      → d.rpc_respondable_session.routing.response_handlers ≡ users hs
      → IsFailed e hs d u (fail_all_pending_requests invoke e d u)
  unfolding fail_all_pending_requests Respondable.clear_all_prebuffering
  fail_all_pending_requests-IsFailed e hs d u h =
      let calls : fail_handlers invoke e d.rpc_respondable_session.routing.response_handlers ([], u)
          ≡ ([], notify_all e hs u) =
        ap (λ t. fail_handlers invoke e t ([], u)) h ∙ fail_handlers-users e hs [] u in
      record {
        notified = ap (λ (p : Queue × U). p.1) calls;
        no_handlers = refl;
        no_buffers = refl;
        no_flags = refl;
        no_requests = ap (λ (p : Queue × U). p.0) calls;
        same_session = refl;
      }
