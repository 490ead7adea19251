-- ===== src/Rpc/Respondable/Cleanup.antt =====
-- The end of a request: nothing of it stays in the session.
use rust_muxio.Prelude.{
  ℕ, ◌≡◌, List, true, false, Option, none, some, Result, ok, err, if_cases, ==_refl,
}
use rust_muxio.Prelude.Map.{get, remove, get-remove}
use rust_muxio.Frame.Types.{FrameDecodeError}
use rust_muxio.Rpc.Types.{RpcStreamEvent}
use rust_muxio.Rpc.Respondable.{
  Routing, is_last_event, forget, dispatch, fall_through, after_prebuffer, prebuffer, open_buffer,
  handle_for, or_default,
}

-- Nothing is kept of request `id`.
pub record IsForgotten {H W : Type 0} (id : ℕ) (t : Routing H W) : Type 0 where
  pub no_handler : get id t.response_handlers ≡ none
  pub no_flag : get id t.prebuffering_flags ≡ none
  pub no_buffer : get id t.prebuffered_responses ≡ none

get-remove_same : {V : Type 0} (id : ℕ) (m : List (ℕ × V)) → get id (remove id m) ≡ none
get-remove_same id m = rw (get-remove id id m, ==_refl id)

module _ {H W : Type 0} (invoke : H → RpcStreamEvent → W → W) where
  forget-IsForgotten :
      (id : ℕ) (evt : RpcStreamEvent) (t : Routing H W)
      → is_last_event evt ≡ true
      → IsForgotten id (forget invoke id evt t)
  unfolding forget
  forget-IsForgotten id evt t h = rw h (record {
    no_handler = get-remove_same id t.response_handlers;
    no_flag = get-remove_same id t.prebuffering_flags;
    no_buffer = get-remove_same id t.prebuffered_responses;
  })

  dispatch-IsForgotten :
      (id : ℕ) (evt : RpcStreamEvent) (o : Option H) (t : Routing H W) (w : W)
      → is_last_event evt ≡ true
      → IsForgotten id (dispatch invoke id evt o t w).0
  unfolding dispatch fall_through
  dispatch-IsForgotten id evt none t w h = forget-IsForgotten id evt t h
  dispatch-IsForgotten id evt (some cb) t w h = forget-IsForgotten id evt t h

  -- Where the callback has not failed.
  abbrev Cleans : ℕ → Result FrameDecodeError (Unit {0}) × (Routing H W × W) → Type 0
  Cleans id r = r.0 ≡ ok tt → IsForgotten id r.1.0

  after_prebuffer-Cleans :
      (id : ℕ) (evt : RpcStreamEvent) (p : Result FrameDecodeError (Unit {0}) × (Routing H W × W))
      → is_last_event evt ≡ true
      → Cleans id (after_prebuffer invoke id evt p)
  unfolding after_prebuffer fall_through
  after_prebuffer-Cleans id evt (ok u, (t, w)) h e = forget-IsForgotten id evt t h
  after_prebuffer-Cleans id evt (err x, (t, w)) h e = cc

  -- Behind the last event of a request, an `End` or an `Error`, the session keeps no handler, no
  -- flag and no buffer of it, prebuffered or not, unless the callback has failed.
  pub handle_for-IsForgotten :
      (id : ℕ) (evt : RpcStreamEvent) (t : Routing H W) (w : W)
      → is_last_event evt ≡ true
      → (handle_for invoke (some id) evt t w).0 ≡ ok tt
      → IsForgotten id (handle_for invoke (some id) evt t w).1.0
  unfolding handle_for
  handle_for-IsForgotten id evt t w h =
      if_cases (Cleans id) (or_default false (get id t.prebuffering_flags))
        (after_prebuffer invoke id evt (prebuffer invoke id evt (open_buffer invoke id t) w))
        (ok tt, dispatch invoke id evt (get id t.response_handlers) t w)
        (λ b. after_prebuffer-Cleans id evt (prebuffer invoke id evt (open_buffer invoke id t) w) h)
        (λ b e. dispatch-IsForgotten id evt (get id t.response_handlers) t w h)
