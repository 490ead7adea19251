-- ===== src/Rpc/Respondable/Isolation.antt =====
-- The events of one request leave the other requests alone.
use rust_muxio.Prelude.{
  ℕ, ◌≡◌, ◌≢◌, refl, ap, ◌∙◌, false, Option, none, some, Result, ok, err, if_cases, ==_ne,
}
use rust_muxio.Prelude.Map.{Map, get, insert, remove, get-insert, get-remove}
use rust_muxio.Frame.Types.{FrameDecodeError}
use rust_muxio.Rpc.Types.{RpcHeader, RpcStreamEvent, header, payload_chunk, end, error}
use rust_muxio.Rpc.Respondable.{
  Routing, event_id, is_last_event, forget, dispatch, fall_through, after_prebuffer, prebuffer,
  finish_prebuffered, open_buffer, handle_for, or_default, route_with, consult, route_header,
  on_rpc_stream_event,
}

-- What is kept of request `j` is the same.
pub record IsSame {H W : Type 0} (j : ℕ) (t t' : Routing H W) : Type 0 where
  pub same_handler : get j t'.response_handlers ≡ get j t.response_handlers
  pub same_flag : get j t'.prebuffering_flags ≡ get j t.prebuffering_flags
  pub same_buffer : get j t'.prebuffered_responses ≡ get j t.prebuffered_responses

get-insert_other :
    {V : Type 0} (k j : ℕ) (v : V) (m : Map V) → k ≢ j → get j (insert k v m) ≡ get j m
get-insert_other k j v m ne = rw (get-insert k j v m, ==_ne k j ne)

get-remove_other : {V : Type 0} (k j : ℕ) (m : Map V) → k ≢ j → get j (remove k m) ≡ get j m
get-remove_other k j m ne = rw (get-remove k j m, ==_ne k j ne)

IsSame-refl : {H W : Type 0} (j : ℕ) (t : Routing H W) → IsSame j t t
IsSame-refl j t = record { same_handler = refl; same_flag = refl; same_buffer = refl }

IsSame-trans :
    {H W : Type 0} (j : ℕ) (t u v : Routing H W) → IsSame j t u → IsSame j u v → IsSame j t v
IsSame-trans j t u v a b = record {
  same_handler = b.same_handler ∙ a.same_handler;
  same_flag = b.same_flag ∙ a.same_flag;
  same_buffer = b.same_buffer ∙ a.same_buffer;
}

module _ {H W : Type 0} (invoke : H → RpcStreamEvent → W → W) (k j : ℕ) (ne : k ≢ j) where
  open_buffer-IsSame : (t : Routing H W) → IsSame j t (open_buffer invoke k t)
  unfolding open_buffer
  open_buffer-IsSame t = record {
    same_handler = refl;
    same_flag = refl;
    same_buffer = get-insert_other k j _ t.prebuffered_responses ne;
  }

  forget-IsSame : (evt : RpcStreamEvent) (t : Routing H W) → IsSame j t (forget invoke k evt t)
  unfolding forget
  forget-IsSame evt t =
      if_cases (IsSame j t) (is_last_event evt) _ _
        (λ e. record {
          same_handler = get-remove_other k j t.response_handlers ne;
          same_flag = get-remove_other k j t.prebuffering_flags ne;
          same_buffer = get-remove_other k j t.prebuffered_responses ne;
        })
        (λ e. IsSame-refl j t)

  finish_prebuffered-IsSame :
      (method : Option ℕ) (h : RpcHeader) (evt : RpcStreamEvent) (o : Option H) (t : Routing H W)
      (w : W)
      → IsSame j t (finish_prebuffered invoke k method h evt o t w).1.0
  unfolding finish_prebuffered
  finish_prebuffered-IsSame method h evt none t w = IsSame-refl j t
  finish_prebuffered-IsSame none h evt (some cb) t w = IsSame-refl j t
  finish_prebuffered-IsSame (some m) h evt (some cb) t w = record {
    same_handler = refl;
    same_flag = get-remove_other k j t.prebuffering_flags ne;
    same_buffer = get-remove_other k j t.prebuffered_responses ne;
  }

  prebuffer-IsSame :
      (evt : RpcStreamEvent) (t : Routing H W) (w : W) → IsSame j t (prebuffer invoke k evt t w).1.0
  unfolding prebuffer
  prebuffer-IsSame (header r m h) t w = IsSame-refl j t
  prebuffer-IsSame (payload_chunk h r m bytes) t w = record {
    same_handler = refl;
    same_flag = refl;
    same_buffer = get-insert_other k j _ t.prebuffered_responses ne;
  }
  prebuffer-IsSame (end h r m) t w =
      finish_prebuffered-IsSame (some m) h (end h r m) (get k t.response_handlers) t w
  prebuffer-IsSame (error h r m e) t w = IsSame-refl j t

  after_prebuffer-IsSame :
      (evt : RpcStreamEvent) (p : Result FrameDecodeError (Unit {0}) × (Routing H W × W))
      → IsSame j p.1.0 (after_prebuffer invoke k evt p).1.0
  unfolding after_prebuffer fall_through
  after_prebuffer-IsSame evt (ok u, (t, w)) = forget-IsSame evt t
  after_prebuffer-IsSame evt (err x, (t, w)) = IsSame-refl j t

  dispatch-IsSame :
      (evt : RpcStreamEvent) (o : Option H) (t : Routing H W) (w : W)
      → IsSame j t (dispatch invoke k evt o t w).0
  unfolding dispatch fall_through
  dispatch-IsSame evt none t w = forget-IsSame evt t
  dispatch-IsSame evt (some cb) t w = forget-IsSame evt t

  handle_for-IsSame :
      (evt : RpcStreamEvent) (t : Routing H W) (w : W)
      → IsSame j t (handle_for invoke (some k) evt t w).1.0
  unfolding handle_for
  handle_for-IsSame evt t w =
      if_cases (λ (r : Result FrameDecodeError (Unit {0}) × (Routing H W × W)). IsSame j t r.1.0)
        (or_default false (get k t.prebuffering_flags)) _ _
        (λ e.
          IsSame-trans j t (prebuffer invoke k evt (open_buffer invoke k t) w).1.0 _
            (IsSame-trans j t (open_buffer invoke k t) _ (open_buffer-IsSame t)
              (prebuffer-IsSame evt (open_buffer invoke k t) w))
            (after_prebuffer-IsSame evt (prebuffer invoke k evt (open_buffer invoke k t) w)))
        (λ e. dispatch-IsSame evt (get k t.response_handlers) t w)

  route_with-IsSame : (t : Routing H W) (o : Option H × W) → IsSame j t (route_with k t o).0
  unfolding route_with
  route_with-IsSame t (none, w) = IsSame-refl j t
  route_with-IsSame t (some handler, w) = record {
    same_handler = get-insert_other k j _ t.response_handlers ne;
    same_flag = refl;
    same_buffer = refl;
  }

  consult-IsSame :
      (method : ℕ) (router : Option (ℕ → ℕ → W → Option H × W)) (t : Routing H W) (w : W)
      → IsSame j t (consult k method router t w).0
  unfolding consult
  consult-IsSame method none t w = IsSame-refl j t
  consult-IsSame method (some router) t w = route_with-IsSame t (router method k w)

some_ne : {k j : ℕ} → some k ≢ some j → k ≢ j
some_ne ne e = ne (ap some e)

module _ {H W : Type 0} (invoke : H → RpcStreamEvent → W → W) (j : ℕ) where
  -- An event that is not of request `j`, whatever it is and whatever its handlers do, leaves the
  -- handler, the prebuffering flag and the buffer of request `j` as they are.
  pub on_rpc_stream_event-IsSame :
      (evt : RpcStreamEvent) (t : Routing H W) (w : W)
      → event_id evt ≢ some j
      → IsSame j t (on_rpc_stream_event invoke evt (t, w)).1.0
  unfolding on_rpc_stream_event route_header
  on_rpc_stream_event-IsSame (header r m h) t w ne =
      let (t', w') = consult r m t.stream_method_router t w in
      IsSame-trans j t t' _ (consult-IsSame invoke r j (some_ne ne) m t.stream_method_router t w)
        (handle_for-IsSame invoke r j (some_ne ne) (header r m h) t' w')
  on_rpc_stream_event-IsSame (payload_chunk h r m bytes) t w ne =
      handle_for-IsSame invoke r j (some_ne ne) (payload_chunk h r m bytes) t w
  on_rpc_stream_event-IsSame (end h r m) t w ne =
      handle_for-IsSame invoke r j (some_ne ne) (end h r m) t w
  on_rpc_stream_event-IsSame (error h (some r) m e) t w ne =
      handle_for-IsSame invoke r j (some_ne ne) (error h (some r) m e) t w
  on_rpc_stream_event-IsSame (error h none m e) t w ne =
      unfold handle_for fall_through in (IsSame-refl j t)
