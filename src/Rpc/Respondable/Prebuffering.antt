-- ===== src/Rpc/Respondable/Prebuffering.antt =====
-- A response that is prebuffered, from its header to its end.
use rust_muxio.Prelude.{
  ℕ, ◌≡◌, refl, ap, ◌∙◌, Bool, true, none, some, List, [], ◌∷◌, ◌++◌, map, append-nil, append_assoc,
  Result, ok, err, ==_refl,
}
use rust_muxio.Prelude.Map.{Map, get, insert, remove, get-insert}
use rust_muxio.Frame.Types.{FrameDecodeError}
use rust_muxio.Rpc.Types.{RpcHeader, RpcStreamEvent, header, end}
use rust_muxio.Rpc.StreamDecoder.Events.{join, chunk_of}
use rust_muxio.Rpc.Dispatcher.Sending.{message_events}
use rust_muxio.Rpc.Respondable.{
  Routing, forget, fall_through, after_prebuffer, prebuffer, finish_prebuffered, open_buffer,
  handle_for, or_default, route_header, consult, on_rpc_stream_event, invoke_if,
}

-- A session with no router and no catch-all handler.
abbrev pub quiet : {H W : Type 0} → Map H → Map (List ℕ) → Map Bool → Routing H W
quiet hs m fs = record {
  response_handlers = hs;
  catch_all_response_handler = none;
  prebuffered_responses = m;
  prebuffering_flags = fs;
  stream_method_router = none;
}

get-insert_same : {V : Type 0} (id : ℕ) (v : V) (m : Map V) → get id (insert id v m) ≡ some v
get-insert_same id v m = rw (get-insert id id v m, ==_refl id)

module _ {H W : Type 0} (invoke : H → RpcStreamEvent → W → W) where
  -- The events, one after the other, up to an error.
  unfoldable pub handle_all :
      List RpcStreamEvent → Routing H W × W → Result FrameDecodeError (Unit {0}) × (Routing H W × W)
  handle_all [] s = (ok tt, s)
  handle_all (e ∷ es) s =
      let (r, s') = on_rpc_stream_event invoke e s in
      elim r [ ok u ↦ handle_all es s' | err x ↦ (err x, s') ]

  handle_all_step :
      (e : RpcStreamEvent) (es : List RpcStreamEvent) (s s' : Routing H W × W)
      → on_rpc_stream_event invoke e s ≡ (ok tt, s')
      → handle_all (e ∷ es) s ≡ handle_all es s'
  unfolding handle_all
  handle_all_step e es s s' h = rw (h, handle_all, h)

  module _ (h : RpcHeader) (cb : H) (hs : Map H) (fs : Map Bool)
      (handler : get h.rpc_request_id hs ≡ some cb)
      (flag : get h.rpc_request_id fs ≡ some true) where
    abbrev id : ℕ
    id = h.rpc_request_id

    on_header :
        (m : Map (List ℕ)) (w : W)
        → on_rpc_stream_event invoke (header id h.rpc_method_id h) (quiet hs m fs, w) ≡ (
          ok tt,
          (
            quiet hs (insert id (or_default [] (get id m)) m) fs,
            invoke cb (header id h.rpc_method_id h) w,
          ),
        )
    unfolding on_rpc_stream_event route_header consult handle_for prebuffer after_prebuffer forget
        fall_through open_buffer invoke_if
    on_header m w = rw (flag, handler)

    on_chunk :
        (c : List ℕ) (m : Map (List ℕ)) (buf : List ℕ) (w : W)
        → get id m ≡ some buf
        → (m' : Map (List ℕ)) × (on_rpc_stream_event invoke (chunk_of h c) (quiet hs m fs, w)
            ≡ (ok tt, (quiet hs m' fs, w)))
          × (get id m' ≡ some (buf ++ c))
    unfolding on_rpc_stream_event route_header handle_for prebuffer after_prebuffer forget
        fall_through open_buffer invoke_if
    on_chunk c m buf w e = (
      insert id (buf ++ c) (insert id buf m),
      rw (flag, e, get-insert_same id buf m),
      get-insert_same id (buf ++ c) (insert id buf m),
    )

    on_end :
        (m : Map (List ℕ)) (buf : List ℕ) (w : W)
        → get id m ≡ some buf
        → (t : Routing H W) × (on_rpc_stream_event invoke
              (end h id h.rpc_method_id)
              (quiet hs m fs, w)
            ≡ (ok tt, (t, invoke cb (end h id h.rpc_method_id) (invoke cb (chunk_of h buf) w))))
    unfolding on_rpc_stream_event route_header handle_for prebuffer finish_prebuffered
        after_prebuffer forget fall_through open_buffer invoke_if
    on_end m buf w e = (
      quiet (remove id hs) (remove id (remove id (insert id buf m))) (remove id (remove id fs)),
      rw (flag, e, handler, get-insert_same id buf m),
    )

    on_chunks :
        (cs : List (List ℕ)) (es : List RpcStreamEvent) (m : Map (List ℕ)) (buf : List ℕ) (w : W)
        → get id m ≡ some buf
        → (m' : Map (List ℕ)) × (handle_all (map (chunk_of h) cs ++ es) (quiet hs m fs, w)
            ≡ handle_all es (quiet hs m' fs, w))
          × (get id m' ≡ some (buf ++ join cs))
    on_chunks [] es m buf w e = (m, refl, rw append-nil e)
    on_chunks (c ∷ cs) es m buf w e =
        let (m1, s, e1) = on_chunk c m buf w e in
        let (m2, s2, e2) = on_chunks cs es m1 (buf ++ c) w e1 in
        (
          m2,
          handle_all_step (chunk_of h c) (map (chunk_of h) cs ++ es) (quiet hs m fs, w)
                (quiet hs m1 fs, w) s
              ∙ s2,
          e2 ∙ ap some (append_assoc buf c (join cs)),
        )

    -- A response whose handler asked for prebuffering, in a session with no router and no catch-all
    -- handler: its handler is called three times, with the header, with one chunk that is all chunks
    -- together, and with the end, however the response comes in chunks.
    pub handle_all-prebuffered :
        (cs : List (List ℕ)) (m : Map (List ℕ)) (w : W)
        → get id m ≡ none
        → (t : Routing H W) × (handle_all (message_events h cs) (quiet hs m fs, w) ≡ (
          ok tt,
          (
            t,
            invoke cb
                (end h id h.rpc_method_id)
                (invoke cb (chunk_of h (join cs)) (invoke cb (header id h.rpc_method_id h) w)),
          ),
        ))
    handle_all-prebuffered cs m w e =
        let w1 = invoke cb (header id h.rpc_method_id h) w in
        let m1 = insert id (or_default [] (get id m)) m in
        let (m2, s2, e2) =
          on_chunks cs (end h id h.rpc_method_id ∷ []) m1 [] w1 (
            get-insert_same id (or_default [] (get id m)) m ∙ ap (λ o. some (or_default [] o)) e) in
        let (t, s3) = on_end m2 (join cs) w1 e2 in
        (
          t,
          handle_all_step (header id h.rpc_method_id h)
                (map (chunk_of h) cs ++ end h id h.rpc_method_id ∷ []) (quiet hs m fs, w)
                (quiet hs m1 fs, w1) (on_header m w)
              ∙ s2
              ∙ handle_all_step (end h id h.rpc_method_id) [] (quiet hs m2 fs, w1) _ s3
              ∙ unfold handle_all in refl,
        )
