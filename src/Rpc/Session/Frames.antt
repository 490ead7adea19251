-- ===== src/Rpc/Session/Frames.antt =====
-- One frame of a session: what it does to its own stream, and to the others.
use rust_muxio.Prelude.{
  ℕ, ◌≡◌, refl, sym, ap, ◌∙◌, Bool, true, false, ◌||◌, none, some, List, [], ◌∷◌, Result, ok, err,
  if◌then◌else◌, ◌==◌, ==_refl,
}
use rust_muxio.Prelude.Map.{Map, get, insert, remove, get-insert, get-remove}
use rust_muxio.Frame.Types.{FrameDecodeError, DecodedFrame, is_end, is_cancel}
use rust_muxio.Rpc.Types.{RpcStreamEvent, is_end_event}
use rust_muxio.Rpc.StreamDecoder.{RpcStreamDecoder, decode_rpc_frame}
use rust_muxio.Rpc.Session.{Reading, deliver, clean_up, fail_stream, read_frame, decoder_or_new}

pub get-insert_same : {V : Type 0} (k : ℕ) (v : V) (m : Map V) → get k (insert k v m) ≡ some v
get-insert_same k v m = rw (get-insert k k v m, ==_refl k)

pub get-remove_same : {V : Type 0} (k : ℕ) (m : Map V) → get k (remove k m) ≡ none
get-remove_same k m = rw (get-remove k k m, ==_refl k)

pub get-insert_other :
    {V : Type 0} (k j : ℕ) (v : V) (m : Map V) → (k == j) ≡ false → get j (insert k v m) ≡ get j m
get-insert_other k j v m ne = rw (get-insert k j v m, ne)

pub get-remove_other :
    {V : Type 0} (k j : ℕ) (m : Map V) → (k == j) ≡ false → get j (remove k m) ≡ get j m
get-remove_other k j m ne = rw (get-remove k j m, ne)

module _ {W : Type 0} (f : RpcStreamEvent → W → W) where
  -- A callback that does not fail.
  abbrev pub calls : RpcStreamEvent → W → Result FrameDecodeError (Unit {0}) × W
  calls e w = (ok tt, f e w)

  remove_if_other :
      (b : Bool) (id k : ℕ) (m : Map RpcStreamDecoder)
      → (id == k) ≡ false
      → get k (if b then remove id m else m) ≡ get k m
  remove_if_other true id k m ne = get-remove_other id k m ne
  remove_if_other false id k m ne = refl

  remove_if_same :
      (b : Bool) (id : ℕ) (m m' : Map RpcStreamDecoder)
      → get id m ≡ get id m'
      → get id (if b then remove id m else m) ≡ get id (if b then remove id m' else m')
  remove_if_same true id m m' e = get-remove_same id m ∙ sym (get-remove_same id m')
  remove_if_same false id m m' e = e

  deliver_other :
      (id k : ℕ) (es : List RpcStreamEvent) (m : Map RpcStreamDecoder) (w : W)
      → (id == k) ≡ false
      → (get k (deliver calls id es m w).1 ≡ get k m) × ((deliver calls id es m w).0 ≡ ok tt)
  unfolding deliver
  deliver_other id k [] m w ne = (refl, refl)
  deliver_other id k (e ∷ es) m w ne =
      let (g, o) = deliver_other id k es (if is_end_event e then remove id m else m) (f e w) ne in
      (g ∙ remove_if_other (is_end_event e) id k m ne, o)

  deliver_same :
      (id : ℕ) (es : List RpcStreamEvent) (m m' : Map RpcStreamDecoder) (w w' : W)
      → get id m ≡ get id m'
      → (get id (deliver calls id es m w).1 ≡ get id (deliver calls id es m' w').1)
        × ((deliver calls id es m w).0 ≡ ok tt)
        × ((deliver calls id es m' w').0 ≡ ok tt)
  unfolding deliver
  deliver_same id [] m m' w w' h = (h, refl, refl)
  deliver_same id (e ∷ es) m m' w w' h =
      deliver_same id es _ _ (f e w) (f e w') (remove_if_same (is_end_event e) id m m' h)

  clean_up_other :
      (frame : DecodedFrame) (k : ℕ) (p : Reading calls)
      → (frame.inner.stream_id == k) ≡ false
      → get k (clean_up calls frame p).1 ≡ get k p.1
  unfolding clean_up
  clean_up_other frame k (ok u, m, w) ne =
      remove_if_other (is_cancel frame.inner.kind || is_end frame.inner.kind) frame.inner.stream_id
        k m ne
  clean_up_other frame k (err e, m, w) ne = refl

  clean_up_same :
      (frame : DecodedFrame) (p p' : Reading calls)
      → p.0 ≡ ok tt
      → p'.0 ≡ ok tt
      → get frame.inner.stream_id p.1 ≡ get frame.inner.stream_id p'.1
      → (get frame.inner.stream_id (clean_up calls frame p).1
          ≡ get frame.inner.stream_id (clean_up calls frame p').1)
        × ((clean_up calls frame p').0 ≡ ok tt)
  unfolding clean_up
  clean_up_same frame (ok u, m, w) (ok u', m', w') o o' h = (
    remove_if_same (is_cancel frame.inner.kind || is_end frame.inner.kind) frame.inner.stream_id m
        m' h,
    refl,
  )
  clean_up_same frame (err e, m, w) p' o o' h = cc
  clean_up_same frame (ok u, m, w) (err e, m', w') o o' h = cc

  -- What `read_frame` does with what the stream's decoder gives.
  abbrev pub on_decoded :
      DecodedFrame
      → Map RpcStreamDecoder
      → W
      → Result FrameDecodeError (List RpcStreamEvent) × RpcStreamDecoder
      → Reading calls
  on_decoded frame m w (ok es, d) =
      clean_up calls frame
        (deliver calls frame.inner.stream_id es (insert frame.inner.stream_id d m) w)
  on_decoded frame m w (err e, d) =
      fail_stream calls frame.inner.stream_id e (insert frame.inner.stream_id d m) w

  pub read_frame_lem :
      (frame : DecodedFrame) (m : Map RpcStreamDecoder) (w : W)
      → read_frame calls frame m w
        ≡ on_decoded frame m w
            (decode_rpc_frame frame (decoder_or_new (get frame.inner.stream_id m)))
  unfolding read_frame
  read_frame_lem frame m w =
      go (decode_rpc_frame frame (decoder_or_new (get frame.inner.stream_id m))) refl
    where
      go :
          (p : Result FrameDecodeError (List RpcStreamEvent) × RpcStreamDecoder)
          → decode_rpc_frame frame (decoder_or_new (get frame.inner.stream_id m)) ≡ p
          → read_frame calls frame m w ≡ on_decoded frame m w p
      go (ok es, d) e = rw (e, read_frame, e) refl
      go (err x, d) e = rw (e, read_frame, e) refl

  pub on_decoded_other :
      (frame : DecodedFrame) (k : ℕ) (m : Map RpcStreamDecoder) (w : W)
      (p : Result FrameDecodeError (List RpcStreamEvent) × RpcStreamDecoder)
      → (frame.inner.stream_id == k) ≡ false
      → get k (on_decoded frame m w p).1 ≡ get k m
  unfolding fail_stream
  on_decoded_other frame k m w (ok es, d) ne =
      let id = frame.inner.stream_id in
      clean_up_other frame k (deliver calls id es (insert id d m) w) ne
      ∙ (deliver_other id k es (insert id d m) w ne).0
      ∙ get-insert_other id k d m ne
  on_decoded_other frame k m w (err x, d) ne =
      let id = frame.inner.stream_id in
      get-remove_other id k (insert id d m) ne ∙ get-insert_other id k d m ne

  on_decoded_same :
      (frame : DecodedFrame) (m m' : Map RpcStreamDecoder) (w w' : W)
      (p : Result FrameDecodeError (List RpcStreamEvent) × RpcStreamDecoder)
      → (on_decoded frame m w p).0 ≡ ok tt
      → (get frame.inner.stream_id (on_decoded frame m w p).1
          ≡ get frame.inner.stream_id (on_decoded frame m' w' p).1)
        × ((on_decoded frame m' w' p).0 ≡ ok tt)
  unfolding fail_stream
  on_decoded_same frame m m' w w' (ok es, d) o =
      let id = frame.inner.stream_id in
      let (same, a, b) =
        deliver_same id es (insert id d m) (insert id d m') w w'
          (get-insert_same id d m ∙ sym (get-insert_same id d m')) in
      clean_up_same frame (deliver calls id es (insert id d m) w)
        (deliver calls id es (insert id d m') w') a b same
  on_decoded_same frame m m' w w' (err x, d) o = cc

  pub read_frame_same :
      (frame : DecodedFrame) (m m' : Map RpcStreamDecoder) (w w' : W)
      → get frame.inner.stream_id m ≡ get frame.inner.stream_id m'
      → (read_frame calls frame m w).0 ≡ ok tt
      → (get frame.inner.stream_id (read_frame calls frame m w).1
          ≡ get frame.inner.stream_id (read_frame calls frame m' w').1)
        × ((read_frame calls frame m' w').0 ≡ ok tt)
  read_frame_same frame m m' w w' h o =
      let id = frame.inner.stream_id in
      let p = decode_rpc_frame frame (decoder_or_new (get id m)) in
      let left = read_frame_lem frame m w in
      let right : read_frame calls frame m' w' ≡ on_decoded frame m' w' p =
        read_frame_lem frame m' w'
        ∙ ap (λ t. on_decoded frame m' w' (decode_rpc_frame frame (decoder_or_new t))) (sym h) in
      let (same, fine) =
        on_decoded_same frame m m' w w' p (ap (λ (r : Reading calls). r.0) (sym left) ∙ o) in
      (
        ap (λ (r : Reading calls). get id r.1) left
            ∙ same
            ∙ ap (λ (r : Reading calls). get id r.1) (sym right),
        ap (λ (r : Reading calls). r.0) right ∙ fine,
      )
