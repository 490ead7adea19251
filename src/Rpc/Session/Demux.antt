-- ===== src/Rpc/Session/Demux.antt =====
-- Streams that share a transport: what a session makes of one stream's frames does not depend on the
-- frames of the others that come between them.
use rust_muxio.Prelude.{
  ℕ, ◌≡◌, refl, sym, ap, ◌∙◌, subst, false, List, [], ◌∷◌, Result, ok, err, if◌then◌else◌, if_cases,
  ◌==◌, ==→eq,
}
use rust_muxio.Prelude.Map.{Map, get}
use rust_muxio.Frame.Types.{FrameDecodeError, DecodedFrame}
use rust_muxio.Frame.Decoder.{Item}
use rust_muxio.Rpc.Types.{RpcStreamEvent}
use rust_muxio.Rpc.StreamDecoder.{RpcStreamDecoder, decode_rpc_frame}
use rust_muxio.Rpc.Session.{Reading, read_frame, read_items, decoder_or_new, error_event}
use rust_muxio.Rpc.Session.Frames.{calls, on_decoded_other, read_frame_lem, read_frame_same}

-- The frames of stream `k`.
abbrev pub only : ℕ → List Item → List Item
only k [] = []
only k (ok frame ∷ rest) =
    let more = only k rest in if frame.inner.stream_id == k then ok frame ∷ more else more
only k (err e ∷ rest) = only k rest

module _ {W : Type 0} (f : RpcStreamEvent → W → W) where
  -- A run of frames goes on behind a frame that was read.
  read_items_ok :
      (frame : DecodedFrame) (rest : List Item) (m : Map RpcStreamDecoder) (w : W)
      → (read_frame (calls f) frame m w).0 ≡ ok tt
      → read_items (calls f) (ok frame ∷ rest) m w
        ≡ read_items
            (calls f)
            rest
            (read_frame (calls f) frame m w).1
            (read_frame (calls f) frame m w).2
  unfolding read_items
  read_items_ok frame rest m w o = rw (o, read_items) refl

  read_items_first :
      (frame : DecodedFrame) (rest : List Item) (m : Map RpcStreamDecoder) (w : W)
      → (read_items (calls f) (ok frame ∷ rest) m w).0 ≡ ok tt
      → (read_frame (calls f) frame m w).0 ≡ ok tt
  unfolding read_items
  read_items_first frame rest m w o = go (read_frame (calls f) frame m w).0 refl
    where
      stops :
          (x : FrameDecodeError)
          → (read_frame (calls f) frame m w).0 ≡ err x
          → ◌≡◌ {A = Result FrameDecodeError (Unit {0})} (err x) (ok tt)
      stops x e = rw (e, read_items) at o

      go :
          (r : Result FrameDecodeError (Unit {0}))
          → (read_frame (calls f) frame m w).0 ≡ r
          → (read_frame (calls f) frame m w).0 ≡ ok tt
      go (ok u) e = e
      go (err x) e = e ∙ stops x e

  -- The claim of `read_items-only` for given items.
  abbrev Apart : ℕ → List Item → List Item → Type 0
  Apart k items mine =
      (m m' : Map RpcStreamDecoder) (w w' : W)
      → get k m ≡ get k m'
      → (read_items (calls f) items m w).0 ≡ ok tt
      → (get k (read_items (calls f) items m w).1 ≡ get k (read_items (calls f) mine m' w').1)
        × ((read_items (calls f) mine m' w').0 ≡ ok tt)

  of_stream :
      (k : ℕ) (frame : DecodedFrame) (rest mine : List Item)
      → frame.inner.stream_id ≡ k
      → Apart k rest mine
      → Apart k (ok frame ∷ rest) (ok frame ∷ mine)
  of_stream k frame rest mine id_is_k apart m m' w w' h o =
      let first = read_items_first frame rest m w o in
      let (same, fine) =
        read_frame_same f frame m m' w w' (subst (λ i. get i m ≡ get i m') (sym id_is_k) h) first in
      let left = read_items_ok frame rest m w first in
      let right = read_items_ok frame mine m' w' fine in
      let (g, s) =
        apart _ _ (read_frame (calls f) frame m w).2 (read_frame (calls f) frame m' w').2
          (subst
            (λ i.
              get i (read_frame (calls f) frame m w).1 ≡ get i (read_frame (calls f) frame m' w').1)
            id_is_k same)
          (ap (λ (r : Reading (calls f)). r.0) (sym left) ∙ o) in
      (
        ap (λ (r : Reading (calls f)). get k r.1) left
            ∙ g
            ∙ ap (λ (r : Reading (calls f)). get k r.1) (sym right),
        ap (λ (r : Reading (calls f)). r.0) right ∙ s,
      )

  of_another :
      (k : ℕ) (frame : DecodedFrame) (rest mine : List Item)
      → (frame.inner.stream_id == k) ≡ false
      → Apart k rest mine
      → Apart k (ok frame ∷ rest) mine
  of_another k frame rest mine ne apart m m' w w' h o =
      let first = read_items_first frame rest m w o in
      let left = read_items_ok frame rest m w first in
      let p = decode_rpc_frame frame (decoder_or_new (get frame.inner.stream_id m)) in
      let (g, s) =
        apart (read_frame (calls f) frame m w).1 m' (read_frame (calls f) frame m w).2 w'
          (ap (λ (r : Reading (calls f)). get k r.1) (read_frame_lem f frame m w)
            ∙ on_decoded_other f frame k m w p ne
            ∙ h)
          (ap (λ (r : Reading (calls f)). r.0) (sym left) ∙ o) in
      (ap (λ (r : Reading (calls f)). get k r.1) left ∙ g, s)

  -- Where a whole read succeeds, with a callback that does not fail, the decoder that is left of
  -- stream `k` is the one that the frames of `k` alone leave in a session whose decoder of `k` is the
  -- same, and these are read without an error: the frames of other streams and the errors of the
  -- frame decoder that come between them make no difference.
  pub read_items-only :
      (k : ℕ) (items : List Item) (m m' : Map RpcStreamDecoder) (w w' : W)
      → get k m ≡ get k m'
      → (read_items (calls f) items m w).0 ≡ ok tt
      → (get k (read_items (calls f) items m w).1
          ≡ get k (read_items (calls f) (only k items) m' w').1)
        × ((read_items (calls f) (only k items) m' w').0 ≡ ok tt)
  unfolding read_items
  read_items-only k [] m m' w w' h o = (h, refl)
  read_items-only k (err e ∷ rest) m m' w w' h o =
      read_items-only k rest m m' (f (error_event e) w) w' h o
  read_items-only k (ok frame ∷ rest) m m' w w' h o =
      if_cases (Apart k (ok frame ∷ rest)) (frame.inner.stream_id == k) (ok frame ∷ only k rest)
        (only k rest)
        (λ e.
          of_stream k frame rest (only k rest) (==→eq frame.inner.stream_id k e)
            (read_items-only k rest))
        (λ e. of_another k frame rest (only k rest) e (read_items-only k rest)) m m' w w' h o
