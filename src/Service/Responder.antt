-- ===== src/Service/Responder.antt =====
-- extensions/muxio-rpc-service-endpoint/src/endpoint.rs: `StreamResponder`. Its clones share their
-- writer and buffer: they are one responder. The writer is a dispatcher's `response_writer`.
use rust_muxio.Prelude.{
  ℕ, ◌≡◌, refl, sym, ap, ◌∙◌, Bool, Option, none, some, List, [], ◌∷◌, ◌++◌, append-nil,
  append_assoc,
}
use rust_muxio.Rpc.StreamEncoder.{RpcStreamEncoder}
use rust_muxio.Rpc.Dispatcher.{response_writer, and_then_on}

pub record StreamResponder : Type 0 where
  pub request_id : ℕ
  pub writer : Option RpcStreamEncoder
  pub buffer : List (List ℕ × Bool)

unfoldable pub new : ℕ → StreamResponder
new request_id = record { request_id = request_id; writer = none; buffer = [] }

-- A call that may not return, and then the responder with that writer.
abbrev written : StreamResponder → Option RpcStreamEncoder → Option StreamResponder
written r none = none
written r (some e) = some (record r { writer = some e })

-- `none` where the writer does not return.
unfoldable pub respond_with :
    Option RpcStreamEncoder → List ℕ → Bool → StreamResponder → Option StreamResponder
respond_with none chunk is_finalized r =
    some (record r { buffer = r.buffer ++ (chunk, is_finalized) ∷ [] })
respond_with (some e) chunk is_finalized r = written r (response_writer chunk is_finalized e)

unfoldable pub respond : List ℕ → Bool → StreamResponder → Option StreamResponder
respond chunk is_finalized r = respond_with r.writer chunk is_finalized r

-- `for (chunk, is_finalized) in buffered { w(&chunk, is_finalized); }`
unfoldable pub write_out : List (List ℕ × Bool) → RpcStreamEncoder → Option RpcStreamEncoder
write_out [] e = some e
write_out ((chunk, is_finalized) ∷ rest) e =
    and_then_on (response_writer chunk is_finalized e) λ e'. write_out rest e'

unfoldable pub set_writer : RpcStreamEncoder → StreamResponder → Option StreamResponder
set_writer e r = written (record r { buffer = [] }) (write_out r.buffer e)

-- A step on the responder that a call has left, if it has returned.
abbrev pub then_on :
    Option StreamResponder → (StreamResponder → Option StreamResponder) → Option StreamResponder
then_on none f = none
then_on (some r) f = f r

-- The responses of a handler, one after the other.
unfoldable pub respond_all : List (List ℕ × Bool) → StreamResponder → Option StreamResponder
respond_all [] r = some r
respond_all ((chunk, is_finalized) ∷ rest) r =
    then_on (respond chunk is_finalized r) λ r'. respond_all rest r'

write_out_after :
    (o : Option RpcStreamEncoder) (xs ys : List (List ℕ × Bool))
    → ((e : RpcStreamEncoder)
        → write_out (xs ++ ys) e ≡ and_then_on (write_out xs e) (write_out ys))
    → and_then_on o (λ e. write_out (xs ++ ys) e)
      ≡ and_then_on (and_then_on o (λ e. write_out xs e)) (write_out ys)
unfolding and_then_on
write_out_after none xs ys h = refl
write_out_after (some e) xs ys h = h e

write_out-append :
    (xs ys : List (List ℕ × Bool)) (e : RpcStreamEncoder)
    → write_out (xs ++ ys) e ≡ and_then_on (write_out xs e) (write_out ys)
unfolding write_out and_then_on
write_out-append [] ys e = refl
write_out-append ((chunk, is_finalized) ∷ xs) ys e =
    write_out_after (response_writer chunk is_finalized e) xs ys (write_out-append xs ys)

respond_lem :
    (chunk : List ℕ) (is_finalized : Bool) (r : StreamResponder)
    → r.writer ≡ none
    → respond chunk is_finalized r
      ≡ some (record r { buffer = r.buffer ++ (chunk, is_finalized) ∷ [] })
unfolding respond respond_with
respond_lem chunk is_finalized r h = ap (λ w. respond_with w chunk is_finalized r) h

-- Without a writer what is responded joins the buffer.
respond_all-buffered :
    (cs : List (List ℕ × Bool)) (r : StreamResponder)
    → r.writer ≡ none
    → respond_all cs r ≡ some (record r { buffer = r.buffer ++ cs })
unfolding respond_all
respond_all-buffered [] r h = rw append-nil
respond_all-buffered ((chunk, is_finalized) ∷ cs) r h =
    ap (λ o. then_on o (respond_all cs)) (respond_lem chunk is_finalized r h)
    ∙ respond_all-buffered cs (record r { buffer = r.buffer ++ (chunk, is_finalized) ∷ [] }) h
    ∙ rw append_assoc

-- With a writer it is written out.
respond_all-written :
    (cs : List (List ℕ × Bool)) (r : StreamResponder) (e : RpcStreamEncoder)
    → respond_all cs (record r { writer = some e }) ≡ written r (write_out cs e)
unfolding respond_all respond respond_with write_out and_then_on
respond_all-written [] r e = refl
respond_all-written ((chunk, is_finalized) ∷ cs) r e =
    go (response_writer chunk is_finalized e) (respond_all-written cs r)
  where
    go :
        (o : Option RpcStreamEncoder)
        → ((e' : RpcStreamEncoder)
            → respond_all cs (record r { writer = some e' }) ≡ written r (write_out cs e'))
        → then_on (written (record r { writer = some e }) o) (respond_all cs)
          ≡ written r (and_then_on o (λ e'. write_out cs e'))
    go none h = refl
    go (some e') h = h e'

-- It makes no difference whether a streaming handler responds before its writer is set or after:
-- the same is written in the same order, and the responder is left the same.
pub respond_all-set_writer :
    (cs : List (List ℕ × Bool)) (e : RpcStreamEncoder) (r : StreamResponder)
    → r.writer ≡ none
    → then_on (respond_all cs r) (set_writer e) ≡ then_on (set_writer e r) (respond_all cs)
unfolding set_writer and_then_on
respond_all-set_writer cs e r h =
    rw (respond_all-buffered cs r h, write_out-append r.buffer cs e) (go (write_out r.buffer e))
  where
    go :
        (o : Option RpcStreamEncoder)
        → written (record r { buffer = [] }) (and_then_on o (write_out cs))
          ≡ then_on (written (record r { buffer = [] }) o) (respond_all cs)
    go none = refl
    go (some e') = sym (respond_all-written cs (record r { buffer = [] }) e')
