-- ===== src/Service/Prebuffered/Methods.antt =====
-- examples/example-muxio-rpc-service-definition/src/prebuffered/add.rs and mult.rs: the methods `Add`
-- and `Mult` on numbers of a type `F`. The bitcode crate and the hash of the method's name are
-- parameters.
use rust_muxio.Prelude.{ℕ, ◌≡◌, sym, ap, ◌∙◌, List, [], Result, ok, err}
use rust_muxio.Service.Prebuffered.{RpcMethodPrebuffered}
use rust_muxio.Service.Prebuffered.Returns.{IsCodec}

-- bitcode's `encode` and `decode` for a type `T`.
pub record Bitcode (T E : Type 0) : Type 0 where
  pub encode : T → List ℕ
  pub decode : List ℕ → Result E T

pub record AddRequestParams (F : Type 0) : Type 0 where
  pub numbers : List F

pub record AddResponseParams (F : Type 0) : Type 0 where
  pub sum : F

pub record MultRequestParams (F : Type 0) : Type 0 where
  pub numbers : List F

pub record MultResponseParams (F : Type 0) : Type 0 where
  pub product : F

-- A result's value is taken out of its struct; errors are passed on.
unfoldable pub take_out : {A B E : Type 0} → (A → B) → Result E A → Result E B
take_out field (ok params) = ok (field params)
take_out field (err e) = err e

unfoldable pub add :
    {F E : Type 0}
    → ℕ
    → Bitcode (AddRequestParams F) E
    → Bitcode (AddResponseParams F) E
    → RpcMethodPrebuffered (List F) F E
unfolding take_out
add method_id requests responses = record {
  method_id = method_id;
  encode_request = λ numbers. ok (requests.encode (record { numbers = numbers }));
  decode_request = λ request_bytes. take_out (λ p. p.numbers) (requests.decode request_bytes);
  encode_response = λ sum. ok (responses.encode (record { sum = sum }));
  decode_response = λ response_bytes. take_out (λ p. p.sum) (responses.decode response_bytes);
}

unfoldable pub mult :
    {F E : Type 0}
    → ℕ
    → Bitcode (MultRequestParams F) E
    → Bitcode (MultResponseParams F) E
    → RpcMethodPrebuffered (List F) F E
unfolding take_out
mult method_id requests responses = record {
  method_id = method_id;
  encode_request = λ numbers. ok (requests.encode (record { numbers = numbers }));
  decode_request = λ request_bytes. take_out (λ p. p.numbers) (requests.decode request_bytes);
  encode_response = λ product. ok (responses.encode (record { product = product }));
  decode_response = λ response_bytes. take_out (λ p. p.product) (responses.decode response_bytes);
}

-- bitcode gives back what it has encoded, so the methods decode what they have encoded.
abbrev pub IsRoundTrip : {T E : Type 0} → Bitcode T E → Type 0
IsRoundTrip {T} b = (t : T) → b.decode (b.encode t) ≡ ok t

abbrev ok_is : {A E : Type 0} → A → Result E A → A
ok_is a (ok x) = x
ok_is a (err e) = a

encoded :
    {T A E : Type 0} (b : Bitcode T E) (field : T → A) (t : T) (args : List ℕ)
    → IsRoundTrip b
    → ◌≡◌ {A = Result E (List ℕ)} (ok (b.encode t)) (ok args)
    → take_out field (b.decode args) ≡ ok (field t)
unfolding take_out
encoded b field t args round e =
    ap (λ bytes. take_out field (b.decode bytes)) (sym (ap (ok_is []) e))
    ∙ ap (take_out field) (round t)

pub add-IsCodec :
    {F E : Type 0} (method_id : ℕ) (requests : Bitcode (AddRequestParams F) E)
    (responses : Bitcode (AddResponseParams F) E)
    → IsRoundTrip requests
    → IsRoundTrip responses
    → IsCodec (add method_id requests responses)
unfolding add take_out
add-IsCodec method_id requests responses round round' = record {
  request_round =
      λ numbers args. encoded requests (λ p. p.numbers) (record { numbers = numbers }) args round;
  response_round = λ sum b. encoded responses (λ p. p.sum) (record { sum = sum }) b round';
}

pub mult-IsCodec :
    {F E : Type 0} (method_id : ℕ) (requests : Bitcode (MultRequestParams F) E)
    (responses : Bitcode (MultResponseParams F) E)
    → IsRoundTrip requests
    → IsRoundTrip responses
    → IsCodec (mult method_id requests responses)
unfolding mult take_out
mult-IsCodec method_id requests responses round round' = record {
  request_round =
      λ numbers args. encoded requests (λ p. p.numbers) (record { numbers = numbers }) args round;
  response_round =
      λ product b. encoded responses (λ p. p.product) (record { product = product }) b round';
}
