-- ===== src/Service/Endpoint/Registration.antt =====
-- A method of an endpoint has one handler at most.
use rust_muxio.Prelude.{
  ℕ, ◌≡◌, refl, ◌⊎◌, inl, inr, Bool, true, false, ◌||◌, Option, none, some, ok, err, arith, ==_refl,
  if_cases, Result,
}
use rust_muxio.Prelude.Map.{Map, get, insert, get-insert}
use rust_muxio.Service.Endpoint.{
  RpcServiceEndpoint, register_prebuffered, register_stream_handler, contains_key, is_some,
}
use rust_muxio.Service.Error.{RpcServiceEndpointError}

-- No method has both a prebuffered and a streaming handler.
abbrev pub IsSeparate : {P S : Type 0} → RpcServiceEndpoint P S → Type 0
IsSeparate s = (id : ℕ) → (get id s.prebuffered_handlers ≡ none) ⊎ (get id s.stream_handlers ≡ none)

separate_insert :
    {A B : Type 0} (id : ℕ) (a : A) (m : Map A) (n : Map B)
    → get id n ≡ none
    → ((k : ℕ) → (get k m ≡ none) ⊎ (get k n ≡ none))
    → (k : ℕ) → (get k (insert id a m) ≡ none) ⊎ (get k n ≡ none)
separate_insert id a m n free h k = ground (arith, get-insert id k a m, h k, free)

swap : {A B : Type 0} → A ⊎ B → B ⊎ A
swap (inl a) = inr a
swap (inr b) = inl b

-- The method has a handler, of either kind.
abbrev pub has_handler : {P S : Type 0} → ℕ → RpcServiceEndpoint P S → Bool
has_handler id s = contains_key id s.stream_handlers || contains_key id s.prebuffered_handlers

-- After a registration for `id` with result `r` on `s`: the kinds of handlers are apart; where the
-- method had no handler the result is a success, and the handler is found where `find` looks; where
-- it had one the result is an error, and nothing has changed.
abbrev pub IsRegistered :
    {P S V : Type 0}
    → ℕ
    → RpcServiceEndpoint P S
    → (RpcServiceEndpoint P S → Option V)
    → V
    → Result RpcServiceEndpointError (Unit {0}) × RpcServiceEndpoint P S
    → Type 0
IsRegistered id s find v r =
    IsSeparate r.1
    × ((has_handler id s ≡ false) × (r.0 ≡ ok tt) × (find r.1 ≡ some v)
        ⊎ (has_handler id s ≡ true) × ((e : RpcServiceEndpointError) × (r.0 ≡ err e)) × (r.1 ≡ s))

is_some→none : {V : Type 0} (o : Option V) → is_some o ≡ false → o ≡ none
is_some→none none h = refl
is_some→none (some v) h = cc

free : {V : Type 0} (id : ℕ) (m : Map V) → contains_key id m ≡ false → get id m ≡ none
free id m h = is_some→none (get id m) h

get-insert_same : {V : Type 0} (id : ℕ) (v : V) (m : Map V) → get id (insert id v m) ≡ some v
get-insert_same id v m = rw (get-insert id id v m, ==_refl id)

-- Registering a prebuffered handler keeps it that no method has handlers of both kinds. It succeeds
-- exactly where the method had no handler of either kind, and then the handler is found under the
-- method; where the method had one the result is an error and nothing changes.
pub register_prebuffered-IsRegistered :
    {P S : Type 0} (s : RpcServiceEndpoint P S) (id : ℕ) (p : P)
    → IsSeparate s
    → IsRegistered id s (λ t. get id t.prebuffered_handlers) p (register_prebuffered id p s)
unfolding register_prebuffered
register_prebuffered-IsRegistered s id p sep =
    if_cases (IsRegistered id s (λ t. get id t.prebuffered_handlers) p)
      (contains_key id s.stream_handlers) _ _ (λ e. (sep, inr (ground arith, (_, refl), refl)))
      (λ e.
        if_cases (IsRegistered id s (λ t. get id t.prebuffered_handlers) p)
          (contains_key id s.prebuffered_handlers) _ _
          (λ e'. (sep, inr (ground arith, (_, refl), refl)))
          (λ e'. (
            separate_insert id p s.prebuffered_handlers s.stream_handlers
                (free id s.stream_handlers e) sep,
            inl (ground arith, refl, get-insert_same id p s.prebuffered_handlers),
          )))

-- Registering a streaming handler keeps the two kinds of handlers apart; the handler is found
-- under its method where the registration succeeds, and where it fails nothing changes.
pub register_stream_handler-IsRegistered :
    {P S : Type 0} (s : RpcServiceEndpoint P S) (id : ℕ) (h : S)
    → IsSeparate s
    → IsRegistered id s (λ t. get id t.stream_handlers) h (register_stream_handler id h s)
unfolding register_stream_handler
register_stream_handler-IsRegistered s id h sep =
    if_cases (IsRegistered id s (λ t. get id t.stream_handlers) h)
      (contains_key id s.prebuffered_handlers) _ _ (λ e. (sep, inr (ground arith, (_, refl), refl)))
      (λ e.
        if_cases (IsRegistered id s (λ t. get id t.stream_handlers) h)
          (contains_key id s.stream_handlers) _ _ (λ e'. (sep, inr (ground arith, (_, refl), refl)))
          (λ e'. (
            (λ k. swap (
                separate_insert id h s.stream_handlers s.prebuffered_handlers
                  (free id s.prebuffered_handlers e) (λ j. swap (sep j)) k)),
            inl (ground arith, refl, get-insert_same id h s.stream_handlers),
          )))
