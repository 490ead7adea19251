-- ===== src/Transport/StaticClient/Life.antt =====
-- The static client over its whole life: it is one client, whatever promises are under way.
use Prim.Native.String.{String}
use rust_muxio.Prelude.{
  ℕ, ◌≡◌, refl, sym, ap, ◌∙◌, subst, if_cases, ==→eq, Bool, true, false, Option, none, some, [],
  ◌∷◌, Result, ok, err, ◌==◌, Bool-cases, inl, inr,
}
use rust_muxio.Prelude.Map.{Map, get, insert, remove, get-insert}
use rust_muxio.Rpc.Session.Frames.{get-insert_same, get-insert_other}
use rust_muxio.Transport.Wasm.{RpcWasmClient}
use rust_muxio.Transport.StaticClient.{
  Page, Promise, called, running, settled, not_initialized, no_registered_client, rpc_error, Export,
  with_static_client_async, static_muxio_read_bytes_uint8, static_muxio_handle_connect,
  static_muxio_handle_disconnect, missing, settled_with,
}
use rust_muxio.Transport.StaticClient.Promises.{Event, inits, set_promise, on_client}

-- Whether a promise failed because there was no client.
abbrev pub is_rejected : {A : Type 0} → Option (Promise A) → Bool
is_rejected none = false
is_rejected (some (called x)) = false
is_rejected (some (running place x)) = false
is_rejected (some (settled (ok r))) = false
is_rejected (some (settled (err not_initialized))) = true
is_rejected (some (settled (err no_registered_client))) = true
is_rejected (some (settled (err (rpc_error e)))) = false

-- A promise that has a client has that of place 0.
abbrev pub IsOnClient : {A : Type 0} → Option (Promise A) → Type 0
IsOnClient (some (running place x)) = place ≡ 0
IsOnClient _ = Unit

-- A promise that has begun has found no client.
abbrev pub HasNoClient : {A : Type 0} → Option (Promise A) → Type 0
HasNoClient (some (running place x)) = ⊥
HasNoClient (some (settled r)) = is_rejected (some (settled r)) ≡ true
HasNoClient _ = Unit

abbrev pub IsBefore : {R S V N A : Type 0} → Event R S V N A → Type 0
IsBefore (inits dispatcher) = ⊥
IsBefore _ = Unit

pub get_put :
    {A : Type 0} (Q : Option (Promise A) → Type 0) (n : ℕ) (p : Promise A) (m : Map (Promise A))
    → Q (some p)
    → ((k : ℕ) → Q (get k m))
    → (k : ℕ) → Q (get k (insert n p m))
get_put Q n p m own others k =
    subst Q (sym (get-insert n k p m)) (if_cases Q (n == k) _ _ (λ e. own) (λ e. others k))

pub missing-is_rejected :
    (A : Type 0) (x : Export) → is_rejected {A = A} (some (settled (err (missing x)))) ≡ true
unfolding missing
missing-is_rejected A with_static_client_async = refl
missing-is_rejected A (static_muxio_read_bytes_uint8 bytes) = refl
missing-is_rejected A static_muxio_handle_connect = refl
missing-is_rejected A static_muxio_handle_disconnect = refl

pub settled_with-is_rejected :
    {A : Type 0} (r : Result String A) → is_rejected (some (settled_with r)) ≡ false
unfolding settled_with
settled_with-is_rejected (ok value) = refl
settled_with-is_rejected (err e) = refl

pub settled_with-IsOnClient :
    {A : Type 0} (r : Result String A) → IsOnClient (some (settled_with r))
unfolding settled_with
settled_with-IsOnClient (ok value) = tt
settled_with-IsOnClient (err e) = tt

-- There is no client, and no promise has one.
pub record IsEmpty {R S V N A : Type 0} (page : Page R S V N A) : Type 0 where
  pub no_cell : page.cell ≡ none
  pub no_clients : page.clients ≡ []
  pub first_place : page.next_client ≡ 0
  pub not_running : (n : ℕ) → HasNoClient (get n page.promises)

-- There is one client, `c`: it is in the cell, and every promise that has a client has it.
pub record IsOne {R S V N A : Type 0} (page : Page R S V N A) (c : RpcWasmClient R S V N)
    : Type 0 where
  pub in_cell : page.cell ≡ some 0
  pub one_client : page.clients ≡ (0, c) ∷ []
  pub on_it : (n : ℕ) → IsOnClient (get n page.promises)

-- The same promises are rejected.
abbrev pub SameRejected : {R S V N A : Type 0} → Page R S V N A → Page R S V N A → Type 0
SameRejected page page' =
    (n : ℕ) → is_rejected (get n page'.promises) ≡ is_rejected (get n page.promises)

module _ {R S V N A : Type 0} where
  -- A promise gets another status, that is not one of want of a client.
  pub put-IsOne :
      (n : ℕ) (p : Promise A) (page : Page R S V N A) (c : RpcWasmClient R S V N)
      → IsOnClient (some p)
      → IsOne page c
      → IsOne (set_promise n p page) c
  put-IsOne n p page c own one = record {
    in_cell = one.in_cell;
    one_client = one.one_client;
    on_it = get_put IsOnClient n p page.promises own one.on_it;
  }

  pub put-SameRejected :
      (n : ℕ) (p : Promise A) (page : Page R S V N A)
      → is_rejected (some p) ≡ is_rejected (get n page.promises)
      → SameRejected page (set_promise n p page)
  put-SameRejected n p page same k = elim (Bool-cases (n == k)) [
    | inl e ↦
        subst
          (λ j. is_rejected (get j (insert n p page.promises)) ≡ is_rejected (get j page.promises))
          (==→eq n k e) (ap is_rejected (get-insert_same n p page.promises) ∙ same)
    | inr e ↦ ap is_rejected (get-insert_other n k p page.promises e)
  ]

  pub on_client_lem :
      (f : RpcWasmClient R S V N → RpcWasmClient R S V N) (page : Page R S V N A)
      (c : RpcWasmClient R S V N)
      → IsOne page c
      → IsOne (on_client f 0 page) (f c) × ((on_client f 0 page).promises ≡ page.promises)
  unfolding on_client get insert remove
  on_client_lem f page c one =
      subst
        (λ m.
          IsOne (on_client f 0 (record page { clients = m })) (f c)
          × ((on_client f 0 (record page { clients = m })).promises ≡ page.promises))
        (sym one.one_client)
        (record { in_cell = one.in_cell; one_client = refl; on_it = one.on_it }, refl)
