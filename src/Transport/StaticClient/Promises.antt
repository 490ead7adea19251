-- ===== src/Transport/StaticClient/Promises.antt =====
-- The promises of the static client: their begin, which reads the cell, the parts of their work, and
-- their end.
use Prim.Native.String.{String}
use rust_muxio.Prelude.{ℕ, Option, none, some, List, [], ◌∷◌, Result, ok, err}
use rust_muxio.Prelude.Map.{get, insert}
use rust_muxio.Service.Endpoint.Reading.{EndpointState}
use rust_muxio.Transport.Program.{Program}
use rust_muxio.Transport.Wasm
use rust_muxio.Transport.Wasm.{RpcWasmClient}
use rust_muxio.Transport.StaticClient.{
  Page, Promise, called, running, settled, Export, with_static_client_async,
  static_muxio_read_bytes_uint8, static_muxio_handle_connect, static_muxio_handle_disconnect,
  missing, settled_with, init_static_client,
}

-- The first of the body: a reference to the client of the cell, or an error.
unfoldable pub take_client : {A : Type 0} → Export → Option ℕ → Promise A
unfolding missing
take_client x none = settled (err (missing x))
take_client x (some place) = running place x

module _ {R S V N A : Type 0} where
  abbrev pub set_promise : ℕ → Promise A → Page R S V N A → Page R S V N A
  set_promise n p page = record page { promises = insert n p page.promises }

  -- JavaScript calls a function.
  unfoldable pub call_export : Option (Promise A) → ℕ → Export → Page R S V N A → Page R S V N A
  call_export none n x page = set_promise n (called x) page
  call_export (some p) n x page = page

  unfoldable pub begin_promise : Option (Promise A) → ℕ → Page R S V N A → Page R S V N A
  unfolding take_client
  begin_promise none n page = page
  begin_promise (some (called x)) n page = set_promise n (take_client x page.cell) page
  begin_promise (some (running place x)) n page = page
  begin_promise (some (settled r)) n page = page

  unfoldable pub on_client :
      (RpcWasmClient R S V N → RpcWasmClient R S V N) → ℕ → Page R S V N A → Page R S V N A
  on_client f place page = elim (get place page.clients) [
    | none ↦ page
    | some c ↦ record page { clients = insert place (f c) page.clients }
  ]

  -- A part of the work of a closure's future, between two awaits.
  unfoldable pub work_part :
      (RpcWasmClient R S V N → RpcWasmClient R S V N)
      → Option (Promise A)
      → Page R S V N A
      → Page R S V N A
  unfolding on_client
  work_part f none page = page
  work_part f (some (called x)) page = page
  work_part f (some (running place with_static_client_async)) page = on_client f place page
  work_part f (some (running place x)) page = page
  work_part f (some (settled r)) page = page

  -- The end of a closure's future.
  unfoldable pub settle_promise :
      Result String A → Option (Promise A) → ℕ → Page R S V N A → Page R S V N A
  unfolding settled_with
  settle_promise r none n page = page
  settle_promise r (some (called x)) n page = page
  settle_promise r (some (running place with_static_client_async)) n page =
      set_promise n (settled_with r) page
  settle_promise r (some (running place x)) n page = page
  settle_promise r (some (settled r')) n page = page

module _ {R S V N P : Type 0} (program : Program R S (Unit {0}) V P) where
  -- The client's operation that a function is for.
  unfoldable pub operation : Export → Option (RpcWasmClient R S V N → RpcWasmClient R S V N)
  unfolding Wasm.read_bytes Wasm.handle_connect Wasm.handle_disconnect
  operation with_static_client_async = none
  operation (static_muxio_read_bytes_uint8 bytes) = some (Wasm.read_bytes program bytes)
  operation static_muxio_handle_connect = some Wasm.handle_connect
  operation static_muxio_handle_disconnect = some (Wasm.handle_disconnect program)

module _ {R S V N A P : Type 0} (program : Program R S (Unit {0}) V P) where
  -- The rest of a function behind its begin.
  unfoldable pub finish_promise : Option (Promise A) → ℕ → Page R S V N A → Page R S V N A
  unfolding operation on_client
  finish_promise none n page = page
  finish_promise (some (called x)) n page = page
  finish_promise (some (running place x)) n page = elim (operation program x) [
    | none ↦ page
    | some f ↦ set_promise n (settled (ok none)) (on_client f place page)
  ]
  finish_promise (some (settled r)) n page = page

-- What comes on the thread: a call, or a turn of a promise.
pub data Event (R S V N A : Type 0) : Type 0 where
  inits : EndpointState R S (Unit {0}) V → Event R S V N A
  calls : ℕ → Export → Event R S V N A
  begins : ℕ → Event R S V N A
  works : ℕ → (RpcWasmClient R S V N → RpcWasmClient R S V N) → Event R S V N A
  settles : ℕ → Result String A → Event R S V N A
  finishes : ℕ → Event R S V N A

module _ {R S V N A P : Type 0} (program : Program R S (Unit {0}) V P) where
  unfoldable pub on_thread : Event R S V N A → Page R S V N A → Page R S V N A
  unfolding init_static_client call_export begin_promise work_part settle_promise finish_promise
  on_thread (inits dispatcher) page = (init_static_client dispatcher page).1
  on_thread (calls n x) page = call_export (get n page.promises) n x page
  on_thread (begins n) page = begin_promise (get n page.promises) n page
  on_thread (works n f) page = work_part f (get n page.promises) page
  on_thread (settles n r) page = settle_promise r (get n page.promises) n page
  on_thread (finishes n) page = finish_promise program (get n page.promises) n page

  unfoldable pub on_thread_all : List (Event R S V N A) → Page R S V N A → Page R S V N A
  unfolding on_thread
  on_thread_all [] page = page
  on_thread_all (e ∷ es) page = on_thread_all es (on_thread e page)
