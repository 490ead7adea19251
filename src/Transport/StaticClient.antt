-- ===== src/Transport/StaticClient.antt =====
-- extensions/muxio-wasm-rpc-client/src/static_lib: the one client of a thread, that JavaScript drives
-- by functions. Clients stand in a store, and the cell holds the place of one, where there is one. A
-- function that JavaScript calls gives a promise, whose body begins at some later time, and goes on
-- between its awaits. The work of a client's own operation is done at once.
pub mod Promises
pub mod Life
pub mod One
pub mod Begin
use Prim.Native.String.{String}
use rust_muxio.Prelude.{ℕ, suc, Option, none, some, List, [], Result, ok, err}
use rust_muxio.Prelude.Map.{Map, insert}
use rust_muxio.Service.Endpoint.Reading.{EndpointState}
use rust_muxio.Transport.Wasm
use rust_muxio.Transport.Wasm.{RpcWasmClient}

-- The texts "RPC client not initialized" and "No registered static `RpcWasmClient`", and
-- "RPC error: " with the text of an error.
pub data StaticError : Type 0 where
  not_initialized no_registered_client : StaticError
  rpc_error : String → StaticError

-- What a promise is of: a closure's future, or one of the functions `static_muxio_read_bytes_uint8`,
-- `static_muxio_handle_connect` and `static_muxio_handle_disconnect`.
pub data Export : Type 0 where
  with_static_client_async : Export
  static_muxio_read_bytes_uint8 : List ℕ → Export
  static_muxio_handle_connect static_muxio_handle_disconnect : Export

-- A promise has not begun, or has taken the client at a place, or is settled, with a closure's value
-- of a type `A` or with no value.
pub data Promise (A : Type 0) : Type 0 where
  called : Export → Promise A
  running : ℕ → Export → Promise A
  settled : Result StaticError (Option A) → Promise A

-- `cell` is MUXIO_STATIC_RPC_CLIENT_REF.
pub record Page (R S V N A : Type 0) : Type 0 where
  pub clients : Map (RpcWasmClient R S V N)
  pub next_client : ℕ
  pub cell : Option ℕ
  pub promises : Map (Promise A)

-- The error of a promise that finds no client.
unfoldable pub missing : Export → StaticError
missing with_static_client_async = not_initialized
missing (static_muxio_read_bytes_uint8 bytes) = not_initialized
missing static_muxio_handle_connect = no_registered_client
missing static_muxio_handle_disconnect = no_registered_client

-- The end of the promise for what the closure's future gave.
unfoldable pub settled_with : {A : Type 0} → Result String A → Promise A
settled_with (ok value) = settled (ok (some value))
settled_with (err e) = settled (err (rpc_error e))

module _ {R S V N A : Type 0} where
  unfoldable pub fresh : Page R S V N A
  fresh = record { clients = []; next_client = 0; cell = none; promises = [] }

  unfoldable pub get_static_client : Page R S V N A → Option ℕ
  get_static_client page = page.cell

  -- `dispatcher` is what `RpcDispatcher::new` makes, where a client is made.
  unfoldable pub init_static_client :
      EndpointState R S (Unit {0}) V → Page R S V N A → Option ℕ × Page R S V N A
  unfolding get_static_client Wasm.new
  init_static_client dispatcher page = elim page.cell [
    | none ↦
        let page' = record page {
          clients = insert page.next_client (Wasm.new dispatcher) page.clients;
          next_client = suc page.next_client;
          cell = some page.next_client;
        } in
        (get_static_client page', page')
    | some place ↦ (get_static_client page, page)
  ]
