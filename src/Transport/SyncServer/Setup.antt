-- ===== src/Transport/SyncServer/Setup.antt =====
-- extensions/muxio-sync-rpc-server/src/rpc_sync_server.rs: `setup`, `ServerSetup` and `join_reader`. The
-- halves of the pipe are values of types `Rd` and `Wr`. A panic of `expect` is `none`.
use rust_muxio.Prelude.{
  ℕ, ◌≡◌, refl, ap, ◌∙◌, length, arith, Option, none, some, List, [], ◌∷◌, is_empty, if◌then◌else◌,
}
use rust_muxio.Service.Endpoint.{RpcServiceEndpoint}
use rust_muxio.Service.Endpoint.Reading.{EndpointState}
use rust_muxio.Transport.SyncServer
use rust_muxio.Transport.SyncServer.{RpcSyncServer, done}
use rust_muxio.Transport.SyncServer.Life.{IsSound, signals}

-- `server` has the parts that the server shares with its setup. `emit_rx` is what is queued for the
-- writer thread.
pub record ServerSetup (R S V N P Rd Wr : Type 0) : Type 0 where
  pub reader : Option Rd
  pub writer : Option Wr
  pub endpoint : RpcServiceEndpoint P S
  pub server : RpcSyncServer R S V N
  pub emit_rx : Option (List (List ℕ))
  pub disconnected_tx : Option (Unit {0})

-- What `start` gives: the server, and what its two threads own.
pub record Started (R S V N P Rd Wr : Type 0) : Type 0 where
  pub server : RpcSyncServer R S V N
  pub endpoint : RpcServiceEndpoint P S
  pub writer_owns : Wr × List (List ℕ)
  pub reader_owns : Rd

module _ {R S V N P Rd Wr : Type 0} where
  -- `dispatcher` is what `RpcDispatcher::new` makes.
  unfoldable pub setup :
      Rd
      → Wr
      → RpcServiceEndpoint P S
      → EndpointState R S (Unit {0}) V
      → ServerSetup R S V N P Rd Wr
  unfolding SyncServer.new
  setup reader writer endpoint dispatcher = record {
    reader = some reader;
    writer = some writer;
    endpoint = endpoint;
    server = SyncServer.new dispatcher;
    emit_rx = some [];
    disconnected_tx = some tt;
  }

  -- Handlers are registered on the endpoint of the setup, which is the server's.
  unfoldable pub on_endpoint :
      (RpcServiceEndpoint P S → RpcServiceEndpoint P S)
      → ServerSetup R S V N P Rd Wr
      → ServerSetup R S V N P Rd Wr
  on_endpoint register s = record s { endpoint = register s.endpoint }

  unfoldable pub start_threads : ServerSetup R S V N P Rd Wr → Option (Started R S V N P Rd Wr)
  start_threads s = elim s.writer [
    | none ↦ none
    | some writer ↦ elim s.emit_rx [
      | none ↦ none
      | some emit_rx ↦ elim s.disconnected_tx [
        | none ↦ none
        | some disconnected_tx ↦ elim s.reader [
          | none ↦ none
          | some reader ↦ some (record {
            server = s.server;
            endpoint = s.endpoint;
            writer_owns = (writer, emit_rx);
            reader_owns = reader;
          })
        ]
      ]
    ]
  ]

  -- A setup starts, whatever is registered in between, and with what is registered.
  pub start_threads-setup :
      (reader : Rd) (writer : Wr) (endpoint : RpcServiceEndpoint P S)
      (dispatcher : EndpointState R S (Unit {0}) V)
      (register : RpcServiceEndpoint P S → RpcServiceEndpoint P S)
      → start_threads (on_endpoint register (setup reader writer endpoint dispatcher))
        ≡ some (record {
          server = SyncServer.new {N = N} dispatcher;
          endpoint = register endpoint;
          writer_owns = (writer, []);
          reader_owns = reader;
        })
  unfolding start_threads on_endpoint setup
  start_threads-setup reader writer endpoint dispatcher register = refl

-- `join_reader`: it returns behind the signal of the reader thread, and waits before.
unfoldable pub join_reader :
    {R S V N : Type 0} → RpcSyncServer R S V N → Option (RpcSyncServer R S V N)
join_reader s = if is_empty s.disconnected_tx then none else some s

module _ {R S V N : Type 0} where
  join_on :
      (sent : List (Unit {0})) (s : RpcSyncServer R S V N)
      → length sent ≡ 1
      → (if is_empty sent then none else some s) ≡ some s
  join_on [] s e = ground arith
  join_on (x ∷ sent) s e = refl

  wait_on :
      (sent : List (Unit {0})) (s : RpcSyncServer R S V N)
      → length sent ≡ 0
      → (if is_empty sent then none else some s) ≡ none
  wait_on [] s e = refl
  wait_on (x ∷ sent) s e = ground arith

  -- Behind the end of the reader thread it returns.
  pub join_reader-IsSound :
      (s : RpcSyncServer R S V N) → IsSound s → s.reader ≡ done → join_reader s ≡ some s
  unfolding join_reader
  join_reader-IsSound s p at_end = join_on s.disconnected_tx s (p.signalled ∙ ap signals at_end)

  -- Before, it waits.
  pub join_reader-waits :
      (s : RpcSyncServer R S V N) → IsSound s → signals s.reader ≡ 0 → join_reader s ≡ none
  unfolding join_reader
  join_reader-waits s p at_work = wait_on s.disconnected_tx s (p.signalled ∙ at_work)
