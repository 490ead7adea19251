-- ===== src/Transport/SyncClient/Child.antt =====
-- extensions/muxio-sync-rpc-client/src/rpc_sync_client.rs: `spawn`, a client on the pipes of a child
-- process, and the drop of a client. A child is a value of a type `K`, and `E` is the type of the
-- errors of its start.
use rust_muxio.Prelude.{
  Bool, Option, none, some, List, [], ◌∷◌, ◌++◌, ◌≡◌, refl, ap, Result, ok, err,
}
use rust_muxio.Service.Endpoint.Reading.{EndpointState}
use rust_muxio.Transport.SyncClient
use rust_muxio.Transport.SyncClient.{RpcSyncClient}

-- A started child with the ends of its pipes, where they are there.
pub record Child (K Rd Wr : Type 0) : Type 0 where
  pub process : K
  pub stdin : Option Wr
  pub stdout : Option Rd

pub data SpawnError (E : Type 0) : Type 0 where
  not_started : E → SpawnError E
  no_stdin no_stdout : SpawnError E

-- A client with its child. `killed` are the processes that were killed and waited for.
pub record Owner (R S V N K : Type 0) : Type 0 where
  pub client : RpcSyncClient R S V N
  pub child : Option K
  pub killed : List K

module _ {R S V N K Rd Wr E : Type 0} where
  -- The client, and the halves that its threads get. A missing pipe ends it, and the child runs on.
  unfoldable pub spawn :
      Result E (Child K Rd Wr)
      → EndpointState R S (Unit {0}) V
      → Result (SpawnError E) (Owner R S V N K × Rd × Wr)
  unfolding SyncClient.new
  spawn (err e) dispatcher = err (not_started e)
  spawn (ok c) dispatcher = elim c.stdin [
    | none ↦ err no_stdin
    | some stdin ↦ elim c.stdout [
      | none ↦ err no_stdout
      | some stdout ↦ ok (
        record { client = SyncClient.new dispatcher; child = some c.process; killed = [] },
        stdout,
        stdin,
      )
    ]
  ]

module _ {R S V N K : Type 0} where
  -- The child is killed first, then the client is shut down.
  unfoldable pub kill_child : Option K → Owner R S V N K → Owner R S V N K
  kill_child none o = o
  kill_child (some process) o = record o { child = none; killed = o.killed ++ process ∷ [] }

  unfoldable pub drop_client : Bool → Owner R S V N K → Owner R S V N K
  unfolding kill_child SyncClient.shutdown_sync
  drop_client is_free o =
      let o' = kill_child o.child o in
      record o' { client = SyncClient.shutdown_sync is_free o'.client }

  kill_child-drop :
      (k : K) (c : RpcSyncClient R S V N) (is_free : Bool)
      → drop_client is_free (record { client = c; child = some k; killed = [] })
        ≡ record { client = SyncClient.shutdown_sync is_free c; child = none; killed = k ∷ [] }
  unfolding drop_client kill_child
  kill_child-drop k c is_free = refl

-- A client that is spawned, if it can be, and dropped.
abbrev pub spawned_and_dropped :
    {R S V N K Rd Wr E : Type 0}
    → Bool
    → Result (SpawnError E) (Owner R S V N K × Rd × Wr)
    → Result (SpawnError E) (Owner R S V N K)
spawned_and_dropped is_free (err e) = err e
spawned_and_dropped is_free (ok (o, stdout, stdin)) = ok (drop_client is_free o)

-- A spawned client that is dropped has killed its process, once, and is shut down.
pub drop_client-spawn :
    {R S V N K Rd Wr E : Type 0} (process : K) (stdin : Wr) (stdout : Rd)
    (dispatcher : EndpointState R S (Unit {0}) V) (is_free : Bool)
    → spawned_and_dropped is_free (
        spawn {N = N} {E = E}
          (ok (record { process = process; stdin = some stdin; stdout = some stdout }))
          dispatcher)
      ≡ ok (record {
        client = SyncClient.shutdown_sync is_free (SyncClient.new dispatcher);
        child = none;
        killed = process ∷ [];
      })
unfolding spawn
drop_client-spawn process stdin stdout dispatcher is_free =
    ap ok (kill_child-drop process (SyncClient.new dispatcher) is_free)
