-- ===== src/Transport/Ipc/Life.antt =====
-- The end of a client on a local socket, and its count of pending writes.
use Prim.Native.String.{String}
use rust_muxio.Prelude.{
  ℕ, ◌+◌, ◌-◌, ◌%◌, ◌^◌, ◌<◌, ◌≡◌, refl, ap, ◌∙◌, subst, Bool, false, Option, some, List, [], ◌∷◌,
  ◌++◌, map, length, length-snoc, if_cases, arith,
}
use rust_muxio.Service.Endpoint.Reading.{EndpointState}
use rust_muxio.Transport.Link.{report, disconnect, disconnected}
use rust_muxio.Transport.Link.Reports.{report_to-is_connected}
use rust_muxio.Transport.Program.{Program, IsIdle, fail_pending, fail_pending-IsIdle}
use rust_muxio.Transport.ReadLoop.{serve_all, on_bytes, on_bytes-serve}
use rust_muxio.Transport.Source.{
  ReadResult, bytes, end_of_file, failed, IsLast, disconnect_reason, keep_first,
}
use rust_muxio.Transport.Ipc.{RpcIpcClient, one_less, emit, write_next, shutdown_async, read_task}

-- The text that a last read leaves.
abbrev pub reason : ReadResult → Option String → Option String
reason (bytes b) e = e
reason end_of_file e = keep_first "unexpected EOF (connection closed)" e
reason (failed message) e = some message

module _ {R S V N P : Type 0} (program : Program R S (Unit {0}) V P) where
  pub record IsLost (state : EndpointState R S (Unit {0}) V) (e : Option String)
      (r : Option (RpcIpcClient R S V N)) : Type 0 where
    pub after : RpcIpcClient R S V N
    pub ends : r ≡ some after
    pub down : after.link.is_connected ≡ false
    pub failed_with : after.state ≡ fail_pending program (disconnect_reason e) state
    pub idle : IsIdle after.state

  shutdown_async-IsLost :
      (c : RpcIpcClient R S V N)
      → IsLost c.state c.disconnect_error (some (shutdown_async program c))
  unfolding shutdown_async report
  shutdown_async-IsLost c = record {
    after = shutdown_async program c;
    ends = refl;
    down = report_to-is_connected c.link.state_change_handler disconnected (disconnect c.link);
    failed_with = refl;
    idle = fail_pending-IsIdle program (disconnect_reason c.disconnect_error) c.state;
  }

  -- The read task ends at the first read that is the end of the stream or an error, whether the client
  -- has been marked as disconnected before or not: the reads up to there were served in order, then
  -- the pending calls fail with the text of the end, the client is disconnected and no call waits.
  pub read_task-IsLost :
      (input : List (List ℕ)) (last : ReadResult) (rest : List ReadResult)
      (c : RpcIpcClient R S V N)
      → IsLast last
      → IsLost
          (serve_all program tt input c.state)
          (reason last c.disconnect_error)
          (read_task program (map bytes input ++ last ∷ rest) c)
  unfolding read_task
  read_task-IsLost [] (bytes b) rest c h = absurd h
  read_task-IsLost [] end_of_file rest c h =
      shutdown_async-IsLost (record c { disconnect_error = reason end_of_file c.disconnect_error })
  read_task-IsLost [] (failed e) rest c h =
      shutdown_async-IsLost (record c { disconnect_error = some e })
  read_task-IsLost (b ∷ input) last rest c h =
      subst
        (λ s. IsLost (serve_all program tt input s) (reason last c.disconnect_error) (
          read_task program (map bytes input ++ last ∷ rest)
            (record c { state = on_bytes program tt b c.state })))
        (on_bytes-serve program tt b c.state)
        (read_task-IsLost input last rest (record c { state = on_bytes program tt b c.state }) h)

one_less_lem : (n : ℕ) → one_less n ≡ n - 1
unfolding one_less
one_less_lem n = ground arith

module _ {R S V N : Type 0} where
  -- The counter tells the length of the write queue.
  abbrev pub IsCounted : RpcIpcClient R S V N → Type 0
  IsCounted c = c.pending_writes ≡ length c.link.sent

  -- An emit keeps the counter of pending writes at the length of the write queue, and so does a
  -- round of the write task, as long as fewer than 2 ^ 64 - 1 chunks are queued; a chunk is not
  -- counted that is dropped because the client is disconnected or the write task is gone.
  pub emit-IsCounted :
      (is_open : Bool) (chunk : List ℕ) (c : RpcIpcClient R S V N)
      → length c.link.sent + 1 < 2 ^ 64
      → IsCounted c
      → IsCounted (emit is_open chunk c) × IsCounted (write_next c)
  unfolding emit write_next one_less
  emit-IsCounted is_open chunk c few h = (
    if_cases IsCounted c.link.is_connected _ _
        (λ e.
          if_cases IsCounted is_open _ _ (λ o. omega (arith, h, length-snoc c.link.sent chunk))
            (λ o. one_less_lem ((c.pending_writes + 1) % 2 ^ 64) ∙ omega (arith, h)))
        (λ e. h),
    next c.link.sent refl,
  )
    where
      next : (q : List (List ℕ)) → c.link.sent ≡ q → IsCounted (write_next c)
      next [] e = rw (e, write_next, e) (h ∙ ap length e)
      next (b ∷ q) e =
          rw (e, write_next) (one_less_lem c.pending_writes ∙ omega (arith, h ∙ ap length e))
