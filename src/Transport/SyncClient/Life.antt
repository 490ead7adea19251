-- ===== src/Transport/SyncClient/Life.antt =====
-- The end of a sync client: its reader thread, and a drop that comes before it.
use Prim.Native.String.{String}
use rust_muxio.Prelude.{
  ℕ, ◌≡◌, refl, ap, ◌∙◌, Bool, true, false, Option, some, List, [], ◌∷◌, ◌++◌, map, if_cases,
}
use rust_muxio.Transport.Link.{Link, report, disconnect, disconnected}
use rust_muxio.Transport.Link.Reports.{report_to-is_connected}
use rust_muxio.Transport.Program.{Program, IsIdle, fail_pending, fail_pending-IsIdle}
use rust_muxio.Transport.ReadLoop.{serve_all}
use rust_muxio.Transport.Source.{
  ReadResult, bytes, end_of_file, failed, IsLast, disconnect_reason, keep_first,
}
use rust_muxio.Transport.SyncClient.{RpcSyncClient, reader_thread, tear_down, shutdown_sync}

-- The text that a last read leaves; that of an error is not kept.
abbrev pub reason : ReadResult → Option String → Option String
reason (bytes b) e = e
reason end_of_file e = keep_first "unexpected EOF (transport closed)" e
reason (failed message) e = e

module _ {R S V N P : Type 0} (program : Program R S (Unit {0}) V P) where
  -- The client behind its reads, at the end of its reader's loop.
  abbrev pub at_end : List (List ℕ) → ReadResult → RpcSyncClient R S V N → RpcSyncClient R S V N
  at_end input last c = record c {
    state = serve_all program tt input c.state;
    disconnect_error = reason last c.disconnect_error;
  }

  reader_thread-tear_down :
      (input : List (List ℕ)) (last : ReadResult) (rest : List ReadResult)
      (c : RpcSyncClient R S V N)
      → IsLast last
      → reader_thread program (map bytes input ++ last ∷ rest) c
        ≡ some (tear_down program (at_end input last c))
  unfolding reader_thread
  reader_thread-tear_down [] (bytes b) rest c h = absurd h
  reader_thread-tear_down [] end_of_file rest c h = refl
  reader_thread-tear_down [] (failed e) rest c h = refl
  reader_thread-tear_down (b ∷ input) last rest c h =
      reader_thread-tear_down input last rest (record c { state = _ }) h

  -- What the thread leaves of a client that was connected.
  pub record IsLost (input : List (List ℕ)) (last : ReadResult) (c : RpcSyncClient R S V N)
      (r : Option (RpcSyncClient R S V N)) : Type 0 where
    pub after : RpcSyncClient R S V N
    pub ends : r ≡ some after
    pub down : after.link.is_connected ≡ false
    pub told : after.link.reports ≡ (report disconnected (disconnect c.link)).reports
    pub failed_with :
        after.state
        ≡ fail_pending program
            (disconnect_reason (reason last c.disconnect_error))
            (serve_all program tt input c.state)
    pub idle : IsIdle after.state

  -- The reader thread of a connected client ends at the first read that is the end of the pipe or an
  -- error: the reads up to there were served in order, the disconnect is reported once, the pending
  -- calls fail with the text of the end, and no call waits.
  pub reader_thread-IsLost :
      (input : List (List ℕ)) (last : ReadResult) (rest : List ReadResult)
      (c : RpcSyncClient R S V N)
      → IsLast last
      → c.link.is_connected ≡ true
      → IsLost input last c (reader_thread program (map bytes input ++ last ∷ rest) c)
  unfolding tear_down report
  reader_thread-IsLost input last rest c h e =
      let s = serve_all program tt input c.state in
      record {
        after = record (at_end input last c) {
          link = report disconnected (disconnect c.link);
          state = fail_pending program (disconnect_reason (reason last c.disconnect_error)) s;
        };
        ends = reader_thread-tear_down input last rest c h ∙ rw e refl;
        down = report_to-is_connected c.link.state_change_handler disconnected (disconnect c.link);
        told = refl;
        failed_with = refl;
        idle = fail_pending-IsIdle program (disconnect_reason (reason last c.disconnect_error)) s;
      }

  shutdown_sync-down :
      (is_free : Bool) (c : RpcSyncClient R S V N)
      → (shutdown_sync is_free c).link.is_connected ≡ false
  unfolding shutdown_sync report
  shutdown_sync-down is_free c =
      if_cases (λ (c' : RpcSyncClient R S V N). c'.link.is_connected ≡ false) c.link.is_connected _
        _
        (λ e.
          if_cases (λ (l : Link N (List ℕ)). l.is_connected ≡ false) is_free _ _
            (λ f.
              report_to-is_connected c.link.state_change_handler disconnected (disconnect c.link))
            (λ f. refl))
        (λ e. e)

  tear_down_late :
      (c : RpcSyncClient R S V N) → c.link.is_connected ≡ false → tear_down program c ≡ c
  unfolding tear_down
  tear_down_late c e = rw e refl

  -- A reader thread that ends behind a drop reports nothing and fails no call: what it leaves is the
  -- dropped client with its reads served.
  pub reader_thread-shutdown_sync :
      (is_free : Bool) (input : List (List ℕ)) (last : ReadResult) (rest : List ReadResult)
      (c : RpcSyncClient R S V N)
      → IsLast last
      → reader_thread program (map bytes input ++ last ∷ rest) (shutdown_sync is_free c)
        ≡ some (at_end input last (shutdown_sync is_free c))
  reader_thread-shutdown_sync is_free input last rest c h =
      reader_thread-tear_down input last rest (shutdown_sync is_free c) h
      ∙ ap some (
          tear_down_late (at_end input last (shutdown_sync is_free c))
            (shutdown_sync-down is_free c))
