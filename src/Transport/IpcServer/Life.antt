-- ===== src/Transport/IpcServer/Life.antt =====
-- The end of a connection of the server on local sockets.
use rust_muxio.Prelude.{
  ℕ, ◌≡◌, refl, ◌∙◌, subst, false, Option, some, List, [], ◌∷◌, ◌++◌, map, Result, ok, err,
}
use rust_muxio.Rpc.Types.{RpcRequest}
use rust_muxio.Service.Error.{RpcServiceEndpointError}
use rust_muxio.Service.Endpoint.{run_handlers}
use rust_muxio.Service.Endpoint.Reading.{EndpointState, decode_bytes}
use rust_muxio.Transport.Program.{Program, IsIdle, serve, fail_pending, fail_pending-IsIdle}
use rust_muxio.Transport.ReadLoop.{
  serve_all, on_bytes, on_bytes_amid, on_bytes-serve, answer, requests_or_default,
}
use rust_muxio.Transport.Source.{bytes, end_of_file, failed, disconnect_reason}
use rust_muxio.Transport.IpcServer.{
  RpcIpcConnection, client_disconnected, Stage, takes, answers, Turn, reader, writer_ended,
  send_event, on_decoded, on_read, on_stage, on_stages, tear_down, handle_connection,
}

-- A turn behind which the tasks do not go on.
abbrev pub IsLastTurn : Turn → Type 0
IsLastTurn (reader (bytes b)) = ⊥
IsLastTurn (reader end_of_file) = Unit
IsLastTurn (reader (failed e)) = Unit
IsLastTurn (writer_ended before behind) = Unit

-- The stages that the reader does behind its reads, before the connection is torn down and behind.
abbrev pub stages_before : Turn → List Stage
stages_before (reader r) = takes r ∷ []
stages_before (writer_ended before behind) = before

abbrev pub stages_behind : Turn → List Stage
stages_behind (reader r) = []
stages_behind (writer_ended before behind) = behind

module _ {R S C V P : Type 0} (program : Program R S C V P) (context : C) where
  on_decoded-answer :
      (r : Result RpcServiceEndpointError (List (ℕ × RpcRequest))) (state : EndpointState R S C V)
      → on_decoded program context r state
        ≡ (answer program context
            (run_handlers program.run program.encode_payload context
              (requests_or_default r)
              program.endpoint)
            state).1
  unfolding on_decoded answer requests_or_default run_handlers
  on_decoded-answer (ok requests) state = refl
  on_decoded-answer (err e) (d, u, counter) = refl

  on_read-serve :
      (b : List ℕ) (state : EndpointState R S C V)
      → on_read program context b state ≡ serve program b context state
  unfolding on_read on_bytes on_bytes_amid
  on_read-serve b state =
      let (r, state') =
        decode_bytes program.on_response program.on_stream b context program.endpoint state in
      on_decoded-answer r state' ∙ on_bytes-serve program context b state

  -- No stage ends or renames a connection, or sends an event.
  record IsSame (c c' : RpcIpcConnection R S C V) : Type 0 where
    same_id : c'.conn_id ≡ c.conn_id
    same_flag : c'.is_connected ≡ c.is_connected
    same_events : c'.event_tx ≡ c.event_tx

  on_stages-IsSame :
      (stages : List Stage) (waiting : List (ℕ × RpcRequest)) (c : RpcIpcConnection R S C V)
      → IsSame c (on_stages program context stages (waiting, c)).1
  unfolding on_stages on_stage
  on_stages-IsSame [] waiting c = record { same_id = refl; same_flag = refl; same_events = refl }
  on_stages-IsSame (takes (bytes b) ∷ rest) waiting c =
      let p = on_stages-IsSame rest _ (record c { state = _ }) in
      record { same_id = p.same_id; same_flag = p.same_flag; same_events = p.same_events }
  on_stages-IsSame (takes end_of_file ∷ rest) waiting c =
      let p = on_stages-IsSame rest [] (record c { disconnect_error = _ }) in
      record { same_id = p.same_id; same_flag = p.same_flag; same_events = p.same_events }
  on_stages-IsSame (takes (failed e) ∷ rest) waiting c =
      let p = on_stages-IsSame rest [] (record c { disconnect_error = _ }) in
      record { same_id = p.same_id; same_flag = p.same_flag; same_events = p.same_events }
  on_stages-IsSame (answers ∷ rest) waiting c =
      let p = on_stages-IsSame rest [] (record c { state = _ }) in
      record { same_id = p.same_id; same_flag = p.same_flag; same_events = p.same_events }

  -- What is left of a connection that has done its reads: `at_end` is it at the teardown, and `torn`
  -- right behind.
  pub record IsClosed (last : Turn) (c : RpcIpcConnection R S C V)
      (r : Option (RpcIpcConnection R S C V)) : Type 0 where
    pub at_end : RpcIpcConnection R S C V
    pub torn : RpcIpcConnection R S C V
    pub after : RpcIpcConnection R S C V
    pub waiting : List (ℕ × RpcRequest)
    pub is_end : on_stages program context (stages_before last) ([], c) ≡ (waiting, at_end)
    pub failed_with :
        torn.state ≡ fail_pending program (disconnect_reason at_end.disconnect_error) at_end.state
    pub idle : IsIdle torn.state
    pub goes_on : (on_stages program context (stages_behind last) (waiting, torn)).1 ≡ after
    pub ends : r ≡ some after
    pub down : after.is_connected ≡ false
    pub one_event : after.event_tx ≡ send_event (client_disconnected c.conn_id) c.event_tx

  ends-IsClosed :
      (last : Turn) (rest : List Turn) (c : RpcIpcConnection R S C V)
      → let (waiting, at_end) = on_stages program context (stages_before last) ([], c) in
        handle_connection program context (last ∷ rest) c
          ≡ some
              (on_stages program context
                (stages_behind last)
                (waiting, tear_down program context at_end)).1
        → IsClosed last c (handle_connection program context (last ∷ rest) c)
  unfolding tear_down
  ends-IsClosed last rest c e =
      let (waiting, at_end) = on_stages program context (stages_before last) ([], c) in
      let torn = tear_down program context at_end in
      let early = on_stages-IsSame (stages_before last) [] c in
      let late = on_stages-IsSame (stages_behind last) waiting torn in
      record {
        at_end = at_end;
        torn = torn;
        after = (on_stages program context (stages_behind last) (waiting, torn)).1;
        waiting = waiting;
        is_end = refl;
        failed_with = refl;
        idle = fail_pending-IsIdle program (disconnect_reason at_end.disconnect_error) at_end.state;
        goes_on = refl;
        ends = e;
        down = late.same_flag;
        one_event = late.same_events ∙ rw (early.same_id, early.same_events) refl;
      }

  -- The tasks of a connection on a local socket, undisturbed by calls of others, end at the first
  -- read that is the end of the stream or an error, or where the write task has ended, whatever
  -- part of its work the reader still does then, before the connection is torn down or behind that:
  -- the reads up to there were served in order, as under the dispatcher's lock; the teardown fails
  -- the pending calls of what the reader has left by then, with the text of the end, so that none
  -- waits right behind it; in the end the connection is marked as disconnected, and one event tells
  -- of the disconnect, behind the others.
  pub handle_connection-IsClosed :
      (input : List (List ℕ)) (last : Turn) (rest : List Turn) (c : RpcIpcConnection R S C V)
      → IsLastTurn last
      → IsClosed last
          (record c { state = serve_all program context input c.state })
          (handle_connection program context (map (λ b. reader (bytes b)) input ++ last ∷ rest) c)
  unfolding handle_connection on_stages on_stage
  handle_connection-IsClosed [] (reader (bytes b)) rest c h = absurd h
  handle_connection-IsClosed [] (reader end_of_file) rest c h =
      ends-IsClosed (reader end_of_file) rest c refl
  handle_connection-IsClosed [] (reader (failed e)) rest c h =
      ends-IsClosed (reader (failed e)) rest c refl
  handle_connection-IsClosed [] (writer_ended before behind) rest c h =
      ends-IsClosed (writer_ended before behind) rest c refl
  handle_connection-IsClosed (b ∷ input) last rest c h =
      subst
        (λ s.
          IsClosed last (record c { state = serve_all program context input s })
            (handle_connection program context (map (λ b. reader (bytes b)) input ++ last ∷ rest)
              (record c { state = on_read program context b c.state })))
        (on_read-serve b c.state)
        (handle_connection-IsClosed input last rest
          (record c { state = on_read program context b c.state }) h)
