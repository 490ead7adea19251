-- ===== src/Transport/ServerExamples.antt =====
-- Witnesses for servers with all their connections.
use rust_muxio.Prelude.{ℕ, some, [], arith, ok}
use rust_muxio.Rpc.IdSpace.{server}
use rust_muxio.Rpc.Dispatcher
use rust_muxio.Service.Endpoint.Reading.{EndpointState}
use rust_muxio.Transport.Program.{Program}
use rust_muxio.Transport.Source.{end_of_file}
use rust_muxio.Transport.IpcServer.{reader}
use rust_muxio.Transport.IpcServer.Serving.{new, connection, accept_next, turn}
use rust_muxio.Transport.IpcServer.Serving.Changes.{AreTold}
use rust_muxio.Transport.IpcServer.Serving.Events.{
  Reachable, start, accepted, turned, Reachable-AreTold,
}

abbrev serving : Program ℕ ℕ ℕ ℕ ℕ
serving = record {
  on_response = λ h e v. v;
  on_stream = λ h e c v. ([], v);
  run = λ h args c. ok args;
  encode_payload = λ p. [];
  endpoint = record { prebuffered_handlers = []; stream_handlers = [] };
}

abbrev new_state : EndpointState ℕ ℕ ℕ ℕ
new_state = (
  (Dispatcher.new_with_id_space server 1).0,
  record { responders = []; pending = []; user_state = 0 },
  2,
)

-- Two connections come, and the first ends.
abbrev one_left :
    Reachable serving
      (λ id. id)
      (turn serving
        (λ id. id)
        1
        (reader end_of_file)
        (accept_next (connection new_state) (accept_next (connection new_state) (new (some [])))))
unfolding new accept_next
one_left =
    turned
      (accepted (accepted start (connection new_state) (omega arith)) (connection new_state)
        (omega arith))
      1 (reader end_of_file)

Reachable-AreTold_example : AreTold (
    turn serving
      (λ id. id)
      1
      (reader end_of_file)
      (accept_next (connection new_state) (accept_next (connection new_state) (new (some [])))))
Reachable-AreTold_example = Reachable-AreTold serving (λ id. id) one_left
