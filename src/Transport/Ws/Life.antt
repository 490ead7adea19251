-- ===== src/Transport/Ws/Life.antt =====
-- The life of a client on a WebSocket, whose tasks interleave in any way.
use rust_muxio.Prelude.{
  ℕ, suc, ◌+◌, ◌++◌, ◌≤◌, ◌≡◌, refl, sym, ◌∙◌, Bool, Bool-cases, inl, inr, true, false, Option,
  none, some, List, [], ◌∷◌, if_cases, Result, arith,
}
use rust_muxio.Frame.Types.{read_after_cancel}
use rust_muxio.Service.Endpoint.Reading.{EndpointState}
use rust_muxio.Transport.Link
use rust_muxio.Transport.Link.{Link, RpcTransportState, report, report_to, disconnect, disconnected}
use rust_muxio.Transport.Link.Reports.{
  IsPaired, fresh-IsPaired, set_state_change_handler-IsPaired, disconnects, disconnects-append,
  disconnects-report, report_to-is_connected, set_state_change_handler_quiet,
}
use rust_muxio.Transport.Program.{Program, IsIdle, fail_pending-IsIdle}
use rust_muxio.Transport.Ws.{
  WsMessage, RpcClient, new, filter_message, heartbeat, send_all, shutdown_sync,
  set_state_change_handler, emit, begin_shutdown, tell_disconnected, end_shutdown, shutdown_async,
  read_some, receive, receive_all, read_task,
}

-- What handlers were told: no disconnect, or one, and nothing behind it.
pub data Ends {N : Type 0} (rs : List (N × RpcTransportState)) : Type 0 where
  not_yet : disconnects rs ≡ 0 → Ends rs
  at_last :
      (before : List (N × RpcTransportState)) (h : N)
      → disconnects before ≡ 0
      → rs ≡ before ++ (h, disconnected) ∷ []
      → Ends rs

pub Ends-at_most_once :
    {N : Type 0} (rs : List (N × RpcTransportState)) → Ends rs → disconnects rs ≤ 1
Ends-at_most_once rs (not_yet none_yet) = omega arith
Ends-at_most_once rs (at_last before h none_before e) =
    rw e (omega (arith, disconnects-append before ((h, disconnected) ∷ []), none_before))

report-Ends :
    {N M : Type 0} (o : Option N) (l : Link N M)
    → disconnects l.reports ≡ 0
    → Ends (report_to o disconnected l).reports
unfolding report_to
report-Ends none l none_yet = not_yet none_yet
report-Ends (some h) l none_yet = at_last l.reports h none_yet refl

-- A connected client: its handler was told so last, no one was told of a disconnect, and no task is
-- shutting it down.
pub record IsUp {R S V N : Type 0} (c : RpcClient R S V N) : Type 0 where
  pub paired : IsPaired c.link
  pub untold : disconnects c.link.reports ≡ 0
  pub none_telling : c.telling ≡ 0
  pub none_stopping : c.stopping ≡ 0

-- Of the tasks in the shutdown there is one at most, and what it has to tell was not told before.
pub record IsOnce {R S V N : Type 0} (c : RpcClient R S V N) : Type 0 where
  pub up : c.link.is_connected ≡ true → IsUp c
  pub ends : Ends c.link.reports
  pub one_task : c.telling + c.stopping ≤ 1
  pub to_tell : c.telling + disconnects c.link.reports ≤ 1

not_up : (b : Bool) → b ≡ false → b ≡ true → ⊥
not_up b down up = cc

module _ {R S V N P : Type 0} (program : Program R S (Unit {0}) V P) where
  pub data Step (E : Type 0) : RpcClient R S V N → RpcClient R S V N → Type 0 where
    beats : (c : RpcClient R S V N) → Step E c (heartbeat c)
    receives : (m : Result E WsMessage) (c : RpcClient R S V N) → Step E c (receive program m c)
    emits : (chunk : List ℕ) (c : RpcClient R S V N) → Step E c (emit chunk c)
    listens : (h : N) (c : RpcClient R S V N) → Step E c (set_state_change_handler h c)
    begins : (c : RpcClient R S V N) → Step E c (begin_shutdown c)
    tells : (n : ℕ) (c : RpcClient R S V N) → c.telling ≡ suc n → Step E c (tell_disconnected c)
    ends : (n : ℕ) (c : RpcClient R S V N) → c.stopping ≡ suc n → Step E c (end_shutdown program c)
    drops : (c : RpcClient R S V N) → Step E c (shutdown_sync c)
    calls :
        (state : EndpointState R S (Unit {0}) V) (c : RpcClient R S V N)
        → Step E c (record c { state = state })

  pub data Reachable (E : Type 0) : RpcClient R S V N → Type 0 where
    start : (dispatcher : EndpointState R S (Unit {0}) V) → Reachable E (new dispatcher)
    next : {c c' : RpcClient R S V N} → Reachable E c → Step E c c' → Reachable E c'

  -- A step that changes neither the connection nor what was told.
  quiet :
      (c c' : RpcClient R S V N)
      → c'.link.is_connected ≡ c.link.is_connected
      → c'.link.state_change_handler ≡ c.link.state_change_handler
      → c'.link.reports ≡ c.link.reports
      → c'.telling ≡ c.telling
      → c'.stopping ≡ c.stopping
      → IsOnce c
      → IsOnce c'
  quiet c c' flag handler told telling stopping p = record {
    up = λ e.
        let u = p.up (sym flag ∙ e) in
        record {
          paired = record {
            paired = rw told u.paired.paired;
            knows = rw (told, flag, handler) u.paired.knows;
          };
          untold = rw told u.untold;
          none_telling = telling ∙ u.none_telling;
          none_stopping = stopping ∙ u.none_stopping;
        };
    ends = rw told p.ends;
    one_task = rw (telling, stopping) p.one_task;
    to_tell = rw (telling, told) p.to_tell;
  }

  read_some-IsOnce :
      (o : Option (List ℕ)) (c : RpcClient R S V N) → IsOnce c → IsOnce (read_some program o c)
  unfolding read_some
  read_some-IsOnce none c p = p
  read_some-IsOnce (some bytes) c p = quiet c (record c { state = _ }) refl refl refl refl refl p

  send_all-IsOnce :
      (ms : List WsMessage) (c : RpcClient R S V N) → IsOnce c → IsOnce (send_all ms c)
  unfolding send_all
  send_all-IsOnce ms c p =
      quiet c (record c { link = record c.link { sent = c.link.sent ++ ms } }) refl refl refl refl
        refl p

  -- A drop tells of the disconnect of a connected client.
  shutdown_sync-IsOnce : (c : RpcClient R S V N) → IsOnce c → IsOnce (shutdown_sync c)
  unfolding shutdown_sync Link.shutdown_sync report
  shutdown_sync-IsOnce c p =
      if_cases (λ (l : Link N WsMessage). IsOnce (record c { link = l })) c.link.is_connected _ _
        (λ e.
          let u = p.up e in
          record {
            up = λ t. absurd (
                not_up _
                  (report_to-is_connected c.link.state_change_handler disconnected
                    (disconnect c.link))
                  t);
            ends = report-Ends c.link.state_change_handler (disconnect c.link) u.untold;
            one_task = p.one_task;
            to_tell =
                omega (arith, disconnects-report (disconnect c.link), u.untold, u.none_telling);
          })
        (λ e. p)

  begin_shutdown-IsOnce : (c : RpcClient R S V N) → IsOnce c → IsOnce (begin_shutdown c)
  unfolding begin_shutdown
  begin_shutdown-IsOnce c p =
      if_cases IsOnce c.link.is_connected _ _
        (λ e.
          let u = p.up e in
          record {
            up = λ t. absurd (not_up _ refl t);
            ends = p.ends;
            one_task = omega (arith, u.none_telling, u.none_stopping);
            to_tell = omega (arith, u.none_telling, u.untold);
          })
        (λ e. p)

  tell_disconnected-IsOnce :
      (n : ℕ) (c : RpcClient R S V N) → c.telling ≡ suc n → IsOnce c → IsOnce (tell_disconnected c)
  unfolding tell_disconnected report
  tell_disconnected-IsOnce n c some_task p = record {
    up = λ t. absurd (
        busy
          (p.up (
            sym (report_to-is_connected c.link.state_change_handler disconnected c.link)
            ∙ t)).none_telling);
    ends = report-Ends c.link.state_change_handler c.link (omega (arith, some_task, p.to_tell));
    one_task = omega (arith, some_task, p.one_task);
    to_tell = omega (arith, disconnects-report c.link, some_task, p.to_tell);
  }
    where
      busy : c.telling ≡ 0 → ⊥
      busy e = omega (arith, some_task)

  set_state_change_handler-IsOnce :
      (h : N) (c : RpcClient R S V N) → IsOnce c → IsOnce (set_state_change_handler h c)
  unfolding set_state_change_handler
  set_state_change_handler-IsOnce h c p =
      let (same, still) = set_state_change_handler_quiet h c.link in
      record {
        up = λ t.
            let u = p.up (sym still ∙ t) in
            record {
              paired = set_state_change_handler-IsPaired h c.link u.paired;
              untold = same ∙ u.untold;
              none_telling = u.none_telling;
              none_stopping = u.none_stopping;
            };
        ends = set_ends;
        one_task = p.one_task;
        to_tell = omega (arith, same, p.to_tell);
      }
    where
      set_ends : Ends (Link.set_state_change_handler h c.link).reports
      set_ends = elim (Bool-cases c.link.is_connected) [
        | inl e ↦ not_yet ((set_state_change_handler_quiet h c.link).0 ∙ (p.up e).untold)
        | inr e ↦ unfold Link.set_state_change_handler in (rw e p.ends)
      ]

  Step-IsOnce : {E : Type 0} {c c' : RpcClient R S V N} → Step E c c' → IsOnce c → IsOnce c'
  unfolding heartbeat receive emit Link.emit end_shutdown
  Step-IsOnce (beats c) p = send_all-IsOnce _ c p
  Step-IsOnce (receives m c) p =
      read_some-IsOnce (filter_message m).0 _ (send_all-IsOnce (filter_message m).1 c p)
  Step-IsOnce (emits chunk c) p =
      if_cases (λ (l : Link N WsMessage). IsOnce (record c { link = l })) c.link.is_connected _ _
        (λ e. send_all-IsOnce (WsMessage.binary chunk ∷ []) c p) (λ e. p)
  Step-IsOnce (listens h c) p = set_state_change_handler-IsOnce h c p
  Step-IsOnce (begins c) p = begin_shutdown-IsOnce c p
  Step-IsOnce (tells n c some_task) p = tell_disconnected-IsOnce n c some_task p
  Step-IsOnce (ends n c some_task) p = record {
    up = λ t.
        let u = p.up t in
        record {
          paired = u.paired;
          untold = u.untold;
          none_telling = u.none_telling;
          none_stopping = omega (arith, u.none_stopping);
        };
    ends = p.ends;
    one_task = omega (arith, p.one_task);
    to_tell = p.to_tell;
  }
  Step-IsOnce (drops c) p = shutdown_sync-IsOnce c p
  Step-IsOnce (calls state c) p = quiet c (record c { state = state }) refl refl refl refl refl p

  -- However the tasks of a WebSocket client interleave, the swap of the flag, the report and the
  -- failing of pending calls of a shutdown being steps of their own, with calls, a drop and changes
  -- of the handler: handlers are told of a disconnect once at most, not while the client is
  -- connected, and of nothing behind it; while it is connected, its handler was told so last and
  -- was not told of a disconnect before; and one task at most is shutting it down.
  pub Reachable-IsOnce : {E : Type 0} {c : RpcClient R S V N} → Reachable E c → IsOnce c
  unfolding new Link.fresh
  Reachable-IsOnce (start dispatcher) = record {
    up = λ e. record {
      paired = fresh-IsPaired true;
      untold = refl;
      none_telling = refl;
      none_stopping = refl;
    };
    ends = not_yet refl;
    one_task = omega arith;
    to_tell = omega arith;
  }
  Reachable-IsOnce (next r s) = Step-IsOnce s (Reachable-IsOnce r)

  receive_all-link :
      {E : Type 0} (ms : List (Result E WsMessage)) (c : RpcClient R S V N)
      → (receive_all program ms c).link.is_connected ≡ c.link.is_connected
  unfolding receive_all receive send_all
  receive_all-link [] c = refl
  receive_all-link (m ∷ ms) c =
      receive_all-link ms (receive program m c)
      ∙ read_some-is_connected (filter_message m).0 (send_all (filter_message m).1 c)
    where
      read_some-is_connected :
          (o : Option (List ℕ)) (c : RpcClient R S V N)
          → (read_some program o c).link.is_connected ≡ c.link.is_connected
      read_some-is_connected none c = unfold read_some in refl
      read_some-is_connected (some bytes) c = unfold read_some in refl

  -- The read task of a connected client, undisturbed, ends whatever messages it is given: the client
  -- is disconnected then, and no call waits.
  pub read_task-IsIdle :
      {E : Type 0} (ms : List (Result E WsMessage)) (c : RpcClient R S V N)
      → c.link.is_connected ≡ true
      → ((read_task program ms c).link.is_connected ≡ false) × IsIdle (read_task program ms c).state
  unfolding read_task shutdown_async begin_shutdown tell_disconnected end_shutdown report
  read_task-IsIdle ms c e =
      let c' = receive_all program ms c in
      rw (receive_all-link ms c ∙ e) (
        report_to-is_connected c'.link.state_change_handler disconnected (disconnect c'.link),
        fail_pending-IsIdle program read_after_cancel c'.state,
      )
