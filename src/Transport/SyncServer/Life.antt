-- ===== src/Transport/SyncServer/Life.antt =====
-- The life of a sync server: what its change handlers are told, whatever comes between the steps of
-- its reader thread.
use Prim.Native.String.{String}
use rust_muxio.Prelude.{
  ℕ, suc, ◌≡◌, refl, sym, ap, ◌∙◌, subst, Bool, true, false, Option, none, some, List, [], ◌∷◌,
  ◌++◌, append_assoc, length, length-snoc, if_cases, arith,
}
use rust_muxio.Service.Endpoint.Reading.{EndpointState}
use rust_muxio.Transport.Link
use rust_muxio.Transport.Link.{
  Link, RpcTransportState, connected, disconnected, report, report_to, disconnect,
}
use rust_muxio.Transport.Link.Reports.{report_to-is_connected}
use rust_muxio.Transport.Program.{Program}
use rust_muxio.Transport.Source.{ReadResult, bytes, end_of_file, failed}
use rust_muxio.Transport.SyncServer.{
  RpcSyncServer, Reader, reading, left, stored, done, new, emit, set_state_change_handler,
  store_disconnected, read_one, tear_down,
}

-- The last report is `state`, to `h`.
pub record IsTold {N : Type 0} (h : N) (state : RpcTransportState)
    (rs : List (N × RpcTransportState)) : Type 0 where
  pub before : List (N × RpcTransportState)
  pub last_report : rs ≡ before ++ (h, state) ∷ []

-- The handler, where there is one, was told the state last.
abbrev pub Listens :
    {N : Type 0} → RpcTransportState → Option N → List (N × RpcTransportState) → Type 0
Listens state none rs = Unit
Listens state (some h) rs = IsTold h state rs

-- Between the store and the teardown it is not known.
abbrev pub Knows : {N : Type 0} → Reader → Option N → List (N × RpcTransportState) → Type 0
Knows reading o rs = Listens connected o rs
Knows left o rs = Listens connected o rs
Knows stored o rs = Unit
Knows done o rs = Listens disconnected o rs

-- The flag is up up to the store.
abbrev pub flag_of : Reader → Bool
flag_of reading = true
flag_of left = true
flag_of stored = false
flag_of done = false

-- How many signals the thread has sent.
abbrev pub signals : Reader → ℕ
signals reading = 0
signals left = 0
signals stored = 0
signals done = 1

pub record IsSound {R S V N : Type 0} (s : RpcSyncServer R S V N) : Type 0 where
  pub flag : s.link.is_connected ≡ flag_of s.reader
  pub knows : Knows s.reader s.link.state_change_handler s.link.reports
  pub signalled : length s.disconnected_tx ≡ signals s.reader

module _ {R S V N P : Type 0} (program : Program R S (Unit {0}) V P) where
  -- The reader thread's steps come in its order; all others come any time.
  pub data Step : RpcSyncServer R S V N → RpcSyncServer R S V N → Type 0 where
    reads :
        (r : ReadResult) (s : RpcSyncServer R S V N)
        → s.reader ≡ reading
        → Step s (read_one program r s)
    stores : (s : RpcSyncServer R S V N) → s.reader ≡ left → Step s (store_disconnected s)
    tears_down : (s : RpcSyncServer R S V N) → s.reader ≡ stored → Step s (tear_down program s)
    listens : (h : N) (s : RpcSyncServer R S V N) → Step s (set_state_change_handler h s)
    emits : (chunk : List ℕ) (s : RpcSyncServer R S V N) → Step s (emit chunk s)
    calls :
        (state : EndpointState R S (Unit {0}) V) (s : RpcSyncServer R S V N)
        → Step s (record s { state = state })

  pub data Reachable : RpcSyncServer R S V N → Type 0 where
    start : (dispatcher : EndpointState R S (Unit {0}) V) → Reachable (new dispatcher)
    next : {s s' : RpcSyncServer R S V N} → Reachable s → Step s s' → Reachable s'

  report_to-Listens :
      (o : Option N) (st : RpcTransportState) (l : Link N (List ℕ))
      → Listens st o (report_to o st l).reports
  unfolding report_to
  report_to-Listens none st l = tt
  report_to-Listens (some h) st l = record { before = l.reports; last_report = refl }

  report_to-state_change_handler :
      (o : Option N) (l : Link N (List ℕ))
      → (report_to o disconnected l).state_change_handler ≡ l.state_change_handler
  unfolding report_to
  report_to-state_change_handler none l = refl
  report_to-state_change_handler (some h) l = refl

  -- The reader thread goes from its loop to behind it.
  leaves :
      (e : Option String) (s : RpcSyncServer R S V N)
      → s.reader ≡ reading
      → IsSound s
      → IsSound (record s { disconnect_error = e; reader = left })
  leaves e s at_work p = record {
    flag = p.flag ∙ ap flag_of at_work;
    knows = subst (λ r. Knows r s.link.state_change_handler s.link.reports) at_work p.knows;
    signalled = p.signalled ∙ ap signals at_work;
  }

  read_one-IsSound :
      (r : ReadResult) (s : RpcSyncServer R S V N)
      → s.reader ≡ reading
      → IsSound s
      → IsSound (read_one program r s)
  unfolding read_one
  read_one-IsSound (bytes b) s e p = record {
    flag = p.flag;
    knows = p.knows;
    signalled = p.signalled;
  }
  read_one-IsSound end_of_file s e p = leaves _ s e p
  read_one-IsSound (failed m) s e p = leaves s.disconnect_error s e p

  -- A new handler is told the state that the flag has.
  set_state_change_handler-IsSound :
      (h : N) (s : RpcSyncServer R S V N) → IsSound s → IsSound (set_state_change_handler h s)
  unfolding set_state_change_handler report
  set_state_change_handler-IsSound h s p =
      let l = record s.link { state_change_handler = some h } in
      if_cases (λ (m : Link N (List ℕ)). IsSound (record s { link = m })) s.link.is_connected _ _
        (λ e. record {
          flag = p.flag;
          knows = told_up s.reader (sym p.flag ∙ e);
          signalled = p.signalled;
        })
        (λ e. record {
          flag = p.flag;
          knows = told_down s.reader (sym p.flag ∙ e);
          signalled = p.signalled;
        })
    where
      told_up :
          (r : Reader) → flag_of r ≡ true → Knows r (some h) (s.link.reports ++ (h, connected) ∷ [])
      told_up reading e = record { before = s.link.reports; last_report = refl }
      told_up left e = record { before = s.link.reports; last_report = refl }
      told_up stored e = tt
      told_up done e = cc

      told_down :
          (r : Reader)
          → flag_of r ≡ false
          → Knows r (some h) (s.link.reports ++ (h, disconnected) ∷ [])
      told_down reading e = cc
      told_down left e = cc
      told_down stored e = tt
      told_down done e = record { before = s.link.reports; last_report = refl }

  tear_down-IsSound :
      (s : RpcSyncServer R S V N) → s.reader ≡ stored → IsSound s → IsSound (tear_down program s)
  unfolding tear_down report
  tear_down-IsSound s at_end p = record {
    flag =
        report_to-is_connected s.link.state_change_handler disconnected s.link
        ∙ p.flag
        ∙ ap flag_of at_end;
    knows =
        subst
          (λ o.
            Listens disconnected o
              (report_to s.link.state_change_handler disconnected s.link).reports)
          (sym (report_to-state_change_handler s.link.state_change_handler s.link))
          (report_to-Listens s.link.state_change_handler disconnected s.link);
    signalled =
        length-snoc s.disconnected_tx tt ∙ ap suc (p.signalled ∙ ap signals at_end) ∙ omega arith;
  }

  Step-IsSound : {s s' : RpcSyncServer R S V N} → Step s s' → IsSound s → IsSound s'
  unfolding store_disconnected emit
  Step-IsSound (reads r s e) p = read_one-IsSound r s e p
  Step-IsSound (stores s e) p = record {
    flag = refl;
    knows = tt;
    signalled = p.signalled ∙ ap signals e;
  }
  Step-IsSound (tears_down s e) p = tear_down-IsSound s e p
  Step-IsSound (listens h s) p = set_state_change_handler-IsSound h s p
  Step-IsSound (emits chunk s) p = record {
    flag = p.flag;
    knows = p.knows;
    signalled = p.signalled;
  }
  Step-IsSound (calls state s) p = record {
    flag = p.flag;
    knows = p.knows;
    signalled = p.signalled;
  }

  -- Whatever comes between the steps of the reader thread: the server is connected up to the store of
  -- the flag, its handler, where there is one, was told last that it is connected up to then, and
  -- that it is disconnected once the thread is done, however late the handler was set; and the
  -- signal to `join_reader` is sent once, at the end of the thread.
  pub Reachable-IsSound : {s : RpcSyncServer R S V N} → Reachable s → IsSound s
  unfolding new Link.fresh
  Reachable-IsSound (start dispatcher) = record { flag = refl; knows = tt; signalled = refl }
  Reachable-IsSound (next r t) = Step-IsSound t (Reachable-IsSound r)

  -- A handler that is set between the store of the flag and the report of the reader thread is told
  -- of the one disconnect twice.
  pub tear_down_twice :
      (h : N) (s : RpcSyncServer R S V N)
      → (tear_down program (set_state_change_handler h (store_disconnected s))).link.reports
        ≡ s.link.reports ++ (h, disconnected) ∷ (h, disconnected) ∷ []
  unfolding tear_down set_state_change_handler store_disconnected report report_to
  tear_down_twice h s =
      append_assoc s.link.reports ((h, disconnected) ∷ []) ((h, disconnected) ∷ [])
