-- ===== src/Transport/Link/Reports.antt =====
-- What the change handler of a client is told, and in what order.
use rust_muxio.Prelude.{
  ℕ, suc, ◌+◌, ◌≤◌, ◌≡◌, refl, sym, ap, ◌∙◌, subst, Bool, true, false, Option, none, some, List, [],
  ◌∷◌, ◌++◌, append_assoc, if_cases, arith,
}
use rust_muxio.Transport.Link.{
  RpcTransportState, connected, disconnected, connecting, Link, fresh, report_to, report,
  disconnect, shutdown_sync, set_state_change_handler, emit,
}

-- A handler is told of a disconnect only right behind the connect that it was told of.
pub data Paired {N : Type 0} : List (N × RpcTransportState) → Type 0 where
  nothing : Paired []
  up :
      {rs : List (N × RpcTransportState)} → Paired rs → (h : N) → Paired (rs ++ (h, connected) ∷ [])
  up_down :
      {rs : List (N × RpcTransportState)}
      → Paired rs
      → (h : N) → Paired (rs ++ (h, connected) ∷ (h, disconnected) ∷ [])

-- The last report went to `h`, and was a connect.
pub record IsUp {N : Type 0} (h : N) (rs : List (N × RpcTransportState)) : Type 0 where
  pub before : List (N × RpcTransportState)
  pub paired : Paired before
  pub last_report : rs ≡ before ++ (h, connected) ∷ []

-- While it is connected the client has told its handler so.
abbrev pub Knows : {N : Type 0} → Bool → Option N → List (N × RpcTransportState) → Type 0
Knows false o rs = Unit
Knows true none rs = Unit
Knows true (some h) rs = IsUp h rs

pub record IsPaired {N M : Type 0} (l : Link N M) : Type 0 where
  pub paired : Paired l.reports
  pub knows : Knows l.is_connected l.state_change_handler l.reports

-- How often a disconnect was reported.
abbrev pub disconnects : {N : Type 0} → List (N × RpcTransportState) → ℕ
disconnects [] = 0
disconnects ((h, connected) ∷ rs) = disconnects rs
disconnects ((h, disconnected) ∷ rs) = suc (disconnects rs)
disconnects ((h, connecting) ∷ rs) = disconnects rs

pub disconnects-append :
    {N : Type 0} (xs ys : List (N × RpcTransportState))
    → disconnects (xs ++ ys) ≡ disconnects xs + disconnects ys
disconnects-append [] ys = omega arith
disconnects-append ((h, connected) ∷ xs) ys = disconnects-append xs ys
disconnects-append ((h, disconnected) ∷ xs) ys = omega (arith, disconnects-append xs ys)
disconnects-append ((h, connecting) ∷ xs) ys = disconnects-append xs ys

pub disconnects-report :
    {N M : Type 0} (l : Link N M)
    → disconnects (report disconnected l).reports ≤ suc (disconnects l.reports)
unfolding report
disconnects-report l = go l.state_change_handler
  where
    go :
        (o : Option _)
        → disconnects (report_to o disconnected l).reports ≤ suc (disconnects l.reports)
    go none = unfold report_to in (omega arith)
    go (some h) =
        unfold report_to in (omega (arith, disconnects-append l.reports ((h, disconnected) ∷ [])))

pub disconnects-report_connected :
    {N M : Type 0} (o : Option N) (l : Link N M)
    → disconnects (report_to o connected l).reports ≡ disconnects l.reports
unfolding report_to
disconnects-report_connected none l = refl
disconnects-report_connected (some h) l =
    omega (arith, disconnects-append l.reports ((h, connected) ∷ []))

module _ {N M : Type 0} where
  pub fresh-IsPaired : (b : Bool) → IsPaired (fresh {N = N} {M = M} b)
  unfolding fresh
  fresh-IsPaired true = record { paired = nothing; knows = tt }
  fresh-IsPaired false = record { paired = nothing; knows = tt }

  -- A connect is reported to whoever listens, and is what the handler knows then.
  pub connect-IsPaired :
      (o : Option N) (l : Link N M)
      → Paired l.reports
      → IsPaired
          (report_to o connected (record l { is_connected = true; state_change_handler = o }))
  unfolding report_to
  connect-IsPaired none l p = record { paired = p; knows = tt }
  connect-IsPaired (some h) l p = record {
    paired = up p h;
    knows = record { before = l.reports; paired = p; last_report = refl };
  }

  disconnect-Paired :
      (o : Option N) (l : Link N M)
      → Paired l.reports
      → Knows true o l.reports
      → Paired (report_to o disconnected l).reports
  unfolding report_to
  disconnect-Paired none l p k = p
  disconnect-Paired (some h) l p k =
      subst Paired
        (sym (
          ap (λ rs. rs ++ (h, disconnected) ∷ []) k.last_report
          ∙ append_assoc k.before ((h, connected) ∷ []) ((h, disconnected) ∷ [])))
        (up_down k.paired h)

  pub report_to-is_connected :
      (o : Option N) (s : RpcTransportState) (l : Link N M)
      → (report_to o s l).is_connected ≡ l.is_connected
  unfolding report_to
  report_to-is_connected none s l = refl
  report_to-is_connected (some h) s l = refl

  pub not_connected : (l : Link N M) → l.is_connected ≡ false → Paired l.reports → IsPaired l
  not_connected l e p = record {
    paired = p;
    knows = subst (λ b. Knows b l.state_change_handler l.reports) (sym e) tt;
  }

  -- A client that is connected and disconnects, and says so.
  pub disconnect-IsPaired :
      (l : Link N M)
      → l.is_connected ≡ true
      → IsPaired l
      → IsPaired (report disconnected (disconnect l))
  unfolding report
  disconnect-IsPaired l e p =
      not_connected (report disconnected (disconnect l))
        (report_to-is_connected l.state_change_handler disconnected (disconnect l))
        (disconnect-Paired l.state_change_handler (disconnect l) p.paired
          (subst (λ b. Knows b l.state_change_handler l.reports) e p.knows))

  pub shutdown_sync-IsPaired : (l : Link N M) → IsPaired l → IsPaired (shutdown_sync l)
  unfolding shutdown_sync
  shutdown_sync-IsPaired l p =
      if_cases IsPaired l.is_connected _ _ (λ e. disconnect-IsPaired l e p) (λ e. p)

  pub set_state_change_handler-IsPaired :
      (h : N) (l : Link N M) → IsPaired l → IsPaired (set_state_change_handler h l)
  unfolding set_state_change_handler report
  set_state_change_handler-IsPaired h l p =
      if_cases IsPaired l.is_connected _ _
        (λ e.
          subst
            (λ b. IsPaired (
              report_to (some h) connected
                (record l { is_connected = b; state_change_handler = some h })))
            (sym e) (connect-IsPaired (some h) l p.paired))
        (λ e. not_connected (record l { state_change_handler = some h }) e p.paired)

  pub emit-IsPaired : (m : M) (l : Link N M) → IsPaired l → IsPaired (emit m l)
  unfolding emit
  emit-IsPaired m l p =
      if_cases IsPaired l.is_connected _ _ (λ e. record { paired = p.paired; knows = p.knows })
        (λ e. p)

  -- A change of the handler neither connects nor reports a disconnect.
  pub set_state_change_handler_quiet :
      (h : N) (l : Link N M)
      → (disconnects (set_state_change_handler h l).reports ≡ disconnects l.reports)
        × ((set_state_change_handler h l).is_connected ≡ l.is_connected)
  unfolding set_state_change_handler report
  set_state_change_handler_quiet h l =
      let l' = record l { state_change_handler = some h } in
      if_cases
        (λ (m : Link N M).
          (disconnects m.reports ≡ disconnects l.reports) × (m.is_connected ≡ l.is_connected))
        l.is_connected _ _
        (λ e.
          (disconnects-report_connected (some h) l', report_to-is_connected (some h) connected l'))
        (λ e. (refl, refl))
