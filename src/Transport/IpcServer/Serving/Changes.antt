-- ===== src/Transport/IpcServer/Serving/Changes.antt =====
-- What holds of the connections of a server and its events, and changes that keep it.
use rust_muxio.Prelude.{
  ℕ, ◌+◌, ◌<◌, ◌≤◌, ◌≡◌, refl, sym, ap, ◌∙◌, subst, true, false, Option, none, some, List, [], ◌∷◌,
  ◌++◌, arith, ◌==◌, ==_refl, ==→eq, if◌then◌else◌, Bool-cases, inl, inr,
}
use rust_muxio.Prelude.Map.{Map, get, insert, remove, get-insert, get-remove}
use rust_muxio.Rpc.Session.Frames.{
  get-insert_same, get-insert_other, get-remove_same, get-remove_other,
}
use rust_muxio.Transport.IpcServer.{
  RpcIpcServerEvent, client_connected, client_disconnected, RpcIpcConnection,
}
use rust_muxio.Transport.IpcServer.Serving.{RpcIpcServer, new}
use rust_muxio.Transport.IpcServer.Serving.History.{
  told, told_own, told_other, history, history_others, history_first, history_ended,
}

module _ {R S C V : Type 0} where
  pub record AreTold (s : RpcIpcServer R S C V) : Type 0 where
    pub events : List RpcIpcServerEvent
    pub is_logged : s.event_tx ≡ some events
    pub some_number : 1 ≤ s.next_conn_id
    pub named :
        (id : ℕ) (c : RpcIpcConnection R S C V)
        → get id s.connections ≡ some c
        → (c.conn_id ≡ id) × (1 ≤ id) × (id < s.next_conn_id)
    pub history_told : (id : ℕ) → told id events ≡ history id s.next_conn_id (get id s.connections)

  pub new-AreTold : AreTold (new (some []))
  unfolding new get told
  new-AreTold = record {
    events = [];
    is_logged = refl;
    some_number = omega arith;
    named = λ id c e. absurd (cc);
    history_told = λ id. ground arith;
  }

  no_connection : (s : RpcIpcServer R S C V) → AreTold s → get s.next_conn_id s.connections ≡ none
  no_connection s t = go (get s.next_conn_id s.connections) refl
    where
      go :
          (c : Option (RpcIpcConnection R S C V))
          → get s.next_conn_id s.connections ≡ c
          → get s.next_conn_id s.connections ≡ none
      go none e = e
      go (some c) e =
          let (named, some_number, below) = t.named s.next_conn_id c e in absurd (omega arith)

  -- A connection under its number is the one that was put there.
  put_there :
      (n id : ℕ) (c c' : RpcIpcConnection R S C V) (m : Map (RpcIpcConnection R S C V))
      → (n == id) ≡ true
      → get id (insert n c m) ≡ some c'
      → c'.conn_id ≡ c.conn_id
  put_there n id c c' m same h =
      let e : some c ≡ some c' =
        sym (
          subst (λ b. get id (insert n c m) ≡ (if b then some c else get id m)) same
            (get-insert n id c m))
        ∙ h in
      ap number_or (sym e)
    where
      number_or : Option (RpcIpcConnection R S C V) → ℕ
      number_or none = 0
      number_or (some x) = x.conn_id

  -- A connection is put in, and its connect is told.
  pub put_in-AreTold :
      (s : RpcIpcServer R S C V) (c : RpcIpcConnection R S C V) (t : AreTold s)
      → c.conn_id ≡ s.next_conn_id
      → AreTold (record s {
        connections = insert s.next_conn_id c s.connections;
        event_tx = some (t.events ++ client_connected s.next_conn_id ∷ []);
        next_conn_id = s.next_conn_id + 1;
      })
  put_in-AreTold s c t e = record {
    events = t.events ++ client_connected s.next_conn_id ∷ [];
    is_logged = refl;
    some_number = omega (arith, t.some_number);
    named = λ id c' h. elim (Bool-cases (s.next_conn_id == id)) [
      | inl same ↦
          let own = ==→eq s.next_conn_id id same in
          (
            put_there s.next_conn_id id c c' s.connections same h ∙ e ∙ own,
            omega (arith, t.some_number, own),
            omega (arith, own),
          )
      | inr other ↦
          let (is_named, some_number, below) =
            t.named id c' (sym (get-insert_other s.next_conn_id id c s.connections other) ∙ h) in
          (is_named, some_number, omega arith)
    ];
    history_told = λ id. elim (Bool-cases (s.next_conn_id == id)) [
      | inl same ↦ subst (IsHistory (insert s.next_conn_id c s.connections)) (==→eq _ id same) own
      | inr other ↦
          told_other id t.events (client_connected s.next_conn_id) other
          ∙ t.history_told id
          ∙ sym (history_others id s.next_conn_id (get id s.connections) other)
          ∙ ap (history id (s.next_conn_id + 1))
              (sym (get-insert_other s.next_conn_id id c s.connections other))
    ];
  }
    where
      IsHistory : Map (RpcIpcConnection R S C V) → ℕ → Type 0
      IsHistory m id =
          told id (t.events ++ client_connected s.next_conn_id ∷ [])
          ≡ history id (s.next_conn_id + 1) (get id m)

      own : IsHistory (insert s.next_conn_id c s.connections) s.next_conn_id
      own =
          told_own s.next_conn_id t.events (client_connected s.next_conn_id)
            (==_refl s.next_conn_id)
          ∙ ap (λ es. es ++ client_connected s.next_conn_id ∷ [])
              (t.history_told s.next_conn_id
                ∙ ap (history s.next_conn_id s.next_conn_id) (no_connection s t)
                ∙ history_first (RpcIpcConnection R S C V) s.next_conn_id)
          ∙ ap (history s.next_conn_id (s.next_conn_id + 1))
              (sym (get-insert_same s.next_conn_id c s.connections))

  -- A connection that is there gets another state.
  pub replace-AreTold :
      (s : RpcIpcServer R S C V) (n : ℕ) (c c' : RpcIpcConnection R S C V) (t : AreTold s)
      → get n s.connections ≡ some c
      → c'.conn_id ≡ n
      → AreTold (record s { connections = insert n c' s.connections })
  replace-AreTold s n c c' t there e = record {
    events = t.events;
    is_logged = t.is_logged;
    some_number = t.some_number;
    named = λ id d h. elim (Bool-cases (n == id)) [
      | inl same ↦
          let own = ==→eq n id same in
          let (is_named, some_number, below) = t.named n c there in
          (
            put_there n id c' d s.connections same h ∙ e ∙ own,
            omega (arith, some_number, own),
            omega (arith, below, own),
          )
      | inr other ↦ t.named id d (sym (get-insert_other n id c' s.connections other) ∙ h)
    ];
    history_told = λ id. elim (Bool-cases (n == id)) [
      | inl same ↦
          subst
            (λ k. told k t.events ≡ history k s.next_conn_id (get k (insert n c' s.connections)))
            (==→eq n id same)
            (t.history_told n
              ∙ ap (history n s.next_conn_id) there
              ∙ ap (history n s.next_conn_id) (sym (get-insert_same n c' s.connections)))
      | inr other ↦
          t.history_told id
          ∙ ap (history id s.next_conn_id) (sym (get-insert_other n id c' s.connections other))
    ];
  }

  removed_other :
      (n id : ℕ) (d : RpcIpcConnection R S C V) (m : Map (RpcIpcConnection R S C V))
      → get id (remove n m) ≡ some d
      → ((n == id) ≡ false) × (get id m ≡ some d)
  removed_other n id d m h = elim (Bool-cases (n == id)) [
    | inl same ↦
        let gone : get id (remove n m) ≡ none = rw (get-remove n id m, same) refl in absurd (cc)
    | inr other ↦ (other, sym (get-remove_other n id m other) ∙ h)
  ]

  -- A connection ends, and its disconnect is told.
  pub end-AreTold :
      (s : RpcIpcServer R S C V) (n : ℕ) (c : RpcIpcConnection R S C V) (t : AreTold s)
      → get n s.connections ≡ some c
      → AreTold (record s {
        connections = remove n s.connections;
        event_tx = some (t.events ++ client_disconnected n ∷ []);
      })
  end-AreTold s n c t there = record {
    events = t.events ++ client_disconnected n ∷ [];
    is_logged = refl;
    some_number = t.some_number;
    named = λ id d h. t.named id d (removed_other n id d s.connections h).1;
    history_told = λ id. elim (Bool-cases (n == id)) [
      | inl same ↦
          subst
            (λ k.
              told k (t.events ++ client_disconnected n ∷ [])
              ≡ history k s.next_conn_id (get k (remove n s.connections)))
            (==→eq n id same) own
      | inr other ↦
          told_other id t.events (client_disconnected n) other
          ∙ t.history_told id
          ∙ ap (history id s.next_conn_id) (sym (get-remove_other n id s.connections other))
    ];
  }
    where
      own :
          told n (t.events ++ client_disconnected n ∷ [])
          ≡ history n s.next_conn_id (get n (remove n s.connections))
      own =
          let (is_named, some_number, below) = t.named n c there in
          told_own n t.events (client_disconnected n) (==_refl n)
          ∙ ap (λ es. es ++ client_disconnected n ∷ [])
              (t.history_told n ∙ ap (history n s.next_conn_id) there)
          ∙ sym (history_ended (RpcIpcConnection R S C V) n s.next_conn_id some_number below)
          ∙ ap (history n s.next_conn_id) (sym (get-remove_same n s.connections))
