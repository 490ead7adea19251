-- ===== src/Transport/WriteLoop/Life.antt =====
-- A write loop while messages come: what it makes of its sink.
use rust_muxio.Prelude.{
  ℕ, zero, suc, ◌≡◌, refl, sym, ap, ◌∙◌, ◌≤◌, Bool, true, false, List, [], ◌∷◌, ◌++◌, length,
  if_cases, Bool-cases, inl, inr, arith,
}
use rust_muxio.Transport.WriteLoop.{
  WriteLoop, spawn_write_loop, send, drop_senders, received, next_round, round, write_loop,
}

module _ {M W : Type 0} (handler : M → W → Bool × W) (w0 : W) where
  -- A loop in any state that messages, the drop of the senders and rounds lead to, in any order, and
  -- the messages that it has taken.
  pub data Reachable : List M → WriteLoop M W → Type 0 where
    start : Reachable [] (spawn_write_loop w0)
    takes :
        {taken : List M} {l : WriteLoop M W} (m : M)
        → Reachable taken l
        → (send m l).0 ≡ true
        → Reachable (taken ++ m ∷ []) (send m l).1
    refuses :
        {taken : List M} {l : WriteLoop M W} (m : M)
        → Reachable taken l
        → (send m l).0 ≡ false
        → Reachable taken (send m l).1
    drops :
        {taken : List M} {l : WriteLoop M W} → Reachable taken l → Reachable taken (drop_senders l)
    works :
        {taken : List M} {l : WriteLoop M W} → Reachable taken l → Reachable taken (round handler l)

  -- What is left to do makes of the sink what all messages make of a new one; a task that has ended
  -- has nothing left.
  record IsOnWay (taken : List M) (l : WriteLoop M W) : Type 0 where
    working :
        l.is_receiving ≡ true → write_loop handler taken w0 ≡ write_loop handler l.queue l.sink
    ended : l.is_receiving ≡ false → (l.queue ≡ []) × ((write_loop handler taken w0).1 ≡ l.sink)

  -- A loop that goes on behind others.
  abbrev behind : Bool × W → List M → Bool × W
  behind (true, w) ms = write_loop handler ms w
  behind (false, w) ms = (false, w)

  write_loop-append :
      (xs ys : List M) (w : W)
      → write_loop handler (xs ++ ys) w ≡ behind (write_loop handler xs w) ys
  unfolding write_loop
  write_loop-append [] ys w = refl
  write_loop-append (x ∷ xs) ys w = elim (Bool-cases (handler x w).0) [
    | inl e ↦ rw e (write_loop-append xs ys (handler x w).1)
    | inr e ↦ rw e
  ]

  send-IsOnWay :
      (taken : List M) (l : WriteLoop M W) (m : M)
      → IsOnWay taken l
      → (send m l).0 ≡ true
      → IsOnWay (taken ++ m ∷ []) (send m l).1
  unfolding send
  send-IsOnWay taken l m h s = elim (Bool-cases l.is_receiving) [
    | inl e ↦ rw e (record {
      working = λ _.
          write_loop-append taken (m ∷ []) w0
          ∙ ap (λ r. behind r (m ∷ [])) (h.working e)
          ∙ sym (write_loop-append l.queue (m ∷ []) l.sink);
      ended = λ f. cc;
    })
    | inr e ↦ let no : false ≡ true = rw e at s in absurd (cc)
  ]

  received-IsOnWay :
      (taken rest : List M) (r : Bool × W) (l : WriteLoop M W)
      → l.is_receiving ≡ true
      → write_loop handler taken w0 ≡ behind r rest
      → IsOnWay taken (received rest r l)
  unfolding received
  received-IsOnWay taken rest (true, w) l e h = record { working = λ _. h; ended = λ f. cc }
  received-IsOnWay taken rest (false, w) l e h = record {
    working = λ t. cc;
    ended = λ _. (refl, ap (λ (r : Bool × W). r.1) h);
  }

  write_loop-cons :
      (m : M) (rest : List M) (w : W) → write_loop handler (m ∷ rest) w ≡ behind (handler m w) rest
  unfolding write_loop
  write_loop-cons m rest w = elim (Bool-cases (handler m w).0) [ inl e ↦ rw e | inr e ↦ rw e ]

  next_round-IsOnWay :
      (taken queue : List M) (l : WriteLoop M W)
      → queue ≡ l.queue
      → l.is_receiving ≡ true
      → write_loop handler taken w0 ≡ write_loop handler queue l.sink
      → IsOnWay taken (next_round handler queue l)
  unfolding next_round
  next_round-IsOnWay taken [] l q e h = elim (Bool-cases l.has_senders) [
    | inl s ↦ rw s (record { working = λ _. rw (← q) h; ended = λ f. absurd (no (sym e ∙ f)) })
    | inr s ↦ rw s (record {
      working = λ t. cc;
      ended = λ _. (sym q, ap (λ (r : Bool × W). r.1) h ∙ (unfold write_loop in refl));
    })
  ]
    where
      no : ¬ (true ≡ false)
      no t = cc
  next_round-IsOnWay taken (m ∷ rest) l q e h =
      received-IsOnWay taken rest (handler m l.sink) l e (h ∙ write_loop-cons m rest l.sink)

  refused :
      (taken : List M) (l : WriteLoop M W) (m : M)
      → IsOnWay taken l
      → (send m l).0 ≡ false
      → IsOnWay taken (send m l).1
  unfolding send
  refused taken l m h s =
      if_cases (λ (r : Bool × WriteLoop M W). r.0 ≡ false → IsOnWay taken r.1) l.is_receiving _ _
        (λ e t. absurd (cc)) (λ e t. h) s

  worked : (taken : List M) (l : WriteLoop M W) → IsOnWay taken l → IsOnWay taken (round handler l)
  unfolding round
  worked taken l h =
      if_cases (IsOnWay taken) l.is_receiving _ _
        (λ e. next_round-IsOnWay taken l.queue l refl e (h.working e)) (λ e. h)

  dropped : (taken : List M) (l : WriteLoop M W) → IsOnWay taken l → IsOnWay taken (drop_senders l)
  unfolding drop_senders
  dropped taken l h = record { working = h.working; ended = h.ended }

  Reachable-IsOnWay : {taken : List M} {l : WriteLoop M W} → Reachable taken l → IsOnWay taken l
  unfolding spawn_write_loop
  Reachable-IsOnWay start = record { working = λ _. refl; ended = λ f. cc }
  Reachable-IsOnWay (takes {taken} {l} m r s) = send-IsOnWay taken l m (Reachable-IsOnWay r) s
  Reachable-IsOnWay (refuses {taken} {l} m r s) = refused taken l m (Reachable-IsOnWay r) s
  Reachable-IsOnWay (drops {taken} {l} r) = dropped taken l (Reachable-IsOnWay r)
  Reachable-IsOnWay (works {taken} {l} r) = worked taken l (Reachable-IsOnWay r)

  -- Rounds with nothing in between.
  abbrev pub rounds : ℕ → WriteLoop M W → WriteLoop M W
  rounds zero l = l
  rounds (suc n) l = rounds n (round handler l)

  rounds-Reachable :
      {taken : List M} (n : ℕ) {l : WriteLoop M W}
      → Reachable taken l
      → Reachable taken (rounds n l)
  rounds-Reachable zero r = r
  rounds-Reachable (suc n) {l} r = rounds-Reachable n {l = round handler l} (works r)

  -- A round leaves one message less, if there was one.
  received_shortens :
      (n : ℕ) (rest : List M) (r : Bool × W) (l : WriteLoop M W)
      → length rest ≤ n
      → length (received rest r l).queue ≤ n
  unfolding received
  received_shortens n rest (true, w) l h = h
  received_shortens n rest (false, w) l h = omega arith

  next_round_shortens :
      (n : ℕ) (queue : List M) (l : WriteLoop M W)
      → queue ≡ l.queue
      → length queue ≤ suc n
      → length (next_round handler queue l).queue ≤ n
  unfolding next_round
  next_round_shortens n [] l q few =
      if_cases (λ (k : WriteLoop M W). length k.queue ≤ n) l.has_senders _ _
        (λ e. omega (arith, ap length q)) (λ e. omega (arith, ap length q))
  next_round_shortens n (m ∷ rest) l q few =
      received_shortens n rest (handler m l.sink) l (omega arith)

  round_shortens :
      (n : ℕ) (l : WriteLoop M W)
      → length l.queue ≤ suc n
      → (l.is_receiving ≡ false → l.queue ≡ [])
      → length (round handler l).queue ≤ n
  unfolding round
  round_shortens n l few idle =
      if_cases (λ (k : WriteLoop M W). length k.queue ≤ n) l.is_receiving _ _
        (λ e. next_round_shortens n l.queue l refl few) (λ e. omega (arith, ap length (idle e)))

  works_off :
      (taken : List M) (n : ℕ) (l : WriteLoop M W)
      → Reachable taken l
      → length l.queue ≤ n
      → length (rounds n l).queue ≤ 0
  works_off taken zero l r few = few
  works_off taken (suc n) l r few =
      works_off taken n (round handler l) (works r)
        (round_shortens n l few (λ e. ((Reachable-IsOnWay r).ended e).0))

  nothing : (queue : List M) (w : W) → length queue ≤ 0 → write_loop handler queue w ≡ (true, w)
  unfolding write_loop
  nothing [] w few = refl
  nothing (m ∷ queue) w few = absurd (omega arith)

  done_sink :
      (taken : List M) (l : WriteLoop M W)
      → IsOnWay taken l
      → length l.queue ≤ 0
      → l.sink ≡ (write_loop handler taken w0).1
  done_sink taken l h few = elim (Bool-cases l.is_receiving) [
    | inl e ↦ sym (ap (λ (r : Bool × W). r.1) (h.working e ∙ nothing l.queue l.sink few))
    | inr e ↦ sym (h.ended e).1
  ]

  -- However messages, the drop of the senders and the rounds of the task interleave: as many rounds
  -- as messages are queued, or more, leave of the sink what handing over all messages that the channel
  -- has taken makes of a new one, one after the other and in order, up to the first that fails; and
  -- the queue is empty then.
  pub Reachable-written :
      {taken : List M} {l : WriteLoop M W} (n : ℕ)
      → Reachable taken l
      → length l.queue ≤ n
      → ((rounds n l).sink ≡ (write_loop handler taken w0).1) × ((rounds n l).queue ≡ [])
  Reachable-written {taken} {l} n r few =
      let off = works_off taken n l r few in
      (
        done_sink taken (rounds n l) (Reachable-IsOnWay (rounds-Reachable n r)) off,
        empty (rounds n l).queue off,
      )
    where
      empty : (q : List M) → length q ≤ 0 → q ≡ []
      empty [] h = refl
      empty (m ∷ q) h = absurd (omega arith)
