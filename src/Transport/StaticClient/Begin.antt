-- ===== src/Transport/StaticClient/Begin.antt =====
-- The static client from the start of its thread: no promise finds a client up to the first
-- `init_static_client`, and all find the same one from there on.
use Prim.Native.String.{String}
use rust_muxio.Prelude.{
  ℕ, ◌≡◌, refl, sym, ◌∙◌, subst, Option, none, some, List, [], ◌∷◌, ◌++◌, Result, err, All,
}
use rust_muxio.Prelude.Map.{get, insert, remove}
use rust_muxio.Service.Endpoint.Reading.{EndpointState}
use rust_muxio.Transport.Program.{Program}
use rust_muxio.Transport.Wasm
use rust_muxio.Transport.Wasm.{RpcWasmClient}
use rust_muxio.Transport.StaticClient.{
  Page, Promise, called, running, settled, Export, missing, fresh, init_static_client,
}
use rust_muxio.Transport.StaticClient.Promises.{
  Event, inits, calls, begins, works, settles, finishes, set_promise, call_export, take_client,
  begin_promise, work_part, settle_promise, finish_promise, on_thread, on_thread_all,
}
use rust_muxio.Transport.StaticClient.Life.{
  IsOnClient, HasNoClient, IsBefore, IsEmpty, IsOne, SameRejected, get_put, missing-is_rejected,
}
use rust_muxio.Transport.StaticClient.One.{effects, on_thread_all-Keeps}

on_it : {A : Type 0} (o : Option (Promise A)) → HasNoClient o → IsOnClient o
on_it none h = tt
on_it (some (called x)) h = tt
on_it (some (running place x)) h = absurd h
on_it (some (settled r)) h = tt

module _ {R S V N A P : Type 0} (program : Program R S (Unit {0}) V P) where
  put-IsEmpty :
      (n : ℕ) (p : Promise A) (page : Page R S V N A)
      → HasNoClient (some p)
      → IsEmpty page
      → IsEmpty (set_promise n p page)
  put-IsEmpty n p page own empty = record {
    no_cell = empty.no_cell;
    no_clients = empty.no_clients;
    first_place = empty.first_place;
    not_running = get_put HasNoClient n p page.promises own empty.not_running;
  }

  -- No promise has a client to work on, so none works or is settled.
  no_turn :
      (o : Option (Promise A)) (n : ℕ) (page : Page R S V N A)
      (f : RpcWasmClient R S V N → RpcWasmClient R S V N) (r : Result String A)
      → get n page.promises ≡ o
      → IsEmpty page
      → (work_part f o page ≡ page)
        × (settle_promise r o n page ≡ page)
        × (finish_promise program o n page ≡ page)
  unfolding work_part settle_promise finish_promise
  no_turn none n page f r e empty = (refl, refl, refl)
  no_turn (some (called x)) n page f r e empty = (refl, refl, refl)
  no_turn (some (running place x)) n page f r e empty =
      absurd (subst HasNoClient e (empty.not_running n))
  no_turn (some (settled r')) n page f r e empty = (refl, refl, refl)

  call_export-IsEmpty :
      (o : Option (Promise A)) (n : ℕ) (x : Export) (page : Page R S V N A)
      → IsEmpty page
      → IsEmpty (call_export o n x page)
  unfolding call_export
  call_export-IsEmpty none n x page empty = put-IsEmpty n (called x) page tt empty
  call_export-IsEmpty (some p) n x page empty = empty

  begin_promise-IsEmpty :
      (o : Option (Promise A)) (n : ℕ) (page : Page R S V N A)
      → IsEmpty page
      → IsEmpty (begin_promise o n page)
  unfolding begin_promise take_client
  begin_promise-IsEmpty none n page empty = empty
  begin_promise-IsEmpty (some (called x)) n page empty =
      subst (λ cell. IsEmpty (set_promise n (take_client x cell) page)) (sym empty.no_cell)
        (put-IsEmpty n (settled (err (missing x))) page (missing-is_rejected A x) empty)
  begin_promise-IsEmpty (some (running place x)) n page empty = empty
  begin_promise-IsEmpty (some (settled r)) n page empty = empty

  on_thread-IsEmpty :
      (e : Event R S V N A) (page : Page R S V N A)
      → IsBefore e
      → IsEmpty page
      → IsEmpty (on_thread program e page)
  unfolding on_thread
  on_thread-IsEmpty (inits dispatcher) page h empty = absurd h
  on_thread-IsEmpty (calls n x) page h empty =
      call_export-IsEmpty (get n page.promises) n x page empty
  on_thread-IsEmpty (begins n) page h empty =
      begin_promise-IsEmpty (get n page.promises) n page empty
  on_thread-IsEmpty (works n f) page h empty =
      subst IsEmpty (sym (no_turn (get n page.promises) n page f (err "") refl empty).0) empty
  on_thread-IsEmpty (settles n r) page h empty =
      subst IsEmpty (sym (no_turn (get n page.promises) n page (λ c. c) r refl empty).1) empty
  on_thread-IsEmpty (finishes n) page h empty =
      subst IsEmpty (sym (no_turn (get n page.promises) n page (λ c. c) (err "") refl empty).2)
        empty

  on_thread_all-IsEmpty :
      (es : List (Event R S V N A)) (page : Page R S V N A)
      → All IsBefore es
      → IsEmpty page
      → IsEmpty (on_thread_all program es page)
  unfolding on_thread_all
  on_thread_all-IsEmpty [] page h empty = empty
  on_thread_all-IsEmpty (e ∷ es) page h empty =
      on_thread_all-IsEmpty es (on_thread program e page) h.1 (on_thread-IsEmpty e page h.0 empty)

  on_thread_all-append :
      (xs ys : List (Event R S V N A)) (page : Page R S V N A)
      → on_thread_all program (xs ++ ys) page
        ≡ on_thread_all program ys (on_thread_all program xs page)
  unfolding on_thread_all
  on_thread_all-append [] ys page = refl
  on_thread_all-append (x ∷ xs) ys page = on_thread_all-append xs ys (on_thread program x page)

  -- The first `init_static_client` makes the client.
  init_static_client-IsOne :
      (dispatcher : EndpointState R S (Unit {0}) V) (page : Page R S V N A)
      → IsEmpty page
      → IsOne (on_thread program (inits dispatcher) page) (Wasm.new dispatcher)
        × SameRejected page (on_thread program (inits dispatcher) page)
  unfolding on_thread init_static_client insert remove
  init_static_client-IsOne dispatcher page empty =
      rw (empty.no_cell, empty.no_clients, empty.first_place)
        (
          record {
            in_cell = refl;
            one_client = refl;
            on_it = λ n. on_it (get n page.promises) (empty.not_running n);
          },
          λ n. refl,
        )

  fresh-IsEmpty : IsEmpty (fresh {R = R} {S = S} {V = V} {N = N} {A = A})
  unfolding fresh get
  fresh-IsEmpty = record {
    no_cell = refl;
    no_clients = refl;
    first_place = refl;
    not_running = λ n. tt;
  }

  -- However calls, begins, awaits and ends of the promises of the static client interleave, from
  -- the start of its thread, the work of a client's own operation being done at once: up to the
  -- first init_static_client there is no client, and every promise that has begun is rejected for
  -- want of one; from there on there is one client, in the cell and in every promise that has taken
  -- one, which is what the turns of these promises have made, in the order in which they came, of
  -- the client that was made there; no promise that was not rejected by then is rejected for want
  -- of a client; and a further init_static_client neither replaces nor resets the client.
  pub on_thread_all-IsOne :
      (before behind : List (Event R S V N A)) (dispatcher : EndpointState R S (Unit {0}) V)
      → All IsBefore before
      → let early = on_thread_all program before fresh in
        let page = on_thread_all program (before ++ inits dispatcher ∷ behind) fresh in
        IsEmpty early
        × IsOne page (
            effects program behind
              (on_thread program (inits dispatcher) early)
              (Wasm.new dispatcher))
        × SameRejected early page
  unfolding on_thread_all
  on_thread_all-IsOne before behind dispatcher h =
      let early = on_thread_all program before fresh in
      let empty = on_thread_all-IsEmpty before fresh h fresh-IsEmpty in
      let (made, same) = init_static_client-IsOne dispatcher early empty in
      let (one, same') =
        on_thread_all-Keeps program behind (on_thread program (inits dispatcher) early)
          (Wasm.new dispatcher) made in
      subst
        (λ page.
          IsEmpty early
          × IsOne page (
              effects program behind (on_thread program (inits dispatcher) early)
                (Wasm.new dispatcher))
          × SameRejected early page)
        (sym (on_thread_all-append before (inits dispatcher ∷ behind) fresh))
        (empty, one, λ n. same' n ∙ same n)
