-- ===== src/Transport/StaticClient/One.antt =====
-- What events do to the promises of the static client, up to the first `init_static_client` and from
-- there on.
use Prim.Native.String.{String}
use rust_muxio.Prelude.{
  ℕ, ◌≡◌, refl, sym, ap, ◌∙◌, subst, Option, none, some, List, [], ◌∷◌, Result, ok,
}
use rust_muxio.Prelude.Map.{get}
use rust_muxio.Transport.Program.{Program}
use rust_muxio.Transport.Wasm
use rust_muxio.Transport.Wasm.{RpcWasmClient}
use rust_muxio.Transport.StaticClient.{
  Page, Promise, called, running, settled, Export, with_static_client_async,
  static_muxio_read_bytes_uint8, static_muxio_handle_connect, static_muxio_handle_disconnect,
  settled_with, init_static_client,
}
use rust_muxio.Transport.StaticClient.Promises.{
  Event, inits, calls, begins, works, settles, finishes, set_promise, call_export, take_client,
  begin_promise, on_client, work_part, settle_promise, operation, finish_promise, on_thread,
  on_thread_all,
}
use rust_muxio.Transport.StaticClient.Life.{
  is_rejected, IsOnClient, IsOne, SameRejected, settled_with-is_rejected, settled_with-IsOnClient,
  put-IsOne, put-SameRejected, on_client_lem,
}

module _ {R S V N A P : Type 0} (program : Program R S (Unit {0}) V P) where
  -- What a turn does to the client, if anything.
  abbrev pub part_of :
      (RpcWasmClient R S V N → RpcWasmClient R S V N)
      → Option (Promise A)
      → RpcWasmClient R S V N
      → RpcWasmClient R S V N
  part_of f (some (running place with_static_client_async)) c = f c
  part_of f _ c = c

  abbrev pub operation_of : Option (Promise A) → RpcWasmClient R S V N → RpcWasmClient R S V N
  operation_of (some (running place (static_muxio_read_bytes_uint8 bytes))) c =
      Wasm.read_bytes program bytes c
  operation_of (some (running place static_muxio_handle_connect)) c = Wasm.handle_connect c
  operation_of (some (running place static_muxio_handle_disconnect)) c =
      Wasm.handle_disconnect program c
  operation_of _ c = c

  -- What an event makes of a client of its own: only the work of promises that have begun counts.
  abbrev pub effect :
      Event R S V N A → Page R S V N A → RpcWasmClient R S V N → RpcWasmClient R S V N
  effect (works n f) page c = part_of f (get n page.promises) c
  effect (finishes n) page c = operation_of (get n page.promises) c
  effect _ page c = c

  abbrev pub effects :
      List (Event R S V N A) → Page R S V N A → RpcWasmClient R S V N → RpcWasmClient R S V N
  effects [] page c = c
  effects (e ∷ es) page c = effects es (on_thread program e page) (effect e page c)

  -- Where there is one client, there is the same one behind a turn, and no promise is rejected.
  abbrev Keeps : Page R S V N A → Page R S V N A → RpcWasmClient R S V N → Type 0
  Keeps page page' c' = IsOne page' c' × SameRejected page page'

  put-Keeps :
      (n : ℕ) (p : Promise A) (page : Page R S V N A) (c : RpcWasmClient R S V N)
      → IsOnClient (some p)
      → is_rejected (some p) ≡ is_rejected (get n page.promises)
      → IsOne page c
      → Keeps page (set_promise n p page) c
  put-Keeps n p page c own same one = (put-IsOne n p page c own one, put-SameRejected n p page same)

  call_export-Keeps :
      (o : Option (Promise A)) (n : ℕ) (x : Export) (page : Page R S V N A)
      (c : RpcWasmClient R S V N)
      → get n page.promises ≡ o
      → IsOne page c
      → Keeps page (call_export o n x page) c
  unfolding call_export
  call_export-Keeps none n x page c e one =
      put-Keeps n (called x) page c tt (sym (ap is_rejected e)) one
  call_export-Keeps (some p) n x page c e one = (one, λ k. refl)

  begin_promise-Keeps :
      (o : Option (Promise A)) (n : ℕ) (page : Page R S V N A) (c : RpcWasmClient R S V N)
      → get n page.promises ≡ o
      → IsOne page c
      → Keeps page (begin_promise o n page) c
  unfolding begin_promise take_client
  begin_promise-Keeps none n page c e one = (one, λ k. refl)
  begin_promise-Keeps (some (called x)) n page c e one =
      subst (λ cell. Keeps page (set_promise n (take_client x cell) page) c) (sym one.in_cell)
        (put-Keeps n (running 0 x) page c refl (sym (ap is_rejected e)) one)
  begin_promise-Keeps (some (running place x)) n page c e one = (one, λ k. refl)
  begin_promise-Keeps (some (settled r)) n page c e one = (one, λ k. refl)

  -- A turn of a promise with a client, on the one client.
  on_client-Keeps :
      (f : RpcWasmClient R S V N → RpcWasmClient R S V N) (place : ℕ) (page : Page R S V N A)
      (c : RpcWasmClient R S V N)
      → place ≡ 0
      → IsOne page c
      → Keeps page (on_client f place page) (f c)
        × ((on_client f place page).promises ≡ page.promises)
  on_client-Keeps f place page c e one =
      let (one', same) = on_client_lem f page c one in
      subst
        (λ i.
          Keeps page (on_client f i page) (f c) × ((on_client f i page).promises ≡ page.promises))
        (sym e) ((one', λ k. ap (λ m. is_rejected (get k m)) same), same)

  work_part-Keeps :
      (f : RpcWasmClient R S V N → RpcWasmClient R S V N) (o : Option (Promise A)) (n : ℕ)
      (page : Page R S V N A) (c : RpcWasmClient R S V N)
      → get n page.promises ≡ o
      → IsOne page c
      → Keeps page (work_part f o page) (part_of f o c)
  unfolding work_part
  work_part-Keeps f none n page c e one = (one, λ k. refl)
  work_part-Keeps f (some (called x)) n page c e one = (one, λ k. refl)
  work_part-Keeps f (some (running place with_static_client_async)) n page c e one =
      (on_client-Keeps f place page c (subst IsOnClient e (one.on_it n)) one).0
  work_part-Keeps f (some (running place (static_muxio_read_bytes_uint8 b))) n page c e one =
      (one, λ k. refl)
  work_part-Keeps f (some (running place static_muxio_handle_connect)) n page c e one =
      (one, λ k. refl)
  work_part-Keeps f (some (running place static_muxio_handle_disconnect)) n page c e one =
      (one, λ k. refl)
  work_part-Keeps f (some (settled r)) n page c e one = (one, λ k. refl)

  settle_promise-Keeps :
      (r : Result String A) (o : Option (Promise A)) (n : ℕ) (page : Page R S V N A)
      (c : RpcWasmClient R S V N)
      → get n page.promises ≡ o
      → IsOne page c
      → Keeps page (settle_promise r o n page) c
  unfolding settle_promise
  settle_promise-Keeps r none n page c e one = (one, λ k. refl)
  settle_promise-Keeps r (some (called x)) n page c e one = (one, λ k. refl)
  settle_promise-Keeps r (some (running place with_static_client_async)) n page c e one =
      put-Keeps n (settled_with r) page c (settled_with-IsOnClient r)
        (settled_with-is_rejected r ∙ sym (ap is_rejected e)) one
  settle_promise-Keeps r (some (running place (static_muxio_read_bytes_uint8 b))) n page c e one =
      (one, λ k. refl)
  settle_promise-Keeps r (some (running place static_muxio_handle_connect)) n page c e one =
      (one, λ k. refl)
  settle_promise-Keeps r (some (running place static_muxio_handle_disconnect)) n page c e one =
      (one, λ k. refl)
  settle_promise-Keeps r (some (settled r')) n page c e one = (one, λ k. refl)

  -- The end of a function that is not a closure's.
  finished-Keeps :
      (f : RpcWasmClient R S V N → RpcWasmClient R S V N) (place : ℕ) (x : Export) (n : ℕ)
      (page : Page R S V N A) (c : RpcWasmClient R S V N)
      → get n page.promises ≡ some (running place x)
      → IsOne page c
      → Keeps page (set_promise n (settled (ok none)) (on_client f place page)) (f c)
  finished-Keeps f place x n page c e one =
      let ((one', same), promises) =
        on_client-Keeps f place page c (subst IsOnClient e (one.on_it n)) one in
      let (one'', same') =
        put-Keeps n (settled (ok none)) (on_client f place page) (f c) tt
          (sym (ap is_rejected (ap (get n) promises ∙ e))) one' in
      (one'', λ k. same' k ∙ same k)

  finish_promise-Keeps :
      (o : Option (Promise A)) (n : ℕ) (page : Page R S V N A) (c : RpcWasmClient R S V N)
      → get n page.promises ≡ o
      → IsOne page c
      → Keeps page (finish_promise program o n page) (operation_of o c)
  unfolding finish_promise operation
  finish_promise-Keeps none n page c e one = (one, λ k. refl)
  finish_promise-Keeps (some (called x)) n page c e one = (one, λ k. refl)
  finish_promise-Keeps (some (running place with_static_client_async)) n page c e one =
      (one, λ k. refl)
  finish_promise-Keeps (some (running place (static_muxio_read_bytes_uint8 b))) n page c e one =
      finished-Keeps (Wasm.read_bytes program b) place _ n page c e one
  finish_promise-Keeps (some (running place static_muxio_handle_connect)) n page c e one =
      finished-Keeps Wasm.handle_connect place _ n page c e one
  finish_promise-Keeps (some (running place static_muxio_handle_disconnect)) n page c e one =
      finished-Keeps (Wasm.handle_disconnect program) place _ n page c e one
  finish_promise-Keeps (some (settled r)) n page c e one = (one, λ k. refl)

  on_thread-Keeps :
      (e : Event R S V N A) (page : Page R S V N A) (c : RpcWasmClient R S V N)
      → IsOne page c
      → Keeps page (on_thread program e page) (effect e page c)
  unfolding on_thread init_static_client
  on_thread-Keeps (inits dispatcher) page c one =
      subst
        (λ cell.
          Keeps (record page { cell = cell })
            (init_static_client dispatcher (record page { cell = cell })).1 c)
        (sym one.in_cell)
        (record { in_cell = refl; one_client = one.one_client; on_it = one.on_it }, λ k. refl)
  on_thread-Keeps (calls n x) page c one =
      call_export-Keeps (get n page.promises) n x page c refl one
  on_thread-Keeps (begins n) page c one =
      begin_promise-Keeps (get n page.promises) n page c refl one
  on_thread-Keeps (works n f) page c one = work_part-Keeps f (get n page.promises) n page c refl one
  on_thread-Keeps (settles n r) page c one =
      settle_promise-Keeps r (get n page.promises) n page c refl one
  on_thread-Keeps (finishes n) page c one =
      finish_promise-Keeps (get n page.promises) n page c refl one

  pub on_thread_all-Keeps :
      (es : List (Event R S V N A)) (page : Page R S V N A) (c : RpcWasmClient R S V N)
      → IsOne page c
      → IsOne (on_thread_all program es page) (effects es page c)
        × SameRejected page (on_thread_all program es page)
  unfolding on_thread_all
  on_thread_all-Keeps [] page c one = (one, λ k. refl)
  on_thread_all-Keeps (e ∷ es) page c one =
      let (one', same) = on_thread-Keeps e page c one in
      let (one'', same') =
        on_thread_all-Keeps es (on_thread program e page) (effect e page c) one' in
      (one'', λ k. same' k ∙ same k)
