-- ===== src/Transport/IpcServer/Serving/History.antt =====
-- The events of a server that tell of one of its connections.
use rust_muxio.Prelude.{
  ℕ, ◌+◌, ◌<◌, ◌≤◌, ◌≡◌, refl, ◌∙◌, true, false, Option, none, some, List, [], ◌∷◌, ◌++◌, arith,
  ltb, ◌==◌, if◌then◌else◌,
}
use rust_muxio.Transport.IpcServer.{RpcIpcServerEvent, client_connected, client_disconnected}

-- The events that tell of a connection.
abbrev number_of : RpcIpcServerEvent → ℕ
number_of (client_connected i) = i
number_of (client_disconnected i) = i

unfoldable pub told : ℕ → List RpcIpcServerEvent → List RpcIpcServerEvent
told id [] = []
told id (e ∷ es) = let rest = told id es in if number_of e == id then e ∷ rest else rest

told_behind :
    (id : ℕ) (es : List RpcIpcServerEvent) (e : RpcIpcServerEvent)
    → told id (es ++ e ∷ []) ≡ (if number_of e == id then told id es ++ e ∷ [] else told id es)
unfolding told
told_behind id [] e = refl
told_behind id (x ∷ es) e = ground (arith, told_behind id es e)

pub told_own :
    (id : ℕ) (es : List RpcIpcServerEvent) (e : RpcIpcServerEvent)
    → (number_of e == id) ≡ true
    → told id (es ++ e ∷ []) ≡ told id es ++ e ∷ []
told_own id es e same = told_behind id es e ∙ rw same refl

pub told_other :
    (id : ℕ) (es : List RpcIpcServerEvent) (e : RpcIpcServerEvent)
    → (number_of e == id) ≡ false
    → told id (es ++ e ∷ []) ≡ told id es
told_other id es e other = told_behind id es e ∙ rw other refl

-- What is told of the connection with a number, where `next` is the next: its connect while it is
-- there, and its disconnect behind that when it is not there any more.
abbrev pub history : {A : Type 0} → ℕ → ℕ → Option A → List RpcIpcServerEvent
history id next (some c) = client_connected id ∷ []
history id next none =
    if id == 0
    then []
    else if ltb id next
    then client_connected id ∷ client_disconnected id ∷ []
    else []

pub history_others :
    {A : Type 0} (id next : ℕ) (c : Option A)
    → (next == id) ≡ false
    → history id (next + 1) c ≡ history id next c
history_others id next none ne = ground (arith, ne)
history_others id next (some c) ne = refl

pub history_first : (A : Type 0) (next : ℕ) → history {A = A} next next none ≡ []
history_first A next = ground arith

pub history_ended :
    (A : Type 0) (id next : ℕ)
    → 1 ≤ id
    → id < next
    → history {A = A} id next none ≡ client_connected id ∷ client_disconnected id ∷ []
history_ended A id next some_number below = ground arith
