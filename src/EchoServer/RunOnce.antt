-- ===== src/EchoServer/RunOnce.antt =====
-- server_runonce.cpp: a server that accepts all its clients on one socket, which is never closed.
use conn.Common.{
  ℕ, suc, ◌≤◌, ◌≡◌, refl, sym, subst, ap, ◌∙◌, Bool, true, false, ◌||◌, List, [], ◌∷◌, ◌++◌,
  if◌then◌else◌, Bytes, length, take, arith,
}
use mathlib.Core.Bool.{false≢true}
use conn.EchoServer.{overlaid}

-- What the socket waits for, besides the next client.
pub data Waits : Type 0 where
  nothing : Waits
  reading : Waits
  writing : ℕ → Waits

-- `EchoServer`: whether `socket_` is open, and whether a client is accepted. `served` counts the clients
-- that were accepted, and `echoed` has what was sent.
pub record EchoServer : Type 0 where
  pub data_ : Bytes
  pub is_open : Bool
  pub accepts : Bool
  pub waits : Waits
  pub served : ℕ
  pub echoed : List Bytes

abbrev pub start_accept : EchoServer → EchoServer
start_accept s = record s { accepts = true }

abbrev pub start_read : EchoServer → EchoServer
start_read s = record s { waits = reading }

abbrev pub start_write : ℕ → EchoServer → EchoServer
start_write n s = record s { waits = writing n }

-- The constructor; `memory` is what the array holds.
abbrev pub start : Bytes → EchoServer
start memory = start_accept (record {
  data_ = memory;
  is_open = false;
  accepts = false;
  waits = nothing;
  served = 0;
  echoed = [];
})

-- The handler of `async_accept`.
unfoldable pub on_accept : Bool → EchoServer → EchoServer
on_accept ec s =
    start_accept (if ec then s else start_read (record s { is_open = true; served = suc s.served }))

-- The handler of `async_read_some`: where there is an error it does nothing.
unfoldable pub on_read : Bool → ℕ → EchoServer → EchoServer
on_read ec n s = if ec then record s { waits = nothing } else start_write n s

-- The handler of `async_write`.
unfoldable pub on_written : Bool → EchoServer → EchoServer
on_written ec s = if ec then record s { waits = nothing } else start_read s

pub data Event : Type 0 where
  accepted : Bool → Event
  read : Bytes → Event
  read_failed : Event
  written : Bool → Event

abbrev sent_of : Bool → ℕ → EchoServer → EchoServer
sent_of ec n s = if ec then s else record s { echoed = s.echoed ++ take n s.data_ ∷ [] }

-- An event of the socket that it does not wait for cannot be, and changes nothing. An accept on a socket
-- that is open ends with an error: `already_open`.
abbrev pub step_at : Event → EchoServer → Waits → EchoServer
step_at (accepted ec) s w = on_accept (s.is_open || ec) s
step_at (read message) s reading =
    on_read false (length message) (record s { data_ = overlaid message s.data_ })
step_at read_failed s reading = on_read true 0 s
step_at (written ec) s (writing n) = on_written ec (sent_of ec n s)
step_at _ s _ = s

unfoldable pub step : Event → EchoServer → EchoServer
unfolding on_accept on_read on_written
step e s = step_at e s s.waits

unfoldable pub run : List Event → EchoServer → EchoServer
unfolding step
run [] s = s
run (e ∷ es) s = run es (step e s)

abbrev pub Counts : ℕ → Bool → Type 0
Counts n true = n ≡ 1
Counts n false = n ≡ 0

-- The socket was opened for one client, or for none.
abbrev pub IsSingle : EchoServer → Type 0
IsSingle s = Counts s.served s.is_open

accept-IsSingle :
    (ec is_open : Bool) (s : EchoServer)
    → s.is_open ≡ is_open
    → IsSingle s
    → IsSingle (on_accept (is_open || ec) s)
unfolding on_accept
accept-IsSingle ec true s q k = k
accept-IsSingle true false s q k = k
accept-IsSingle false false s q k = ap suc (subst (Counts s.served) q k)

step-IsSingle : (e : Event) (s : EchoServer) (w : Waits) → IsSingle s → IsSingle (step_at e s w)
unfolding on_read on_written
step-IsSingle (accepted ec) s w k = accept-IsSingle ec s.is_open s refl k
step-IsSingle (read message) s nothing k = k
step-IsSingle (read message) s reading k = k
step-IsSingle (read message) s (writing n) k = k
step-IsSingle read_failed s nothing k = k
step-IsSingle read_failed s reading k = k
step-IsSingle read_failed s (writing n) k = k
step-IsSingle (written ec) s nothing k = k
step-IsSingle (written ec) s reading k = k
step-IsSingle (written true) s (writing n) k = k
step-IsSingle (written false) s (writing n) k = k

run-IsSingle : (es : List Event) (s : EchoServer) → IsSingle s → IsSingle (run es s)
unfolding run step
run-IsSingle [] s k = k
run-IsSingle (e ∷ es) s k = run-IsSingle es (step_at e s s.waits) (step-IsSingle e s s.waits k)

-- The first client was served and is gone: the socket is open, and nothing is read or written.
abbrev pub IsFinished : EchoServer → Type 0
IsFinished s = (s.is_open ≡ true) × (s.waits ≡ nothing)

abbrev pub Stays : EchoServer → EchoServer → Type 0
Stays s t = IsFinished t × (t.echoed ≡ s.echoed)

accept-Stays :
    (ec is_open : Bool) (s : EchoServer)
    → is_open ≡ true
    → IsFinished s
    → Stays s (on_accept (is_open || ec) s)
unfolding on_accept
accept-Stays ec true s q k = (k, refl)
accept-Stays ec false s q k = absurd (false≢true q)

step-Stays : (e : Event) (s : EchoServer) → IsFinished s → Stays s (step_at e s nothing)
step-Stays (accepted ec) s k = accept-Stays ec s.is_open s k.0 k
step-Stays (read message) s k = (k, refl)
step-Stays read_failed s k = (k, refl)
step-Stays (written ec) s k = (k, refl)

run-Stays : (es : List Event) (s : EchoServer) → IsFinished s → Stays s (run es s)
unfolding run step
run-Stays [] s k = (k, refl)
run-Stays (e ∷ es) s k =
    let (kept, alike) = subst (λ w. Stays s (step_at e s w)) (sym k.1) (step-Stays e s k) in
    let (kept', alike') = run-Stays es (step_at e s s.waits) kept in (kept', alike' ∙ alike)

served-bound : (n : ℕ) (b : Bool) → Counts n b → n ≤ 1
served-bound n true k = omega (arith, k)
served-bound n false k = omega (arith, k)

-- Whatever happens, no more than one client is ever served; and once it is gone, since a read or a write
-- of its failed, nothing is sent to any client any more. An accept on the socket that is open fails.
pub run-once :
    (memory : Bytes) (es : List Event)
    → let s = run es (start memory) in
      (s.served ≤ 1) × (IsFinished s → (more : List Event) → Stays s (run more s))
run-once memory es =
    let s = run es (start memory) in
    (
      served-bound s.served s.is_open (run-IsSingle es (start memory) refl),
      λ k more. run-Stays more s k,
    )
