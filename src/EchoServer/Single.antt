-- ===== src/EchoServer/Single.antt =====
-- server_single.cpp: a server with one socket, which is made anew when a read fails.
use conn.Common.{
  ℕ, suc, ◌≡◌, refl, subst, sym, ap, ◌∙◌, Bool, true, false, List, [], ◌∷◌, ◌++◌, if◌then◌else◌,
  Bytes, length, take, drop, take-length_append,
}
use mathlib.Core.Bool.{false≢true}
use mathlib.Core.List.{append-nil}
use conn.EchoServer.{overlaid}

-- What the server waits for: a client, a message, or the end of a write of the first bytes of the array;
-- or nothing, so that it does nothing any more.
pub data Waits : Type 0 where
  accepting : Waits
  reading : Waits
  writing : ℕ → Waits
  stopped : Waits

-- `TcpServer` with the array, which is global. `sockets` counts the sockets that were made; `received`
-- and `echoed` have the messages of all clients.
pub record TcpServer : Type 0 where
  pub buffer : Bytes
  pub waits : Waits
  pub sockets : ℕ
  pub received : List Bytes
  pub echoed : List Bytes

-- `main`
abbrev pub start : Bytes → TcpServer
start memory = record {
  buffer = memory;
  waits = accepting;
  sockets = 1;
  received = [];
  echoed = [];
}

unfoldable pub handle_accept : Bool → TcpServer → TcpServer
handle_accept error s = record s { waits = if error then stopped else reading }

-- `handleRead`: where there is an error the socket is closed, and the next client accepted on another.
unfoldable pub handle_read : Bool → ℕ → TcpServer → TcpServer
handle_read error n s =
    if error
    then record s { waits = accepting; sockets = suc s.sockets }
    else record s { waits = writing n }

unfoldable pub handle_write : Bool → TcpServer → TcpServer
handle_write error s = record s { waits = if error then stopped else reading }

-- What happens: a client is accepted, a message is read, or a write ends; or one of these fails.
pub data Event : Type 0 where
  accepted : Bool → Event
  read : Bytes → Event
  read_failed : Event
  written : Bool → Event

-- A write that did not fail has sent the bytes.
abbrev sent_of : Bool → ℕ → TcpServer → TcpServer
sent_of error n s = if error then s else record s { echoed = s.echoed ++ take n s.buffer ∷ [] }

abbrev heard_of : Bytes → TcpServer → TcpServer
heard_of message s = record s {
  buffer = overlaid message s.buffer;
  received = s.received ++ message ∷ [];
}

-- An event that the server does not wait for cannot be, and changes nothing.
abbrev pub step_at : Event → TcpServer → Waits → TcpServer
step_at (accepted error) s accepting = handle_accept error s
step_at (read message) s reading = handle_read false (length message) (heard_of message s)
step_at read_failed s reading = handle_read true 0 s
step_at (written error) s (writing n) = handle_write error (sent_of error n s)
step_at _ s _ = s

unfoldable pub step : Event → TcpServer → TcpServer
unfolding handle_accept handle_read handle_write
step e s = step_at e s s.waits

unfoldable pub run : List Event → TcpServer → TcpServer
unfolding step
run [] s = s
run (e ∷ es) s = run es (step e s)

abbrev pub Owed : TcpServer → Waits → Type 0
Owed s (writing n) = s.received ≡ s.echoed ++ take n s.buffer ∷ []
Owed s stopped = (rest : List Bytes) × (s.received ≡ s.echoed ++ rest)
Owed s _ = s.received ≡ s.echoed

-- The messages that were sent are those that were read, but for the one that is being sent, or that could
-- not be.
abbrev pub IsEchoed : TcpServer → Type 0
IsEchoed s = Owed s s.waits

-- Whether it still waits for something.
abbrev pub IsServing : Waits → Type 0
IsServing stopped = ⊥
IsServing _ = Unit {0}

-- The accepting of a client and a write do not fail.
abbrev pub IsFine : Event → Type 0
IsFine (accepted error) = error ≡ false
IsFine (written error) = error ≡ false
IsFine _ = Unit {0}

abbrev pub AllFine : List Event → Type 0
AllFine [] = Unit {0}
AllFine (e ∷ es) = IsFine e × AllFine es

abbrev Follows : Event → Waits → TcpServer → Type 0
Follows e w s = IsEchoed s × (IsFine e → IsServing w → IsServing s.waits)

stays : (e : Event) (s : TcpServer) (w : Waits) → s.waits ≡ w → Owed s w → Follows e w s
stays e s w q k = (subst (Owed s) (sym q) k, λ _ v. subst IsServing (sym q) v)

step_at-Follows :
    (e : Event) (s : TcpServer) (w : Waits) → s.waits ≡ w → Owed s w → Follows e w (step_at e s w)
unfolding handle_accept handle_read handle_write
step_at-Follows (accepted true) s accepting q k =
    (([], k ∙ sym (append-nil s.echoed)), λ f. absurd (false≢true (sym f)))
step_at-Follows (accepted false) s accepting q k = (k, λ _ v. v)
step_at-Follows (read message) s reading q k = (
  rw (take-length_append message (drop (length message) s.buffer)) (ap (λ l. l ++ message ∷ []) k),
  λ _ v. v,
)
step_at-Follows read_failed s reading q k = (k, λ _ v. v)
step_at-Follows (written true) s (writing n) q k =
    ((take n s.buffer ∷ [], k), λ f. absurd (false≢true (sym f)))
step_at-Follows (written false) s (writing n) q k = (k, λ _ v. v)
step_at-Follows (accepted error) s reading q k = stays (accepted error) s reading q k
step_at-Follows (accepted error) s (writing n) q k = stays (accepted error) s (writing n) q k
step_at-Follows (accepted error) s stopped q k = stays (accepted error) s stopped q k
step_at-Follows (read message) s accepting q k = stays (read message) s accepting q k
step_at-Follows (read message) s (writing n) q k = stays (read message) s (writing n) q k
step_at-Follows (read message) s stopped q k = stays (read message) s stopped q k
step_at-Follows read_failed s accepting q k = stays read_failed s accepting q k
step_at-Follows read_failed s (writing n) q k = stays read_failed s (writing n) q k
step_at-Follows read_failed s stopped q k = stays read_failed s stopped q k
step_at-Follows (written error) s accepting q k = stays (written error) s accepting q k
step_at-Follows (written error) s reading q k = stays (written error) s reading q k
step_at-Follows (written error) s stopped q k = stays (written error) s stopped q k

run-IsEchoed : (es : List Event) (s : TcpServer) → IsEchoed s → IsEchoed (run es s)
unfolding run step
run-IsEchoed [] s k = k
run-IsEchoed (e ∷ es) s k =
    run-IsEchoed es (step_at e s s.waits) (step_at-Follows e s s.waits refl k).0

run-IsServing :
    (es : List Event) (s : TcpServer)
    → IsEchoed s
    → IsServing s.waits
    → AllFine es
    → IsServing (run es s).waits
unfolding run step
run-IsServing [] s k v fine = v
run-IsServing (e ∷ es) s k v (fine, all) =
    let (echoed, serves) = step_at-Follows e s s.waits refl k in
    run-IsServing es (step_at e s s.waits) echoed (serves fine v) all

step_at_stopped : (e : Event) (s : TcpServer) (w : Waits) → (¬ IsServing w) → step_at e s w ≡ s
step_at_stopped e s accepting n = absurd (n tt)
step_at_stopped e s reading n = absurd (n tt)
step_at_stopped e s (writing m) n = absurd (n tt)
step_at_stopped (accepted error) s stopped n = refl
step_at_stopped (read message) s stopped n = refl
step_at_stopped read_failed s stopped n = refl
step_at_stopped (written error) s stopped n = refl

run_stopped : (es : List Event) (s : TcpServer) → (¬ IsServing s.waits) → run es s ≡ s
unfolding run step
run_stopped [] s n = refl
run_stopped (e ∷ es) s n =
    let same = step_at_stopped e s s.waits n in ap (run es) same ∙ run_stopped es s n

-- Whatever happens, every message that was read is sent back, in order, whole and once, but for the one
-- that is being sent or could not be; a read that fails ends nothing. As long as no accept and no write
-- fails the server waits for something; where it does not, it never does anything again.
pub run-start :
    (memory : Bytes) (es : List Event)
    → let s = run es (start memory) in
      IsEchoed s
      × (AllFine es → IsServing s.waits)
      × ((¬ IsServing s.waits) → (more : List Event) → run more s ≡ s)
run-start memory es = (
  run-IsEchoed es (start memory) refl,
  run-IsServing es (start memory) refl tt,
  λ k more. run_stopped more (run es (start memory)) k,
)
