-- ===== src/EchoServer/Quiet.antt =====
-- Clients are sent what they sent, if no message is read while another is still to be sent.
use conn.Common.{
  ℕ, zero, suc, ◌≡◌, refl, sym, subst, ap, ◌∙◌, Bool, true, false, List, [], ◌∷◌, ◌++◌, Option, leb,
  none, some, Bytes, take, Bool-cases, inl, inr, take-length_append, drop, length,
}
use mathlib.Core.Option
use mathlib.Core.List.{append-nil}
use conn.EchoServer.{
  Waits, reading, writing, sent, nothing, Client, Server, init, on_accept, on_read, on_written,
  buffer_size, handle_client, new_client, overlaid, heard_by, lost_by, sent_to, done_with,
  failed_with, with_clients, hear, lose, send, finish, fail, change, Event, accepted, read,
  read_failed, taken, written, write_failed, step,
}

abbrev pub Owed : Bytes → Client → Waits → Type 0
Owed buffer c (writing n) = c.received ≡ c.echoed ++ take n buffer ∷ []
Owed buffer c nothing = (rest : List Bytes) × (c.received ≡ c.echoed ++ rest)
Owed buffer c _ = c.received ≡ c.echoed

-- What was sent to a client is what was read from it, but for the message that is to be sent next, which
-- is at the front of the array, and for what was not sent because of an error.
abbrev pub IsEchoed : Bytes → Client → Type 0
IsEchoed buffer c = Owed buffer c c.waits

abbrev IsQuietIn : Waits → Type 0
IsQuietIn (writing n) = ⊥
IsQuietIn _ = Unit {0}

abbrev pub IsQuiet : Client → Type 0
IsQuiet c = IsQuietIn c.waits

abbrev pub All : (Client → Type 0) → List Client → Type 0
All P [] = Unit {0}
All P (c ∷ cs) = P c × All P cs

-- A message is read only where none is to be sent.
abbrev pub Allowed : Event → Server → Type 0
Allowed (read i message) s = All IsQuiet s.clients
Allowed _ s = Unit {0}

-- The servers that such events lead to.
pub data Reach : Server → Type 0 where
  at_start : (memory : Bytes) → Reach (init memory)
  after : (e : Event) (s s1 : Server) → Reach s → Allowed e s → step e s ≡ some s1 → Reach s1

-- A predicate on what an event gives, if the event can be.
abbrev pub Holds {ℓ} : {A : Type ℓ} → (A → Type 0) → Option A → Type 0
Holds R none = Unit {0}
Holds R (some a) = R a

Holds-map :
    {A : Type 0} {B : Type 0} (g : A → B) (R : B → Type 0) (o : Option A)
    → Holds (λ a. R (g a)) o
    → Holds R (Option.map g o)
Holds-map g R none h = tt
Holds-map g R (some a) h = h

Holds-mono :
    {A : Type 0} (R S : A → Type 0) (o : Option A) → ((a : A) → R a → S a) → Holds R o → Holds S o
Holds-mono R S none f h = tt
Holds-mono R S (some a) f h = f a h

All-mono :
    (P Q : Client → Type 0) (cs : List Client) → ((c : Client) → P c → Q c) → All P cs → All Q cs
All-mono P Q [] f k = tt
All-mono P Q (c ∷ cs) f (k, ks) = (f c k, All-mono P Q cs f ks)

All-append : (P : Client → Type 0) (cs ds : List Client) → All P cs → All P ds → All P (cs ++ ds)
All-append P [] ds k l = l
All-append P (c ∷ cs) ds (k, ks) l = (k, All-append P cs ds ks l)

All-zip : (P Q : Client → Type 0) (cs : List Client) → All P cs → All Q cs → All (λ c. P c × Q c) cs
All-zip P Q [] k l = tt
All-zip P Q (c ∷ cs) (k, ks) (l, ls) = ((k, l), All-zip P Q cs ks ls)

All-change :
    (P Q : Client → Type 0) (i : ℕ) (f : Client → Option Client) (cs : List Client)
    → ((c : Client) → P c → Holds Q (f c))
    → ((c : Client) → P c → Q c)
    → All P cs
    → Holds (All Q) (change i f cs)
unfolding change
All-change P Q i f [] on keep k = tt
All-change P Q zero f (c ∷ cs) on keep (k, ks) =
    Holds-map (λ d. d ∷ cs) (All Q) (f c)
      (Holds-mono Q (λ d. All Q (d ∷ cs)) (f c) (λ d q. (q, All-mono P Q cs keep ks)) (on c k))
All-change P Q (suc i) f (c ∷ cs) on keep (k, ks) =
    Holds-map (λ ds. c ∷ ds) (All Q) (change i f cs)
      (Holds-mono (All Q) (λ ds. All Q (c ∷ ds)) (change i f cs) (λ ds q. (keep c k, q))
        (All-change P Q i f cs on keep ks))

hear-IsEchoed :
    (message buffer : Bytes) (c : Client) (w : Waits)
    → Owed buffer c w
    → Holds (IsEchoed (overlaid message buffer)) (heard_by message c w)
unfolding on_read
hear-IsEchoed message buffer c reading k = elim (Bool-cases (leb (length message) buffer_size)) [
  | inl fits ↦
      rw (fits, take-length_append message (drop (length message) buffer))
        (ap (λ l. l ++ message ∷ []) k)
  | inr long ↦ rw long tt
]
hear-IsEchoed message buffer c (writing n) k = tt
hear-IsEchoed message buffer c sent k = tt
hear-IsEchoed message buffer c nothing k = tt

-- A client of which nothing is to be sent does not look at the array.
quiet-IsEchoed :
    (buffer other : Bytes) (c : Client) (w : Waits) → Owed buffer c w → IsQuietIn w → Owed other c w
quiet-IsEchoed buffer other c reading k q = k
quiet-IsEchoed buffer other c (writing n) k q = absurd q
quiet-IsEchoed buffer other c sent k q = k
quiet-IsEchoed buffer other c nothing k q = k

lose-IsEchoed :
    (buffer : Bytes) (c : Client) (w : Waits)
    → Owed buffer c w
    → Holds (IsEchoed buffer) (lost_by c w)
unfolding on_read
lose-IsEchoed buffer c reading k = ([], k ∙ sym (append-nil c.echoed))
lose-IsEchoed buffer c (writing n) k = tt
lose-IsEchoed buffer c sent k = tt
lose-IsEchoed buffer c nothing k = tt

send-IsEchoed :
    (buffer : Bytes) (c : Client) (w : Waits)
    → Owed buffer c w
    → Holds (IsEchoed buffer) (sent_to buffer c w)
send-IsEchoed buffer c reading k = tt
send-IsEchoed buffer c (writing n) k = k
send-IsEchoed buffer c sent k = tt
send-IsEchoed buffer c nothing k = tt

finish-IsEchoed :
    (buffer : Bytes) (c : Client) (w : Waits)
    → Owed buffer c w
    → Holds (IsEchoed buffer) (done_with c w)
unfolding on_written
finish-IsEchoed buffer c reading k = tt
finish-IsEchoed buffer c (writing n) k = tt
finish-IsEchoed buffer c sent k = k
finish-IsEchoed buffer c nothing k = tt

fail-IsEchoed :
    (buffer : Bytes) (c : Client) (w : Waits)
    → Owed buffer c w
    → Holds (IsEchoed buffer) (failed_with c w)
unfolding on_written
fail-IsEchoed buffer c reading k = tt
fail-IsEchoed buffer c (writing n) k = (take n buffer ∷ [], k)
fail-IsEchoed buffer c sent k = ([], k ∙ sym (append-nil c.echoed))
fail-IsEchoed buffer c nothing k = tt

abbrev pub AllEchoed : Server → Type 0
AllEchoed s = All (IsEchoed s.buffer) s.clients

-- An event of one client that leaves the array as it is.
change-AllEchoed :
    (i : ℕ) (f : Client → Option Client) (s : Server)
    → ((c : Client) → IsEchoed s.buffer c → Holds (IsEchoed s.buffer) (f c))
    → AllEchoed s
    → Holds AllEchoed (with_clients s (change i f s.clients))
change-AllEchoed i f s on k =
    Holds-map (λ l. record s { clients = l }) AllEchoed (change i f s.clients)
      (All-change (IsEchoed s.buffer) (IsEchoed s.buffer) i f s.clients on (λ c e. e) k)

accept-AllEchoed : (error : Bool) (s : Server) → AllEchoed s → AllEchoed (on_accept error s)
unfolding on_accept
accept-AllEchoed true s k = k
accept-AllEchoed false s k =
    All-append (IsEchoed s.buffer) s.clients (handle_client new_client ∷ []) k (refl, tt)

step-AllEchoed : (e : Event) (s : Server) → Allowed e s → AllEchoed s → Holds AllEchoed (step e s)
unfolding step hear lose send finish fail
step-AllEchoed (accepted error) s a k = accept-AllEchoed error s k
step-AllEchoed (read i message) s a k =
    let old = s.buffer in
    let new = overlaid message s.buffer in
    Holds-map (λ l. record s { buffer = new; clients = l }) AllEchoed
      (change i (hear message) s.clients)
      (All-change (λ c. IsEchoed old c × IsQuiet c) (IsEchoed new) i (hear message) s.clients
        (λ c h. hear-IsEchoed message old c c.waits h.0)
        (λ c h. quiet-IsEchoed old new c c.waits h.0 h.1)
        (All-zip (IsEchoed old) IsQuiet s.clients k a))
step-AllEchoed (read_failed i) s a k =
    change-AllEchoed i lose s (λ c. lose-IsEchoed s.buffer c c.waits) k
step-AllEchoed (taken i) s a k =
    change-AllEchoed i (send s.buffer) s (λ c. send-IsEchoed s.buffer c c.waits) k
step-AllEchoed (written i) s a k =
    change-AllEchoed i finish s (λ c. finish-IsEchoed s.buffer c c.waits) k
step-AllEchoed (write_failed i) s a k =
    change-AllEchoed i fail s (λ c. fail-IsEchoed s.buffer c c.waits) k

-- Whatever comes and fails, in whatever order, every client has been sent the messages that were read
-- from it, in order, each whole and once: but for one that is to be sent next, which is at the front of
-- the array, and for what was not sent because of an error. This is so as long as no message is read
-- while one of any client is still to be sent.
pub Reach-AllEchoed : (s : Server) → Reach s → AllEchoed s
Reach-AllEchoed _ (at_start memory) = tt
Reach-AllEchoed _ (after e s s1 r a h) =
    subst (Holds AllEchoed) h (step-AllEchoed e s a (Reach-AllEchoed s r))
