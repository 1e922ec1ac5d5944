-- ===== src/GapIdentifier/Promises.antt =====
-- Which packets are replayed and dropped, told apart by their numbers.
use conn.Common.{
  ℕ, suc, ◌+◌, ◌-◌, ◌^◌, ◌≤◌, ◌<◌, ◌≡◌, ◌≢◌, refl, sym, ap, ◌∙◌, true, false, List, [], ◌∷◌, ◌++◌,
  ltb, leb, ◌==◌, arith, length, inl, inr, Bool-cases, add64, map, subst,
}
use mathlib.Core.List.{append-nil, append_assoc}
use native.Mathlib.Decide.{dec_lt}
use conn.GapIdentifier.{
  Packet, Config, GapIdentifier, replay_event, drain_packet_to, drain_and_replay, replay,
}
use conn.GapIdentifier.Queue
use conn.GapIdentifier.Queue.{Waiting, replay_run, flush_run, skip_to}
use conn.GapIdentifier.Inv.{contents, Ascends, IsValid}
use conn.GapIdentifier.Slots.{view}
use conn.GapIdentifier.Refine.{replay-Shows, drain_and_replay-Shows, drain_packet_to-Shows}

-- The packets carry the numbers `n`, `n + 1`, and so on.
abbrev pub Numbers : ℕ → List Packet → Type 0
Numbers n [] = Unit {0}
Numbers n (p ∷ ps) = (p.seq_num ≡ n) × Numbers (suc n) ps

-- The packet in front, if there is one, does not carry `n`.
abbrev pub NotNext : ℕ → List Packet → Type 0
NotNext n [] = Unit {0}
NotNext n (p ∷ ps) = p.seq_num ≢ n

abbrev pub AllAbove : ℕ → List Packet → Type 0
AllAbove n [] = Unit {0}
AllAbove n (p ∷ ps) = (n < p.seq_num) × AllAbove n ps

abbrev pub AllBelow : ℕ → List Packet → Type 0
AllBelow n [] = Unit {0}
AllBelow n (p ∷ ps) = (p.seq_num < n) × AllBelow n ps

-- From the queue `q`, with number `n` expected, `run` was replayed and `rest` still waits.
pub record Ran (n : ℕ) (q : List Packet) (before after : Waiting) : Type 0 where
  pub run : List Packet
  pub rest : List Packet
  pub splits : q ≡ run ++ rest
  pub consecutive : Numbers n run
  pub next : after.expected ≡ n + length run
  pub stops : NotNext (n + length run) rest
  pub waits : after.queue ≡ rest
  pub calls : after.log ≡ before.log ++ map replay_event run
  pub same_flag : after.request_gap ≡ before.request_gap
  pub same_max : after.max_seen ≡ before.max_seen

Ascends-le : (lo : ℕ) (q : List Packet) (hi : ℕ) → Ascends lo q hi → lo ≤ hi
Ascends-le lo [] hi a = a
Ascends-le lo (p ∷ q) hi a = omega (arith, Ascends-le p.seq_num q hi a.1)

-- Nothing is replayed.
Ran-none :
    (n : ℕ) (q : List Packet) (w : Waiting)
    → w.expected ≡ n
    → w.queue ≡ q
    → NotNext n q
    → Ran n q w w
Ran-none n q w x e stop = record {
  run = [];
  rest = q;
  splits = refl;
  consecutive = tt;
  next = omega arith;
  stops = subst (λ k. NotNext k q) (omega arith) stop;
  waits = e;
  calls = sym (append-nil w.log);
  same_flag = refl;
  same_max = refl;
}

-- One more packet is replayed first.
abbrev replayed : Packet → List Packet → Waiting → Waiting
replayed p q w = record w {
  expected = add64 w.expected 1;
  queue = q;
  log = w.log ++ replay_event p ∷ [];
}

Ran-cons :
    (n : ℕ) (p : Packet) (q : List Packet) (w after : Waiting)
    → p.seq_num ≡ n
    → Ran (suc n) q (replayed p q w) after
    → Ran n (p ∷ q) w after
Ran-cons n p q w after e r = record {
  run = p ∷ r.run;
  rest = r.rest;
  splits = ap (◌∷◌ p) r.splits;
  consecutive = (e, r.consecutive);
  next = omega (arith, r.next);
  stops = subst (λ k. NotNext k r.rest) (omega arith) r.stops;
  waits = r.waits;
  calls = r.calls ∙ append_assoc w.log (replay_event p ∷ []) (map replay_event r.run);
  same_flag = r.same_flag;
  same_max = r.same_max;
}

replay_run-Ran :
    (n : ℕ) (q : List Packet) (w : Waiting) (lo hi : ℕ)
    → w.expected ≡ n
    → w.queue ≡ q
    → Ascends lo q hi
    → hi < 2 ^ 64 - 1
    → Ran n q w (replay_run q w)
unfolding replay_run
replay_run-Ran n [] w lo hi x e a h = Ran-none n [] w x e tt
replay_run-Ran n (p ∷ q) w lo hi x e a h = elim (Bool-cases (p.seq_num == w.expected)) [
  | inl same ↦
      let at : p.seq_num ≡ n = ground arith in
      let low : p.seq_num ≤ hi = Ascends-le p.seq_num q hi a.1 in
      rw same (
        Ran-cons n p q w _ at
          (replay_run-Ran (suc n) q (replayed p q w) p.seq_num hi (omega arith) refl a.1 h))
  | inr other ↦ rw other (Ran-none n (p ∷ q) w x e (ground arith))
]

-- Above the packet in front of a growing queue nothing is old: to flush it is to replay its run.
flush_run-eq-replay_run :
    (q : List Packet) (w : Waiting) (lo hi : ℕ)
    → Ascends lo q hi
    → hi < 2 ^ 64 - 1
    → w.expected ≤ suc lo
    → flush_run q w ≡ replay_run q w
unfolding flush_run replay_run
flush_run-eq-replay_run [] w lo hi a h x = refl
flush_run-eq-replay_run (p ∷ q) w lo hi a h x =
    ground (arith, flush_run-eq-replay_run q (replayed p q w) p.seq_num hi a.1 h)

Ran-queue :
    (n : ℕ) (q : List Packet) (w : Waiting) (q' : List Packet) (after : Waiting)
    → Ran n q (record w { queue = q' }) after
    → Ran n q w after
Ran-queue n q w q' after r = record {
  run = r.run;
  rest = r.rest;
  splits = r.splits;
  consecutive = r.consecutive;
  next = r.next;
  stops = r.stops;
  waits = r.waits;
  calls = r.calls;
  same_flag = r.same_flag;
  same_max = r.same_max;
}

-- From a growing queue, `old` was dropped unseen, then `run` was replayed.
pub record Flushed (n : ℕ) (q : List Packet) (before after : Waiting) : Type 0 where
  pub old : List Packet
  pub fresh : List Packet
  pub parts : q ≡ old ++ fresh
  pub older : AllBelow n old
  pub ran : Ran n fresh before after

flush_run-Flushed :
    (n : ℕ) (q : List Packet) (w : Waiting) (lo hi : ℕ)
    → w.expected ≡ n
    → w.queue ≡ q
    → Ascends lo q hi
    → hi < 2 ^ 64 - 1
    → Flushed n q w (flush_run q w)
unfolding flush_run
flush_run-Flushed n [] w lo hi x e a h = record {
  old = [];
  fresh = [];
  parts = refl;
  older = tt;
  ran = Ran-none n [] w x e tt;
}
flush_run-Flushed n (p ∷ q) w lo hi x e a h = elim (dec_lt p.seq_num n) [
  | yes low ↦
      let f = flush_run-Flushed n q (record w { queue = q }) p.seq_num hi x refl a.1 h in
      record {
        old = p ∷ f.old;
        fresh = f.fresh;
        parts = ap (◌∷◌ p) f.parts;
        older = (low, f.older);
        ran =
            let t : ltb p.seq_num w.expected ≡ true = ground arith in
            rw t (Ran-queue n f.fresh w q _ f.ran);
      }
  | no high ↦ record {
    old = [];
    fresh = p ∷ q;
    parts = refl;
    older = tt;
    ran =
        rw (flush_run-eq-replay_run (p ∷ q) w (p.seq_num - 1) hi (omega arith, a.1) h (omega arith))
          (replay_run-Ran n (p ∷ q) w lo hi x e a h);
  }
]

-- `replayPacket(n)` replays, in order, exactly the packets that carry `n`, `n + 1`, … without a hole,
-- and expects the number behind them; the packet then in front, if there is one, does not carry it.
-- The others keep waiting. A gap request is wanted again, and if packets wait the client is asked
-- once, from the expected number to the first that waits. The largest number seen must be below
-- 2 ^ 64 - 1.
pub replay-Ran :
    (cfg : Config) (g : GapIdentifier) (n : ℕ)
    → IsValid g
    → g.max_seq_num < 2 ^ 64 - 1
    → (after : Waiting) × Ran n
        (contents g)
        (record (view g) { expected = n; request_gap = true })
        after
      × (view (replay cfg g n) ≡ Queue.ask_head cfg after.queue after)
      × IsValid (replay cfg g n)
replay-Ran cfg g n v h =
    let start : Waiting = record (view g) { expected = n; request_gap = true } in
    let (v', e) = replay-Shows cfg g n v in
    (
      replay_run (contents g) start,
      replay_run-Ran n (contents g) start 0 g.max_seq_num refl refl v.ascending h,
      unfold Queue.replay in e,
      v',
    )

-- `drainAndReplay` drops the waiting packets below the expected number, replays those that carry it
-- and the next ones without a hole, and leaves the others waiting; the client is asked nothing. The
-- largest number seen must be below 2 ^ 64 - 1.
pub drain_and_replay-Flushed :
    (g : GapIdentifier)
    → IsValid g
    → g.max_seq_num < 2 ^ 64 - 1
    → Flushed g.expected_seq_num (contents g) (view g) (view (drain_and_replay g))
      × IsValid (drain_and_replay g)
drain_and_replay-Flushed g v h =
    let (v', e) = drain_and_replay-Shows g v in
    (
      rw e (
          flush_run-Flushed g.expected_seq_num (contents g) (view g) 0 g.max_seq_num refl refl
            v.ascending h),
      v',
    )

Ascends-AllAbove : (n lo : ℕ) (q : List Packet) (hi : ℕ) → n < lo → Ascends lo q hi → AllAbove n q
Ascends-AllAbove n lo [] hi h a = tt
Ascends-AllAbove n lo (p ∷ q) hi h a =
    (omega arith, Ascends-AllAbove n p.seq_num q hi (omega arith) a.1)

skip_to-Above :
    (n : ℕ) (q : List Packet) (lo hi : ℕ)
    → Ascends lo q hi
    → (old : List Packet) × (q ≡ old ++ skip_to n q)
      × AllBelow (suc n) old
      × AllAbove n (skip_to n q)
unfolding skip_to
skip_to-Above n [] lo hi a = ([], refl, tt, tt)
skip_to-Above n (p ∷ q) lo hi a = elim (dec_lt n p.seq_num) [
  | yes above ↦
      let t : leb p.seq_num n ≡ false = ground arith in
      rw t ([], refl, tt, (above, Ascends-AllAbove n p.seq_num q hi above a.1))
  | no below ↦
      let t : leb p.seq_num n ≡ true = ground arith in
      let (old, e, b, c) = skip_to-Above n q p.seq_num hi a.1 in
      rw t (p ∷ old, ap (◌∷◌ p) e, (omega arith, b), c)
]

-- `drainPacket(n)` drops exactly the waiting packets with numbers up to `n`: they are the front of
-- the queue, and all that keep waiting have larger ones. No other state that the client sees changes.
pub drain_packet_to-Above :
    (g : GapIdentifier) (n : ℕ)
    → IsValid g
    → let g' = drain_packet_to g n in
      ((old : List Packet) × (contents g ≡ old ++ contents g') × AllBelow (suc n) old)
      × AllAbove n (contents g')
      × (view g' ≡ record (view g) { queue = contents g' })
      × IsValid g'
drain_packet_to-Above g n v =
    let (v', e) = drain_packet_to-Shows g n v in
    let q : contents (drain_packet_to g n) ≡ skip_to n (contents g) = ap Waiting.queue e in
    let (old, parts, below, above) = skip_to-Above n (contents g) 0 g.max_seq_num v.ascending in
    ((old, rw q parts, below), rw q above, e ∙ ap (λ r. record (view g) { queue = r }) (sym q), v')
