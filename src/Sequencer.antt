-- ===== src/Sequencer.antt =====
-- common/Sequencer.h: the packet numbers of a channel, and the gaps found between them.
mod Tests
use conn.Common.{
  ℕ, ◌+◌, ◌-◌, ◌%◌, ◌^◌, ◌≤◌, ◌<◌, ◌≡◌, refl, Bool, true, false, ◌&&◌, not, List, [], ◌∷◌, ◌++◌,
  ltb, ◌==◌, if◌then◌else◌, add64, sub64, arith, Bool-cases, inl, inr, ltb, ◌⊎◌,
}

pub record PacketGap : Type 0 where
  pub start_gap_packet_num : ℕ
  pub end_gap_packet_num : ℕ

pub data FeedType : Type 0 where
  incremental repeat : FeedType

-- `calls` are the calls of `m_callback`, each a channel and the packet that it is to ask for.
pub record Sequencer : Type 0 where
  pub expected_packet_num : ℕ
  pub channel_id : ℕ
  pub mode : FeedType
  pub packet_gaps : List PacketGap
  pub calls : List (ℕ × ℕ)

unfoldable pub init : ℕ → FeedType → Sequencer
init channel_id mode = record {
  expected_packet_num = 1;
  channel_id = channel_id;
  mode = mode;
  packet_gaps = [];
  calls = [];
}

unfoldable pub is_duplicate : Sequencer → ℕ → Bool
is_duplicate s packet_num = ltb packet_num s.expected_packet_num

abbrev pub repeats : FeedType → Bool
repeats repeat = true
repeats incremental = false

-- The gap that is noted: two uint32_t, cut from the 64-bit numbers.
abbrev pub gap_before : Sequencer → ℕ → PacketGap
gap_before s packet_num = record {
  start_gap_packet_num = s.expected_packet_num % 2 ^ 32;
  end_gap_packet_num = sub64 packet_num 1 % 2 ^ 32;
}

unfoldable pub is_in_seq : Sequencer → ℕ → Bool → Bool × Sequencer
is_in_seq s packet_num callback_needed =
    if repeats s.mode && not (s.expected_packet_num == packet_num)
    then (false, s)
    else if ltb packet_num s.expected_packet_num
    then (false, s)
    else if not (s.expected_packet_num == packet_num) && callback_needed
    then (
      false,
      record s {
        packet_gaps = s.packet_gaps ++ gap_before s packet_num ∷ [];
        calls = s.calls ++ (s.channel_id, s.expected_packet_num) ∷ [];
      },
    )
    else (true, record s { expected_packet_num = add64 packet_num 1 })

-- `resetSeqNo()` and `resetSeqNo(seq_num)`
abbrev pub reset_seq_no : Sequencer → Sequencer
reset_seq_no s = record s { expected_packet_num = 1 }

abbrev pub reset_seq_no_to : Sequencer → ℕ → Sequencer
reset_seq_no_to s seq_num = record s { expected_packet_num = seq_num }

-- The packets of a feed that are taken, when each is tried in turn, and the sequencer left behind.
unfoldable pub feed : Sequencer → List (ℕ × Bool) → List ℕ × Sequencer
feed s [] = ([], s)
feed s ((n, wanted) ∷ ns) =
    let (taken, s1) = is_in_seq s n wanted in
    let (rest, s2) = feed s1 ns in (if taken then n ∷ rest else rest, s2)

-- Numbers that ascend, from at least `lo` to below `hi`.
abbrev pub Ascending : ℕ → List ℕ → ℕ → Type 0
Ascending lo [] hi = lo ≤ hi
Ascending lo (n ∷ ns) hi = (lo ≤ n) × Ascending (n + 1) ns hi

-- The numbers from `lo` to below `hi`, each once and in order.
abbrev pub Consecutive : ℕ → List ℕ → ℕ → Type 0
Consecutive lo [] hi = lo ≡ hi
Consecutive lo (n ∷ ns) hi = (lo ≡ n) × Consecutive (n + 1) ns hi

abbrev AllBelow : List (ℕ × Bool) → Type 0
AllBelow [] = Unit {0}
AllBelow ((n, wanted) ∷ ns) = (n + 1 < 2 ^ 64) × AllBelow ns

-- Every packet is tried with the callback, or the channel repeats.
abbrev Strict : FeedType → List (ℕ × Bool) → Type 0
Strict mode [] = Unit {0}
Strict mode ((n, wanted) ∷ ns) = ((wanted ≡ true) ⊎ (repeats mode ≡ true)) × Strict mode ns

-- One packet: what is taken raises the expected number to one above its own, and anything else
-- leaves it as it is.
is_in_seq-step :
    (s : Sequencer) (n : ℕ) (wanted : Bool)
    → n + 1 < 2 ^ 64
    → let (taken, s1) = is_in_seq s n wanted in
      (s1.mode ≡ s.mode)
      × (taken ≡ true → (s.expected_packet_num ≤ n) × (s1.expected_packet_num ≡ n + 1))
      × (taken ≡ false → s1.expected_packet_num ≡ s.expected_packet_num)
unfolding is_in_seq
is_in_seq-step s n wanted h = ground arith

is_in_seq-strict :
    (s : Sequencer) (n : ℕ) (wanted : Bool)
    → (wanted ≡ true) ⊎ (repeats s.mode ≡ true)
    → (is_in_seq s n wanted).0 ≡ true
    → s.expected_packet_num ≡ n
unfolding is_in_seq
is_in_seq-strict s n wanted h d = ground arith

-- Whatever the mode and the callbacks, the packets taken from a feed have ascending numbers, from the
-- expected one to below the next expected one: none is taken twice.
pub feed-Ascending :
    (ns : List (ℕ × Bool)) (s : Sequencer)
    → AllBelow ns
    → let (taken, s') = feed s ns in Ascending s.expected_packet_num taken s'.expected_packet_num
unfolding feed
feed-Ascending [] s b = omega arith
feed-Ascending ((n, wanted) ∷ ns) s (b, bs) =
    let (_, up, same) = is_in_seq-step s n wanted b in
    let rest = feed-Ascending ns (is_in_seq s n wanted).1 bs in
    elim (Bool-cases (is_in_seq s n wanted).0) [
      | inl took ↦ let (low, next) = up took in rw took (low, rw next at rest)
      | inr left ↦ rw left (rw (same left) at rest)
    ]

-- Where every packet is tried with the callback, or the channel repeats, the packets taken from a feed
-- are consecutive, from the expected one to just below the next expected one: none is skipped. No number
-- of a packet is 2 ^ 64 - 1 or more.
pub feed-Consecutive :
    (ns : List (ℕ × Bool)) (s : Sequencer)
    → AllBelow ns
    → Strict s.mode ns
    → let (taken, s') = feed s ns in Consecutive s.expected_packet_num taken s'.expected_packet_num
unfolding feed
feed-Consecutive [] s b k = refl
feed-Consecutive ((n, wanted) ∷ ns) s (b, bs) (k, ks) =
    let (kept, up, same) = is_in_seq-step s n wanted b in
    let rest = feed-Consecutive ns (is_in_seq s n wanted).1 bs (rw kept ks) in
    elim (Bool-cases (is_in_seq s n wanted).0) [
      | inl took ↦
          let (_, next) = up took in rw took (is_in_seq-strict s n wanted k took, rw next at rest)
      | inr left ↦ rw left (rw (same left) at rest)
    ]
