-- ===== src/GapIdentifier/Inv.antt =====
-- The invariant of the circular array, and that every operation keeps it.
use conn.Common.{ℕ, ◌+◌, ◌^◌, ◌≤◌, ◌<◌, ◌≡◌, refl, Bool, List, [], ◌∷◌, ◌++◌, arith, drop}
use conn.Common.Window.{window}
use conn.GapIdentifier.{Packet, Event, GapIdentifier, init, get_index, rounds}

-- The packets that wait, oldest first.
abbrev pub contents : GapIdentifier → List Packet
contents g = window g.slots (g.max_index + 1) g.read_index (rounds g)

-- Numbers above `lo` that grow from packet to packet and end at or below `hi`.
abbrev pub Ascends : ℕ → List Packet → ℕ → Type 0
Ascends lo [] hi = lo ≤ hi
Ascends lo (p ∷ ps) hi = (lo < p.seq_num) × Ascends p.seq_num ps hi

-- The indices have not wrapped, and are at most the size of the array apart.
pub record IsInRange (g : GapIdentifier) : Type 0 where
  pub small : g.max_index + 1 < 2 ^ 32
  pub write_small : g.write_index < 2 ^ 32
  pub ordered : g.read_index ≤ g.write_index
  pub not_over : g.write_index ≤ g.read_index + (g.max_index + 1)

-- Every slot that holds no waiting packet has number 0.
abbrev pub SpareZero : GapIdentifier → Type 0
SpareZero g =
    (k : ℕ)
    → g.write_index ≤ k
    → k < g.read_index + (g.max_index + 1)
    → (g.slots (get_index g k)).seq_num ≡ 0

pub record IsValid (g : GapIdentifier) : Type 0 where
  pub range : IsInRange g
  pub spare : SpareZero g
  pub ascending : Ascends 0 (contents g) g.max_seq_num

pub Ascends-append :
    (lo : ℕ) (ps : List Packet) (hi : ℕ) (p : Packet)
    → Ascends lo ps hi
    → hi < p.seq_num
    → Ascends lo (ps ++ p ∷ []) p.seq_num
Ascends-append lo [] hi p a h = omega arith
Ascends-append lo (q ∷ ps) hi p a h = (a.0, Ascends-append q.seq_num ps hi p a.1 h)

pub Ascends-weaken :
    (lo lo' : ℕ) (ps : List Packet) (hi : ℕ) → lo' ≤ lo → Ascends lo ps hi → Ascends lo' ps hi
Ascends-weaken lo lo' [] hi h a = omega arith
Ascends-weaken lo lo' (p ∷ ps) hi h a = (omega arith, a.1)

pub Ascends-drop :
    (lo : ℕ) (ps : List Packet) (hi : ℕ) → Ascends lo ps hi → Ascends lo (drop 1 ps) hi
Ascends-drop lo [] hi a = a
Ascends-drop lo (p ∷ ps) hi a = Ascends-weaken p.seq_num lo ps hi (omega arith) a.1

-- The invariant speaks of the array alone.
pub IsValid-other :
    {g : GapIdentifier} (expected packet : ℕ) (flag : Bool) (log : List Event)
    → IsValid g
    → IsValid (record g {
      expected_seq_num = expected;
      packet_num = packet;
      request_gap = flag;
      log = log;
    })
IsValid-other expected packet flag log v = record {
  range = record {
    small = v.range.small;
    write_small = v.range.write_small;
    ordered = v.range.ordered;
    not_over = v.range.not_over;
  };
  spare = v.spare;
  ascending = v.ascending;
}

-- A new GapIdentifier of a positive size below 2 ^ 32 is valid and empty.
pub init-IsValid :
    (size : ℕ) → 0 < size → size < 2 ^ 32 → IsValid (init size) × (contents (init size) ≡ [])
unfolding init
init-IsValid size h k =
    (record { range = omega arith; spare = λ k a b. refl; ascending = omega arith }, refl)
