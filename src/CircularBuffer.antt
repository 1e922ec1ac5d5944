-- ===== src/CircularBuffer.antt =====
-- common/CircularBuffer.h: the last packets by time stamp, each owned by the buffer until it is found.
mod Tests
use conn.Common.{
  ℕ, zero, suc, ◌+◌, ◌-◌, ◌≤◌, ◌<◌, ◌≡◌, ◌≢◌, ◌⊎◌, refl, sym, ap, ap₂, ◌∙◌, false, List, [], Option,
  none, some, ◌==◌, if◌then◌else◌, arith, length, set, get_or, get_or-set_self, get_or-set_ne,
  replicate, length-set, Bool-cases, inl, inr,
}
use native.Mathlib.Decide.{dec_lt}
use mathlib.Core.Option

-- `SeqPacket` of CircularBuffer.h over the contents of a T: the pointer is `none` when it is null.
pub record SeqPacket {ℓ} (A : Type ℓ) : Type ℓ where
  pub ts : ℕ
  pub ptr : Option A

pub record CircularBuffer {ℓ} (A : Type ℓ) : Type ℓ where
  pub write_index : ℕ
  pub array : List (SeqPacket A)

module _ {ℓ} {A : Type ℓ} where
  -- `SeqPacket()`
  abbrev pub null_packet : SeqPacket A
  null_packet = record { ts = 0; ptr = none }

  -- What a move out of a packet leaves: the time stamp, and a null pointer.
  abbrev pub moved_from : SeqPacket A → SeqPacket A
  moved_from p = record p { ptr = none }

  -- The constructor of a buffer of `n` elements.
  unfoldable pub init : ℕ → CircularBuffer A
  init n = record { write_index = 0; array = replicate n null_packet }

  -- `update`: the buffer, and what is left of the packet that is moved in.
  unfoldable pub update : CircularBuffer A → SeqPacket A → CircularBuffer A × SeqPacket A
  update b p =
      let next = b.write_index + 1 in
      (
        record {
          write_index = if next == length b.array then 0 else next;
          array = set b.array b.write_index p;
        },
        moved_from p,
      )

  -- The loop of `find` over the elements from index `i` on, `n` rounds before the write index.
  pub find_loop : CircularBuffer A → ℕ → ℕ → ℕ → Option (SeqPacket A) × CircularBuffer A
  find_loop b ts i zero = (none, b)
  find_loop b ts i (suc n) =
      let rest = find_loop b ts (suc i) n in
      let p = get_or b.array i null_packet in
      if ts == p.ts then (some p, record b { array = set b.array i (moved_from p) }) else rest

  -- `find`: the packet is moved out of the buffer.
  unfoldable pub find : CircularBuffer A → ℕ → Option (SeqPacket A) × CircularBuffer A
  unfolding find_loop
  find b ts = find_loop b ts 0 b.write_index

  -- The write index is inside the array.
  abbrev pub IsValid : CircularBuffer A → Type 0
  IsValid b = b.write_index < length b.array

  abbrev pub nth : CircularBuffer A → ℕ → SeqPacket A
  nth b i = get_or b.array i null_packet

  -- No element from `lo` to below `hi` has the time stamp.
  abbrev pub NoneAt : CircularBuffer A → ℕ → ℕ → ℕ → Type 0
  NoneAt b ts lo hi = (j : ℕ) → lo ≤ j → j < hi → ts ≢ (nth b j).ts

  -- What a search from `lo` to below `hi` returns: nothing and the buffer as it is, or the first
  -- element with the time stamp, and the buffer with that element moved out.
  abbrev pub Search :
      CircularBuffer A → ℕ → ℕ → ℕ → Option (SeqPacket A) × CircularBuffer A → Type ℓ
  Search b ts lo hi (found, b') =
      ((found ≡ none) × (b' ≡ b) × NoneAt b ts lo hi)
      ⊎ ((k : ℕ) × ((lo ≤ k) × (k < hi) × (ts ≡ (nth b k).ts) × NoneAt b ts lo k)
          × (found ≡ some (nth b k))
          × (b' ≡ record b { array = set b.array k (moved_from (nth b k)) }))

  NoneAt-extend :
      (b : CircularBuffer A) (ts lo hi : ℕ)
      → ts ≢ (nth b lo).ts
      → NoneAt b ts (suc lo) hi
      → NoneAt b ts lo hi
  NoneAt-extend b ts lo hi miss rest j low high = elim (dec_lt lo j) [
    | yes past ↦ rest j (omega arith) high
    | no here ↦ let e : lo ≡ j = omega arith in rw e at miss
  ]

  find_loop-Search :
      (b : CircularBuffer A) (ts n i hi : ℕ) → i + n ≡ hi → Search b ts i hi (find_loop b ts i n)
  unfolding find_loop
  find_loop-Search b ts zero i hi e = inl (refl, refl, λ j low high. absurd (omega arith))
  find_loop-Search b ts (suc n) i hi e = elim (Bool-cases (ts == (nth b i).ts)) [
    | inl hit ↦ rw hit (
        inr (
          i,
          (omega arith, omega arith, ground arith, λ j low high. absurd (omega arith)),
          refl,
          refl,
        ))
    | inr miss ↦
        let differs : ts ≢ (nth b i).ts = ground arith in
        rw miss (elim (find_loop-Search b ts n (suc i) hi (omega arith)) [
          | inl (f, same, past) ↦ inl (f, same, NoneAt-extend b ts i hi differs past)
          | inr (k, (low, high, same, past), f, b') ↦
              inr (k, (omega arith, high, same, NoneAt-extend b ts i k differs past), f, b')
        ])
  ]

  -- `find` looks at the elements below the write index: it returns nothing and changes nothing where
  -- none of them has the time stamp, and otherwise moves the first that has it out of the buffer.
  pub find_lem : (b : CircularBuffer A) (ts : ℕ) → Search b ts 0 b.write_index (find b ts)
  unfolding find
  find_lem b ts = find_loop-Search b ts b.write_index 0 b.write_index (omega arith)

  find_at :
      (b : CircularBuffer A) (ts w : ℕ)
      → w < b.write_index
      → NoneAt b ts 0 w
      → ts ≡ (nth b w).ts
      → find b ts ≡ (some (nth b w), record b { array = set b.array w (moved_from (nth b w)) })
  find_at b ts w h fresh e = elim (find_lem b ts) [
    | inl (_, _, past) ↦ absurd (past w (omega arith) h e)
    | inr (k, (low, high, same, past), f, b') ↦ elim (dec_lt k w) [
      | yes before ↦ absurd (fresh k low before same)
      | no not_before ↦ elim (dec_lt w k) [
        | yes behind ↦ absurd (past w (omega arith) behind e)
        | no here ↦
            let at_w : k ≡ w = omega arith in ap₂ (λ x y. (x, y)) (rw at_w at f) (rw at_w at b')
      ]
    ]
  ]

  -- A packet that is put anywhere but in the last place is found by its time stamp, if no packet that
  -- `find` looks at has the same one, and it is moved out: its packet, and then a null pointer, are
  -- what two `find` calls return.
  pub find-update :
      (b : CircularBuffer A) (p : SeqPacket A)
      → b.write_index + 1 < length b.array
      → NoneAt b p.ts 0 b.write_index
      → let b1 = (update b p).0 in
        let (found, b2) = find b1 p.ts in
        ((update b p).1.ptr ≡ none) × (found ≡ some p) × ((find b2 p.ts).0 ≡ some (moved_from p))
  unfolding update
  find-update b p h fresh =
      let w = b.write_index in
      let room : (w + 1 == length b.array) ≡ false = ground arith in
      let xs = set b.array w p in
      let b1 : CircularBuffer A = record { write_index = w + 1; array = xs } in
      let there : nth b1 w ≡ p = get_or-set_self b.array w p null_packet (omega arith) in
      let ys = set xs w (moved_from (nth b1 w)) in
      let b2 : CircularBuffer A = record { write_index = w + 1; array = ys } in
      let empty : nth b2 w ≡ moved_from (nth b1 w) =
        get_or-set_self xs w (moved_from (nth b1 w)) null_packet
          (omega (arith, length-set b.array w p)) in
      let others1 : NoneAt b1 p.ts 0 w = λ j low high.
        rw (get_or-set_ne b.array w j p null_packet (λ e. omega arith)) (fresh j low high) in
      let others2 : NoneAt b2 p.ts 0 w = λ j low high.
        rw (get_or-set_ne xs w j (moved_from (nth b1 w)) null_packet (λ e. omega arith))
          (others1 j low high) in
      let first = find_at b1 p.ts w (omega arith) others1 (ap (λ q. q.ts) (sym there)) in
      let second = find_at b2 p.ts w (omega arith) others2 (rw (empty, there)) in
      rw (room, first) (refl, ap some there, rw second (ap some (empty ∙ ap moved_from there)))

  -- The packet put in the last place of the array hides all of them: the write index is then 0, and
  -- `find` returns nothing for any time stamp.
  pub find-update_last :
      (b : CircularBuffer A) (p : SeqPacket A) (ts : ℕ)
      → b.write_index + 1 ≡ length b.array
      → find (update b p).0 ts ≡ (none, (update b p).0)
  unfolding update find find_loop
  find-update_last b p ts h = ground arith
