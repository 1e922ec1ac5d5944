-- ===== src/CircularBuffer/Tests.antt =====
-- A buffer of three elements.
use conn.Common.{ℕ, ◌+◌, ◌≡◌, refl, none, some, [], ◌∷◌, arith}
use conn.CircularBuffer.{
  SeqPacket, CircularBuffer, null_packet, moved_from, init, update, find, nth, find-update,
}

abbrev packet : ℕ → SeqPacket ℕ
packet n = record { ts = n; ptr = some (10 + n) }

abbrev two : CircularBuffer ℕ
two = record { write_index = 2; array = packet 5 ∷ packet 6 ∷ null_packet ∷ [] }

update_runs : (update (update (init 3) (packet 5)).0 (packet 6)).0 ≡ two
unfolding init update
update_runs = refl

abbrev one : CircularBuffer ℕ
one = record { write_index = 1; array = packet 5 ∷ null_packet ∷ null_packet ∷ [] }

find-update_example :
    let b1 = (update one (packet 6)).0 in
    let (found, b2) = find b1 6 in
    ((update one (packet 6)).1.ptr ≡ none)
    × (found ≡ some (packet 6))
    × ((find b2 6).0 ≡ some (moved_from (packet 6)))
find-update_example =
    find-update one (packet 6) (omega arith) (λ j low high e. differs j (omega arith) e)
  where
    differs : (j : ℕ) → j ≡ 0 → ¬ (6 ≡ (nth one j).ts)
    differs j first = rw first (λ e. omega arith)
