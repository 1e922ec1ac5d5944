-- ===== src/Sequencer/Tests.antt =====
-- A channel at concrete packets.
use conn.Common.{◌≡◌, refl, true, List, [], ◌∷◌, arith, inl, ℕ, Bool}
use conn.Sequencer.{incremental, init, is_in_seq, feed, Consecutive, feed-Consecutive}

abbrev packets : List (ℕ × Bool)
packets = (1, true) ∷ (2, true) ∷ (4, true) ∷ (3, true) ∷ (3, true) ∷ []

-- 4 leaves a gap and is refused, and the 3 that follows is taken once.
feed_runs : (feed (init 7 incremental) packets).0 ≡ 1 ∷ 2 ∷ 3 ∷ []
unfolding feed is_in_seq init
feed_runs = refl

feed_asks : (feed (init 7 incremental) packets).1.calls ≡ (7, 3) ∷ []
unfolding feed is_in_seq init
feed_asks = refl

feed-Consecutive_example :
    let (taken, s') = feed (init 7 incremental) ((1, true) ∷ (4, true) ∷ (2, true) ∷ []) in
    Consecutive 1 taken s'.expected_packet_num
unfolding init
feed-Consecutive_example =
    feed-Consecutive ((1, true) ∷ (4, true) ∷ (2, true) ∷ []) (init 7 incremental)
      (omega arith, (omega arith, (omega arith, tt))) (inl refl, (inl refl, (inl refl, tt)))
