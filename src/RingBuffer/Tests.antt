-- ===== src/RingBuffer/Tests.antt =====
-- The ring of common/RingBuffer.cpp at concrete values.
use conn.Common.{pos, ◌+◌, ◌%◌, ◌≤◌, ◌≡◌, refl, true, some, [], ◌∷◌, arith}
use conn.NotifierFd.{closed, init_fd}
use conn.RingBuffer.{
  RingBuffer, Os, init, alloc, page_up, read_buffer, write_buffer, write_buffer_loads,
  advance_write, advance_read, store_bytes,
}
use conn.RingBuffer.Inv.{IsValid, unread, room}
use conn.RingBuffer.Refine.{contents, fill}
use conn.RingBuffer.Run.{put, get, run, IsFifo, run-IsFifo}
use conn.RingBuffer.Race.{write_buffer_torn}
use conn.RingBuffer.Alloc.{alloc-IsValid}

-- Four cells, full: the bytes 10 to 13 at the addresses 3 to 6.
abbrev full : RingBuffer
full = record {
  mapped = true;
  cells = λ i. 10 + (i + 1) % 4;
  capacity = 4;
  read_idx = 3;
  write_idx = 7;
  notifier = closed;
}

abbrev half : RingBuffer
half = record full { write_idx = 5 }

abbrev linux : Os
linux = record {
  page_size = 4096;
  eventfd = pos 5;
  mkstemp_ok = true;
  unlink_ok = true;
  ftruncate_ok = true;
  reserve_ok = true;
  map_low_ok = true;
  map_high_ok = true;
}

abbrev mapped_ring : RingBuffer
mapped_ring = record {
  mapped = true;
  cells = λ _. 0;
  capacity = 8192;
  read_idx = 0;
  write_idx = 0;
  notifier = record { event_fd = pos 5 };
}

full-IsValid : IsValid full
full-IsValid = ground arith

half-IsValid : IsValid half
half-IsValid = ground arith

contents-full : contents full ≡ 10 ∷ 11 ∷ 12 ∷ 13 ∷ []
contents-full = refl

alloc_runs : alloc linux (init 99) 5000 ≡ (true, mapped_ring)
unfolding alloc init init_fd page_up
alloc_runs = refl

run-IsFifo_example :
    IsFifo
      (10 ∷ 11 ∷ [])
      (run (record { out = []; taken = []; ring = half }) (put (7 ∷ 8 ∷ 9 ∷ []) ∷ get 3 ∷ []))
run-IsFifo_example = run-IsFifo (put (7 ∷ 8 ∷ 9 ∷ []) ∷ get 3 ∷ []) half-IsValid

run_delivers :
    (run (record { out = []; taken = []; ring = half }) (put (7 ∷ 8 ∷ 9 ∷ []) ∷ get 3 ∷ [])).out
    ≡ 10 ∷ 11 ∷ 7 ∷ []
unfolding run fill write_buffer write_buffer_loads read_buffer advance_read advance_write
    store_bytes
run_delivers = refl

write_buffer_torn_example :
    (write_buffer_loads 4 ((3, (advance_read full 3).write_idx) ∷ [])
      ≡ some ((advance_read full 3).write_idx, 4))
    × (room (advance_read full 3) ≡ 0 + 3)
write_buffer_torn_example = write_buffer_torn 3 full-IsValid (omega arith) refl

alloc-IsValid_example : IsValid mapped_ring × (unread mapped_ring ≡ 0) × (5000 ≤ 8192)
alloc-IsValid_example =
    alloc-IsValid linux 99 5000 (omega arith) (omega arith) (omega arith) alloc_runs
