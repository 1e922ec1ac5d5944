-- ===== src/Connection/Pending/Tests.antt =====
-- A Unix connection that is connected and has written one text.
use conn.Common.{◌≡◌, refl, true, false, some, List, [], ◌∷◌, codes, pos, negsuc, arith}
use conn.RingBuffer.{RingBuffer, write_buffer}
use conn.Connection.{Connection, unix, shm}
use conn.Connection.Reading.{request}
use conn.Connection.Reading
use conn.Connection.Pending.{
  Memory, in_ring, in_frame, Operation, reading, Async, async_read, async_write, handle_connect,
  handle_read, handle_write, open_file, do_close,
}
use conn.Connection.Pending.Run.{
  Takes, first, later, start, writes, sent, reads, without, Run-waits,
}

abbrev ring : RingBuffer
ring = record {
  mapped = true;
  cells = λ _. 0;
  capacity = 4096;
  read_idx = 0;
  write_idx = 0;
  notifier = record { event_fd = pos 5 };
}

abbrev connection : Connection
connection = record {
  transport = unix;
  is_stream = true;
  address = codes "/tmp/feed";
  port = 0;
  interface_addr = [];
  is_open = true;
  read_buf = ring;
  write_buf = ring;
  requests = [];
  received = [];
}

abbrev idle : Async
idle = record { conn = connection; transport = unix; is_open = true; pending = [] }

abbrev connected : Async
connected = record idle {
  conn = record connection { requests = (0, 4096) ∷ [] };
  pending = reading in_ring ∷ [];
}

connected_lem : handle_connect idle false ≡ some connected
unfolding handle_connect async_read Reading.async_read request write_buffer
connected_lem = refl

abbrev written : Async
written = handle_write (without (async_write connected (codes "hi")) (reading in_ring ∷ [])) false

-- The write that is complete has started a second read, into an array that is gone.
written_pending : written.pending ≡ reading in_ring ∷ reading in_frame ∷ []
unfolding handle_write
written_pending = refl

-- A file that cannot be opened, or not mapped, is not open.
no_file :
    open_file (record idle { transport = shm }) (negsuc 0) true
    ≡ some (record idle { transport = shm; is_open = false })
unfolding open_file
no_file = refl

closed : (do_close connected).pending ≡ []
unfolding do_close
closed = refl

Run-waits_example :
    (reads written.pending ≡ 2)
    × ((m : Memory) × (ops : List Operation) × (d : Async) × Takes (reading m) written.pending ops
        × (handle_read (without written ops) false 100 ≡ some d)
        × (reads d.pending ≡ 2))
unfolding handle_write
Run-waits_example =
    Run-waits idle connected written 1 100
      (record {
        ring_ok = record {
          is_mapped = refl;
          pos = omega arith;
          small = omega arith;
          read_in = omega arith;
          ordered = omega arith;
          not_over = omega arith;
        };
        empty = refl;
      })
      refl connected_lem (sent (writes start (codes "hi")) (later first)) (omega arith)
