-- ===== src/EchoServer/Tests.antt =====
-- A client alone, and two at once.
use conn.Common.{◌≤◌, ◌≡◌, refl, false, true, List, [], ◌∷◌, some, codes, arith}
use conn.EchoServer.{
  Server, init, on_accept, on_read, hear, change, accepted, read, taken, step, run, writing, sent,
  reading,
}
use conn.EchoServer.Quiet.{Reach, at_start, after, AllEchoed, Reach-AllEchoed}
use conn.EchoServer.Mixed.{run_mixed}
use conn.EchoServer.RunOnce
use conn.EchoServer.RunOnce.{run-once}
use conn.EchoServer.Single
use conn.EchoServer.Single.{
  TcpServer, start, handle_accept, handle_read, handle_write, AllFine, run-start,
}

abbrev listening : Server
listening = init (codes "....")

abbrev joined : Server
joined = record {
  buffer = codes "....";
  clients = record { waits = reading; received = []; echoed = [] } ∷ [];
  accepts = true;
}

abbrev asked : Server
asked = record {
  buffer = codes "hi..";
  clients = record { waits = writing 2; received = codes "hi" ∷ []; echoed = [] } ∷ [];
  accepts = true;
}

joins : step (accepted false) listening ≡ some joined
unfolding step on_accept
joins = refl

asks : step (read 0 (codes "hi")) joined ≡ some asked
unfolding step change hear on_read
asks = refl

asked-Reach : Reach asked
asked-Reach =
    after (read 0 (codes "hi")) joined asked
      (after (accepted false) listening joined (at_start (codes "....")) tt joins) (tt, tt) asks

Reach-AllEchoed_example : AllEchoed asked
Reach-AllEchoed_example = Reach-AllEchoed asked asked-Reach

run_mixed_example :
    run
      (accepted false ∷ accepted false ∷ read 0 (codes "ab") ∷ read 1 (codes "xyz") ∷ taken 0 ∷ [])
      (init (codes "...."))
    ≡ some (record {
      buffer = codes "xyz.";
      clients =
          record { waits = sent; received = codes "ab" ∷ []; echoed = codes "xy" ∷ [] }
          ∷ record { waits = writing 3; received = codes "xyz" ∷ []; echoed = [] }
          ∷ [];
      accepts = true;
    })
run_mixed_example =
    run_mixed (codes "....") (codes "ab") (codes "xyz") (ground arith) (ground arith)

abbrev talked : TcpServer
talked = record {
  buffer = codes "okay";
  waits = Single.reading;
  sockets = 2;
  received = codes "hi" ∷ codes "ok" ∷ [];
  echoed = codes "hi" ∷ codes "ok" ∷ [];
}

abbrev visits : List Single.Event
visits =
    Single.accepted false
    ∷ Single.read (codes "hi")
    ∷ Single.written false
    ∷ Single.read_failed
    ∷ Single.accepted false
    ∷ Single.read (codes "ok")
    ∷ Single.written false
    ∷ []

visited : Single.run visits (start (codes "haay")) ≡ talked
unfolding Single.run Single.step handle_accept handle_read handle_write
visited = refl

run-start_example :
    Single.IsEchoed talked
    × (AllFine visits → Single.IsServing talked.waits)
    × ((¬ Single.IsServing talked.waits)
        → (more : List Single.Event) → Single.run more talked ≡ talked)
unfolding Single.run Single.step handle_accept handle_read handle_write
run-start_example = run-start (codes "haay") visits

abbrev gone : List RunOnce.Event
gone =
    RunOnce.accepted false
    ∷ RunOnce.read (codes "ab")
    ∷ RunOnce.written false
    ∷ RunOnce.read_failed
    ∷ []

abbrev left : RunOnce.EchoServer
left = record {
  data_ = codes "ab..";
  is_open = true;
  accepts = true;
  waits = RunOnce.nothing;
  served = 1;
  echoed = codes "ab" ∷ [];
}

run-once_example :
    (left.served ≤ 1)
    × (RunOnce.IsFinished left
        → (more : List RunOnce.Event) → RunOnce.Stays left (RunOnce.run more left))
unfolding RunOnce.run RunOnce.step RunOnce.on_accept RunOnce.on_read RunOnce.on_written
run-once_example = run-once (codes "....") gone
