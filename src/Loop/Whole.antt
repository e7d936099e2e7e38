-- ===== src/Loop/Whole.antt =====
-- The server from its start on.
use edge_dns.Prelude.{◌≡◌, ◌≢◌, subst, true, some}
use edge_dns.Records.State.{Mmap}
use edge_dns.Groups.State.{GroupMmap}
use edge_dns.Queue.State.{Server}
use edge_dns.Queue.Worker.{record_part}
use edge_dns.Queue.Safe.{IsSound}
use edge_dns.Main.Start.{start, Steps, stop}
use edge_dns.Main.Sound.{start-IsSound}
use edge_dns.Uring.Setup.{Grants}
use edge_dns.Uring.Pipeline.{get_sqe}
use edge_dns.Loop.State.{Environment, Thread}
use edge_dns.Loop.Steady.{IsSteady}
use edge_dns.Loop.Start.{Startup, group_limit, worker_start}
use edge_dns.Loop.Begun.{worker_start-IsSteady}
use edge_dns.Loop.Life.{Life, life-IsSteady}

-- The server, where the old files are removed, both caches mapped, whatever the memory holds, and its
-- thread is given all the memory and rings it asks for, two different sockets and the three entries:
-- it starts, and its thread begins. From then on, however the thread handles events and the worker
-- of the queues carries out writes, as long as the names in the messages have a hash that is not 0:
-- the thread is steady, with each connection's buffers in a group of the pool and the record cache
-- well formed; all that has become of the caches and the queues are steps of the server; and the
-- worker can carry out the next write of a record without a fault.
pub start-IsSteady :
    (m : Mmap) (g : GroupMmap) (st : Startup) (env : Environment)
    → Grants st.alloc st.ring_alloc st.register
    → st.udp ≢ st.tcp
    → get_sqe st.accept_tcp ≡ true
    → get_sqe st.accept_sync ≡ true
    → get_sqe st.read_udp ≡ true
    → (s : Server) × (t : Thread) × (start true true true m g ≡ some s)
      × (worker_start st s ≡ some t)
      × ((v : Thread)
          → Life env t v
          → IsSteady group_limit v
            × Steps s v.server
            × ((u : Server) × (record_part v.server v.server.record_queue ≡ some u) × IsSound u))
start-IsSteady m g st env granted apart tcp sync udp =
    let (s, started, later) = start-IsSound m g in
    let (t, _, _, _, _, begun, steady, server, _, _, _, _, _, _, _) =
      worker_start-IsSteady st s (later s (stop s)).0 granted apart tcp sync udp in
    (
      s,
      t,
      started,
      begun,
      λ v life.
          let (kept, steps) = life-IsSteady group_limit env t v steady life in
          let from : Steps s v.server = subst (λ r. Steps r v.server) server steps in
          (kept, from, (later v.server from).1),
    )
