-- ===== src/Loop/Begun.antt =====
-- `worker_start`, and the thread that it makes.
use edge_dns.Prelude.{
  ℕ, ◌<◌, ◌+◌, ◌≡◌, ◌≢◌, refl, ◌%◌, ◌^◌, subst, true, false, List, [], ◌∷◌, none, some, ◌==◌,
  length, arith,
}
use edge_dns.Queue.State.{Server}
use edge_dns.Queue.Safe.{IsSound}
use edge_dns.Uring.Pool.{RingSlot, BufferPool, pick_group}
use edge_dns.Uring.Setup.{total, Grants, setup-IsLaid}
use edge_dns.Uring.Pipeline.{
  Connection, QueueEntry, Ring, read, multishot_accept, fd_data, accept_multishot,
  recvmsg_multishot, udp_type, tcp_type, get_sqe, queue_multishot_accept, queue_read_by,
}
use edge_dns.Loop.State.{Thread, put_connection, submit}
use edge_dns.Loop.Steady.{
  IsPool, IsGroup, IsSteady, put_connection-IsSteady, alike-IsSteady, submit-IsSteady,
  rearm-IsSteady,
}
use edge_dns.Loop.Start.{
  Startup, unset_pool, buffer_total, group_limit, own_connection, without_error, init_pipeline,
  init_udp, init_tcp, init_sync, new_thread, with_sockets, first_read, worker_start,
}
use edge_dns.Loop.Events.{rearm}

abbrev Granted : Startup → Type 0
Granted st = Grants st.alloc st.ring_alloc st.register

some_slots : (slots : List RingSlot) → total slots ≡ buffer_total → 0 < length slots
some_slots [] h = absurd (omega (arith, h))
some_slots (s ∷ ss) h = omega arith

init_pipeline-IsPool :
    (st : Startup)
    → Granted st
    → (pool : BufferPool) × (init_pipeline st ≡ some pool)
      × IsPool group_limit pool
      × (total pool.rings ≡ buffer_total)
unfolding init_pipeline without_error
init_pipeline-IsPool st granted =
    let (pool, error, run, base, size, laid, whole, free) =
      setup-IsLaid st.alloc st.ring_alloc st.register unset_pool buffer_total 2048 1 group_limit
        refl (omega arith) (omega arith) (omega arith) refl in
    let no_error : error ≡ none = free granted in
    (
      pool,
      rw (run, no_error) refl,
      record {
        laid = rw (size, base) laid;
        from_one = base;
        some_groups = some_slots pool.rings (whole no_error);
      },
      whole no_error,
    )

with_sockets-IsSteady :
    (st : Startup) (s : Server) (pool : BufferPool)
    → IsSound s
    → IsPool group_limit pool
    → IsSteady group_limit (with_sockets st (new_thread s pool))
unfolding with_sockets init_udp init_tcp init_sync new_thread
with_sockets-IsSteady st s pool sound pooled =
    let one : IsGroup pool 1 =
      (omega (arith, pooled.from_one), omega (arith, pooled.from_one, pooled.some_groups)) in
    let t = new_thread s pool in
    let first : IsSteady group_limit t = record {
      pooled = pooled;
      grouped = λ fd conn at. absurd (cc at);
      sound = sound;
    } in
    let fits : (fd type : ℕ) (c : Connection)
        → some (own_connection fd type) ≡ some c
        → IsGroup pool c.buf_group =
      λ fd type c e.
        let it : own_connection fd type ≡ c = cc e in
        subst (λ (x : Connection). IsGroup pool x.buf_group) it one in
    let udp =
      put_connection-IsSteady group_limit t st.udp (some (own_connection st.udp udp_type)) first
        (fits st.udp udp_type) in
    let u = init_udp st.udp t in
    let udp' =
      alike-IsSteady group_limit (put_connection t st.udp (some (own_connection st.udp udp_type))) u
        udp refl refl sound in
    let tcp =
      put_connection-IsSteady group_limit u st.tcp (some (own_connection st.tcp tcp_type)) udp'
        (fits st.tcp tcp_type) in
    alike-IsSteady group_limit (put_connection u st.tcp (some (own_connection st.tcp tcp_type)))
      (with_sockets st t) tcp refl refl sound

abbrev accept_entry : ℕ → QueueEntry
accept_entry fd = record {
  operation = accept_multishot;
  fd = fd;
  buf_group = none;
  user_data = fd_data multishot_accept fd;
}

queue_multishot_accept-free :
    (ring : Ring) (fd : ℕ)
    → get_sqe ring ≡ true
    → queue_multishot_accept ring fd ≡ some (accept_entry fd)
unfolding queue_multishot_accept
queue_multishot_accept-free ring fd free = rw free refl

-- A thread that is given all the memory and rings it asks for, two different sockets for UDP and TCP,
-- and the three entries: it begins without a fault, steady, with the server's caches and queues as
-- they are. Its pool has 2 ^ 20 buffers in all, in groups of at most 2 ^ 15. It has queued an accept
-- on the TCP socket, an accept on the sync socket, and a multishot read of the UDP socket in a group
-- of the pool, in this order; and its UDP socket is a connection of type UDP that lends that group.
pub worker_start-IsSteady :
    (st : Startup) (s : Server)
    → IsSound s
    → Grants st.alloc st.ring_alloc st.register
    → st.udp ≢ st.tcp
    → get_sqe st.accept_tcp ≡ true
    → get_sqe st.accept_sync ≡ true
    → get_sqe st.read_udp ≡ true
    → (t : Thread) × (conn : Connection) × (a : QueueEntry) × (b : QueueEntry) × (c : QueueEntry)
      × (worker_start st s ≡ some t)
      × IsSteady group_limit t
      × (t.server ≡ s)
      × (total t.pool.rings ≡ 2 ^ 20)
      × (t.connections st.udp ≡ some conn)
      × (conn.type ≡ udp_type)
      × (t.submitted ≡ a ∷ b ∷ c ∷ [])
      × ((a.operation ≡ accept_multishot) × (a.fd ≡ st.tcp))
      × ((b.operation ≡ accept_multishot) × (b.fd ≡ st.sync))
      × ((c.operation ≡ recvmsg_multishot)
          × (c.fd ≡ st.udp)
          × (c.buf_group ≡ some (conn.buf_group % 2 ^ 16)))
unfolding worker_start with_sockets init_udp init_tcp init_sync new_thread first_read rearm
    queue_read_by pick_group
worker_start-IsSteady st s sound granted apart tcp_free sync_free udp_free =
    let (pool, run, pooled, whole) = init_pipeline-IsPool st granted in
    let a = accept_entry st.tcp in
    let b = accept_entry st.sync in
    let w = with_sockets st (new_thread s pool) in
    let v = submit (submit w (some a)) (some b) in
    let steady : IsSteady group_limit v =
      submit-IsSteady group_limit (submit w (some a)) (some b)
        (submit-IsSteady group_limit w (some a) (with_sockets-IsSteady st s pool sound pooled)) in
    let differ : (st.udp == st.tcp) ≡ false = ground (arith, apart) in
    let itself : (st.udp == st.udp) ≡ true = ground arith in
    let own = own_connection st.udp udp_type in
    let there : v.connections st.udp ≡ some own = rw (differ, itself) refl in
    let some_rings : (length pool.rings == 0) ≡ false = ground (arith, pooled.some_groups) in
    let g = pool.base_group_id + pool.rr_counter % length pool.rings in
    let conn : Connection = record own { buf_group = g } in
    let c : QueueEntry = record {
      operation = recvmsg_multishot;
      fd = st.udp;
      buf_group = some (g % 2 ^ 16);
      user_data = fd_data read st.udp;
    } in
    let t : Thread =
      submit
        (record (put_connection v st.udp (some conn)) {
          pool = record pool { rr_counter = (pool.rr_counter + 1) % 2 ^ 64 };
        })
        (some c) in
    let armed : rearm recvmsg_multishot st.read_udp st.udp own v ≡ some t =
      rw (udp_free, some_rings) refl in
    (
      t,
      conn,
      a,
      b,
      c,
      rw
          (
            run,
            queue_multishot_accept-free st.accept_tcp st.tcp tcp_free,
            queue_multishot_accept-free st.accept_sync st.sync sync_free,
            there,
          )
          armed,
      rearm-IsSteady group_limit recvmsg_multishot st.read_udp st.udp own v t steady
          (steady.grouped st.udp own there) armed,
      refl,
      whole,
      rw itself refl,
      refl,
      refl,
      (refl, refl),
      (refl, refl),
      (refl, refl, refl),
    )
