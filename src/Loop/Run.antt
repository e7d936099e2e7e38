-- ===== src/Loop/Run.antt =====
-- The handling of an event, to its end or to a fault of what serves its message.
use edge_dns.Prelude.{
  ℕ, ◌∙◌, ◌+◌, ◌%◌, ◌^◌, ◌<◌, ◌≡◌, refl, sym, ap, subst, ==_iff, inl, inr, ◌&&◌, Bool-cases, false,
  ℤ-cases, [], ◌∷◌, ◌++◌, Option, none, some, ◌==◌, if◌then◌else◌, length, arith,
}
use edge_dns.Uring.Pool.{BufferPool, pick_group}
use edge_dns.Uring.Pipeline.{
  read, fd_data, Connection, Operation, recvmsg, recvmsg_multishot, Ring, Completion, context_sent,
  of_fd, udp_type, tcp_type, sync_type, get_sqe, queue_read_by, read_completion,
}
use edge_dns.Loop.State.{Message, Event, Environment, Thread, put_connection, submit}
use edge_dns.Loop.Steady.{IsGroup, IsSteady}
use edge_dns.Loop.Served.{IsNamedEvent, serve-IsSteady}
use edge_dns.Loop.Lent.{IsLent}
use edge_dns.Loop.Kept.{on_completion-IsSteady, give_back-IsSteady}
use edge_dns.Loop.Events.{
  rearm, read_operation, accept_again, failed_read, on_error, on_accept, give_back, serve,
  read_more, read_message, on_read, on_write, on_connection, on_result, delete_context,
  on_completion, handle_event,
}

-- What a read needs: a buffer that its connection lends, and messages that are served.
pub record IsGood (most : ℕ) (env : Environment) (ev : Event) (pool : BufferPool) (key : ℕ)
    (conn : Connection) : Type 0 where
  pub lent : IsLent pool conn.buf_group ev.buf_id
  pub serves :
      (message : Message) (v : Thread)
      → ev.message ≡ some message
      → IsSteady most v
      → (w : Thread) × (serve env ev key conn message v ≡ some w)

-- It has that, where it is a read of a known connection.
abbrev pub HasBuffer : ℕ → Environment → Event → Thread → Completion → Type 0
HasBuffer most env ev t c =
    (fd : ℕ) (conn : Connection)
    → c ≡ of_fd 1 fd
    → t.connections fd ≡ some conn
    → IsGood most env ev t.pool fd conn

module _ (most : ℕ) (env : Environment) (ev : Event) where
  rearm_returns :
      (operation : Operation) (ring : Ring) (key : ℕ) (conn : Connection) (t : Thread)
      → 0 < length t.pool.rings
      → (u : Thread) × (rearm operation ring key conn t ≡ some u)
  unfolding rearm queue_read_by pick_group
  rearm_returns operation ring key conn t h =
      let some_rings : (length t.pool.rings == 0) ≡ false = ground (arith, h) in
      elim (Bool-cases (get_sqe ring)) [
        | inl free ↦ (
          submit
              (record (put_connection t key (
                some (record conn {
                  buf_group = t.pool.base_group_id + t.pool.rr_counter % length t.pool.rings;
                }))) { pool = record t.pool { rr_counter = (t.pool.rr_counter + 1) % 2 ^ 64 } })
              (some (record {
                operation = operation;
                fd = conn.fd;
                buf_group =
                    some
                      ((t.pool.base_group_id + t.pool.rr_counter % length t.pool.rings) % 2 ^ 16);
                user_data = fd_data read conn.fd;
              })),
          rw (free, some_rings) refl,
        )
        | inr full ↦ (submit (put_connection t key (some conn)) none, rw full refl)
      ]

  failed_read_returns :
      (fd : ℕ) (at : Option Connection) (t : Thread)
      → IsSteady most t
      → (u : Thread) × (failed_read ev.ring fd at t ≡ some u)
  unfolding failed_read
  failed_read_returns fd none t steady = (t, refl)
  failed_read_returns fd (some conn) t steady =
      elim (Bool-cases ((conn.type == udp_type) && (fd == t.udp_fd))) [
        | inl udp ↦
            let (u, run) =
              rearm_returns recvmsg_multishot ev.ring fd conn t steady.pooled.some_groups in
            (u, rw udp run)
        | inr other ↦
            (record (put_connection t fd none) { closed = t.closed ++ fd ∷ [] }, rw other refl)
      ]

  on_error_returns :
      (type fd : ℕ) (t : Thread) → IsSteady most t → (u : Thread) × (on_error ev type fd t ≡ some u)
  unfolding on_error
  on_error_returns type fd t steady =
      let (u, run) = failed_read_returns fd (t.connections fd) t steady in
      (accept_again ev.ring type fd u, rw run refl)

  on_accept_returns :
      (fd client : ℕ) (t : Thread)
      → IsSteady most t
      → (u : Thread) × (on_accept ev fd client t ≡ some u)
  unfolding on_accept
  on_accept_returns fd client t steady =
      let conn : Connection = record {
        fd = client;
        type = if fd == t.tcp_fd then tcp_type else sync_type;
        ip = ev.accepted_ip;
        write_buffer = [];
        buf_group = 1;
      } in
      rearm_returns (read_operation conn) ev.ring client conn (put_connection t client (some conn))
        steady.pooled.some_groups

  read_more_returns :
      (key : ℕ) (at : Option Connection) (t : Thread)
      → IsSteady most t
      → (u : Thread) × (read_more ev key at t ≡ some u)
  unfolding read_more
  read_more_returns key none t steady = (t, refl)
  read_more_returns key (some conn) t steady = elim (Bool-cases ev.has_more) [
    | inl more ↦ (t, simp more)
    | inr last ↦
        let (u, run) =
          rearm_returns (read_operation conn) ev.ring key conn t steady.pooled.some_groups in
        (u, simp last run)
  ]

  Ends : Option Thread → Type 0
  Ends o = (u : Thread) × (o ≡ some u)

  read_message-Ends :
      (key : ℕ) (conn : Connection) (at : Option Message) (t : Thread)
      → IsSteady most t
      → ev.message ≡ at
      → t.connections key ≡ some conn
      → IsNamedEvent ev
      → IsGood most env ev t.pool key conn
      → Ends (read_message env ev key conn at t)
  unfolding Ends read_message give_back
  read_message-Ends key conn none t steady told known named good = (
    record t { given_back = t.given_back ++ (conn.buf_group, good.lent.provided) ∷ [] },
    rw good.lent.released refl,
  )
  read_message-Ends key conn (some message) t steady told known named good =
      let v : Thread = record t {
        given_back = t.given_back ++ (conn.buf_group, good.lent.provided) ∷ [];
      } in
      let given : give_back conn.buf_group ev.buf_id t ≡ some v = rw good.lent.released refl in
      let (kept, pool) = give_back-IsSteady most conn.buf_group ev.buf_id t v steady given in
      let (w, served) = good.serves message v told kept in
      let after =
        serve-IsSteady most env ev key conn message v w kept
          (subst (λ p. IsGroup p conn.buf_group) (sym pool) (steady.grouped key conn known))
          (named message told) served in
      let (u, run) = read_more_returns key (w.connections key) w after in
      (u, rw (good.lent.released, served) run)

  on_connection-Ends :
      (type fd : ℕ) (at : Option Connection) (t : Thread)
      → IsSteady most t
      → t.connections fd ≡ at
      → IsNamedEvent ev
      → HasBuffer most env ev t (of_fd type fd)
      → Ends (on_connection env ev type fd at t)
  unfolding Ends on_connection on_read on_write
  on_connection-Ends type fd none t steady known named has = (t, refl)
  on_connection-Ends type fd (some conn) t steady known named has = elim (Bool-cases (type == 1)) [
    | inl is_read ↦
        let good = has fd conn (ap (λ k. of_fd k fd) ((==_iff _ _).0 is_read)) known in
        rw (is_read, good.lent.found)
          (read_message-Ends fd conn ev.message t steady refl known named good)
    | inr not_read ↦ elim (Bool-cases (type == 2)) [
      | inl is_write ↦ elim (Bool-cases (conn.type == sync_type)) [
        | inl sync ↦
            let (u, run) = rearm_returns recvmsg ev.ring fd conn t steady.pooled.some_groups in
            (u, rw (not_read, is_write, sync) run)
        | inr more ↦ (t, rw (not_read, is_write, more) refl)
      ]
      | inr more ↦ (t, rw (not_read, more) refl)
    ]
  ]

  on_completion-Ends :
      (c : Completion) (t : Thread)
      → IsSteady most t
      → IsNamedEvent ev
      → HasBuffer most env ev t c
      → Ends (on_completion env ev c t)
  unfolding Ends on_completion on_result
  on_completion-Ends (context_sent ctx) t steady named has =
      (record t { contexts = delete_context ctx t.contexts }, refl)
  on_completion-Ends (of_fd type fd) t steady named has = elim (ℤ-cases ev.res) [
    | inr (n, failed) ↦
        let (u, run) = on_error_returns type fd t steady in
        (u, ap (λ r. on_result env ev type fd r t) failed ∙ run)
    | inl (res, done) ↦ elim (Bool-cases (type == 0)) [
      | inl accept ↦
          let (u, run) = on_accept_returns fd res t steady in
          (u, ap (λ r. on_result env ev type fd r t) done ∙ rw accept run)
      | inr other ↦
          let (u, run) = on_connection-Ends type fd (t.connections fd) t steady refl named has in
          (u, ap (λ r. on_result env ev type fd r t) done ∙ rw other run)
    ]
  ]

  -- One event is handled to its end.
  pub handle_event-IsSteady :
      (t : Thread)
      → IsSteady most t
      → IsNamedEvent ev
      → HasBuffer most env ev t (read_completion ev.user_data)
      → (u : Thread) × (handle_event env ev t ≡ some u) × IsSteady most u
  unfolding handle_event Ends
  handle_event-IsSteady t steady named has =
      let c = read_completion ev.user_data in
      let (u, run) = on_completion-Ends c t steady named has in
      (u, run, on_completion-IsSteady most env ev c t u steady named run)
