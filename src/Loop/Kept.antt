-- ===== src/Loop/Kept.antt =====
-- Events, and what the loop keeps.
use edge_dns.Prelude.{
  >>=-some, ℕ, ◌≡◌, refl, sym, ap, subst, inl, inr, ◌&&◌, Bool-cases, ℤ-cases, [], ◌∷◌, ◌++◌,
  Option, none, some, ◌==◌, if◌then◌else◌, arith,
}
use edge_dns.Uring.Pool.{get_buffer_address, release_buffer}
use edge_dns.Uring.Pipeline.{
  Connection, Ring, recvmsg, recvmsg_multishot, Completion, context_sent, of_fd, udp_type, tcp_type,
  sync_type, queue_multishot_accept,
}
use edge_dns.Loop.State.{Message, Event, Environment, Thread, put_connection, submit}
use edge_dns.Loop.Steady.{
  IsGroup, IsSteady, put_connection-IsSteady, alike-IsSteady, submit-IsSteady, rearm-IsSteady,
}
use edge_dns.Loop.Served.{IsNamedMessage, IsNamedEvent, serve-IsSteady}
use edge_dns.Loop.Events.{
  read_operation, accept_again, failed_read, on_error, on_accept, give_back, serve, read_more,
  read_message, on_read, on_write, on_connection, on_result, delete_context, on_completion,
}

module _ (most : ℕ) where
  failed_read-IsSteady :
      (ring : Ring) (fd : ℕ) (at : Option Connection) (t u : Thread)
      → IsSteady most t
      → t.connections fd ≡ at
      → failed_read ring fd at t ≡ some u
      → IsSteady most u
  unfolding failed_read
  failed_read-IsSteady ring fd none t u steady there run =
      let same : t ≡ u = cc run in subst (IsSteady most) same steady
  failed_read-IsSteady ring fd (some conn) t u steady there run =
      elim (Bool-cases ((conn.type == udp_type) && (fd == t.udp_fd))) [
        | inl udp ↦
            rearm-IsSteady most recvmsg_multishot ring fd conn t u steady
              (steady.grouped fd conn there) (rw udp at run)
        | inr other ↦
            let v : Thread = put_connection t fd none in
            let same : record v { closed = t.closed ++ fd ∷ [] } ≡ u = cc (rw other at run) in
            let kept = put_connection-IsSteady most t fd none steady (λ c e. absurd (cc e)) in
            subst (IsSteady most) same (
              alike-IsSteady most v (record v { closed = t.closed ++ fd ∷ [] }) kept refl refl
                steady.sound)
      ]

  on_error-IsSteady :
      (ev : Event) (type fd : ℕ) (t u : Thread)
      → IsSteady most t
      → on_error ev type fd t ≡ some u
      → IsSteady most u
  unfolding on_error accept_again
  on_error-IsSteady ev type fd t u steady run =
      let (v, failed, last) = >>=-some (failed_read ev.ring fd (t.connections fd) t) _ run in
      let kept = failed_read-IsSteady ev.ring fd (t.connections fd) t v steady refl failed in
      elim (Bool-cases (type == 0)) [
        | inl accept ↦
            let same : submit v (queue_multishot_accept ev.ring fd) ≡ u = cc (rw accept at last) in
            subst (IsSteady most) same
              (submit-IsSteady most v (queue_multishot_accept ev.ring fd) kept)
        | inr other ↦ let same : v ≡ u = cc (rw other at last) in subst (IsSteady most) same kept
      ]

  on_accept-IsSteady :
      (ev : Event) (fd client : ℕ) (t u : Thread)
      → IsSteady most t
      → on_accept ev fd client t ≡ some u
      → IsSteady most u
  unfolding on_accept
  on_accept-IsSteady ev fd client t u steady run =
      let conn : Connection = record {
        fd = client;
        type = if fd == t.tcp_fd then tcp_type else sync_type;
        ip = ev.accepted_ip;
        write_buffer = [];
        buf_group = 1;
      } in
      let one : IsGroup t.pool 1 = (
        omega (arith, steady.pooled.from_one),
        omega (arith, steady.pooled.from_one, steady.pooled.some_groups),
      ) in
      let kept =
        put_connection-IsSteady most t client (some conn) steady
          (λ c e. let it : conn ≡ c = cc e in subst (λ x. IsGroup t.pool x.buf_group) it one) in
      rearm-IsSteady most (read_operation conn) ev.ring client conn
        (put_connection t client (some conn)) u kept one run

  pub give_back-IsSteady :
      (group_id buf_id : ℕ) (t u : Thread)
      → IsSteady most t
      → give_back group_id buf_id t ≡ some u
      → IsSteady most u × (u.pool ≡ t.pool)
  unfolding give_back
  give_back-IsSteady group_id buf_id t u steady run =
      let (p, released, last) = >>=-some (release_buffer t.pool group_id buf_id) _ run in
      let v : Thread = record t { given_back = t.given_back ++ (group_id, p) ∷ [] } in
      let same : v ≡ u = cc last in
      (
        subst (IsSteady most) same (alike-IsSteady most t v steady refl refl steady.sound),
        ap (λ (x : Thread). x.pool) (sym same),
      )

  read_more-IsSteady :
      (ev : Event) (key : ℕ) (at : Option Connection) (t u : Thread)
      → IsSteady most t
      → t.connections key ≡ at
      → read_more ev key at t ≡ some u
      → IsSteady most u
  unfolding read_more
  read_more-IsSteady ev key none t u steady there run =
      let same : t ≡ u = cc run in subst (IsSteady most) same steady
  read_more-IsSteady ev key (some conn) t u steady there run = elim (Bool-cases ev.has_more) [
    | inl more ↦ let same : t ≡ u = cc (rw more at run) in subst (IsSteady most) same steady
    | inr over ↦
        rearm-IsSteady most (read_operation conn) ev.ring key conn t u steady
          (steady.grouped key conn there) (rw over at run)
  ]

  read_message-IsSteady :
      (env : Environment) (ev : Event) (key : ℕ) (conn : Connection) (message : Option Message)
      (t u : Thread)
      → IsSteady most t
      → IsGroup t.pool conn.buf_group
      → ((m : Message) → message ≡ some m → IsNamedMessage m)
      → read_message env ev key conn message t ≡ some u
      → IsSteady most u
  unfolding read_message
  read_message-IsSteady env ev key conn none t u steady group named run =
      (give_back-IsSteady conn.buf_group ev.buf_id t u steady run).0
  read_message-IsSteady env ev key conn (some message) t u steady group named run =
      let (v, given, next) = >>=-some (give_back conn.buf_group ev.buf_id t) _ run in
      let (w, served, last) = >>=-some (serve env ev key conn message v) _ next in
      let (kept, pool) = give_back-IsSteady conn.buf_group ev.buf_id t v steady given in
      let after =
        serve-IsSteady most env ev key conn message v w kept
          (subst (λ p. IsGroup p conn.buf_group) (sym pool) group) (named message refl) served in
      read_more-IsSteady ev key (w.connections key) w u after refl last

  on_connection-IsSteady :
      (env : Environment) (ev : Event) (type fd : ℕ) (at : Option Connection) (t u : Thread)
      → IsSteady most t
      → t.connections fd ≡ at
      → IsNamedEvent ev
      → on_connection env ev type fd at t ≡ some u
      → IsSteady most u
  unfolding on_connection on_read on_write
  on_connection-IsSteady env ev type fd none t u steady there named run =
      let same : t ≡ u = cc run in subst (IsSteady most) same steady
  on_connection-IsSteady env ev type fd (some conn) t u steady there named run =
      let group = steady.grouped fd conn there in
      elim (Bool-cases (type == 1)) [
        | inl is_read ↦
            let (raw, address, last) =
              >>=-some (get_buffer_address t.pool conn.buf_group ev.buf_id) _ (rw is_read at run) in
            read_message-IsSteady env ev fd conn ev.message t u steady group named last
        | inr other ↦ elim (Bool-cases (type == 2)) [
          | inl is_write ↦ elim (Bool-cases (conn.type == sync_type)) [
            | inl sync ↦
                rearm-IsSteady most recvmsg ev.ring fd conn t u steady group
                  (rw (other, is_write, sync) at run)
            | inr more ↦
                let same : t ≡ u = cc (rw (other, is_write, more) at run) in
                subst (IsSteady most) same steady
          ]
          | inr more ↦
              let same : t ≡ u = cc (rw (other, more) at run) in subst (IsSteady most) same steady
        ]
      ]

  pub on_completion-IsSteady :
      (env : Environment) (ev : Event) (c : Completion) (t u : Thread)
      → IsSteady most t
      → IsNamedEvent ev
      → on_completion env ev c t ≡ some u
      → IsSteady most u
  unfolding on_completion on_result
  on_completion-IsSteady env ev (context_sent ctx) t u steady named run =
      let v : Thread = record t { contexts = delete_context ctx t.contexts } in
      let same : v ≡ u = cc run in
      subst (IsSteady most) same (alike-IsSteady most t v steady refl refl steady.sound)
  on_completion-IsSteady env ev (of_fd type fd) t u steady named run = elim (ℤ-cases ev.res) [
    | inr (n, failed) ↦ on_error-IsSteady ev type fd t u steady (rw failed at run)
    | inl (res, done) ↦ elim (Bool-cases (type == 0)) [
      | inl accept ↦ on_accept-IsSteady ev fd res t u steady (rw (done, accept) at run)
      | inr other ↦
          on_connection-IsSteady env ev type fd (t.connections fd) t u steady refl named
            (rw (done, other) at run)
    ]
  ]
