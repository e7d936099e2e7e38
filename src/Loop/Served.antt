-- ===== src/Loop/Served.antt =====
-- Messages that are served, and what the loop keeps.
use edge_dns.Prelude.{
  >>=-some, ℕ, ◌≡◌, refl, sym, subst, inl, inr, Bool-cases, true, false, List, Option, none, some,
  ◌==◌,
}
use edge_dns.Sync.Handler.{handle_sync}
use edge_dns.Sync.Response.{response_text}
use edge_dns.Sync.Whole.{IsNamedRequest, handle_sync-IsValid}
use edge_dns.Uring.Pipeline.{
  Connection, QueueEntry, udp_type, tcp_type, sync_type, queue_write_udp, queue_write_tcp,
}
use edge_dns.Loop.State.{Peer, Message, Context, Event, Environment, Thread, put_connection, submit}
use edge_dns.Loop.Queries.{answer_query}
use edge_dns.Loop.Servers.{IsNamedQuery, answer_query-IsSound}
use edge_dns.Loop.Steady.{
  IsGroup, IsSteady, put_connection-IsSteady, alike-IsSteady, submit-IsSteady,
}
use edge_dns.Loop.Events.{query_buf_of, serve_sync, serve_tcp, send_context, serve_udp, serve}

-- The names in the message of an event have a hash that is not 0.
pub record IsNamedMessage (message : Message) : Type 0 where
  pub request : IsNamedRequest (query_buf_of message.payload)
  pub over_tcp : IsNamedQuery true (query_buf_of message.payload)
  pub over_udp : IsNamedQuery false (query_buf_of message.payload)

abbrev pub IsNamedEvent : Event → Type 0
IsNamedEvent ev = (message : Message) → ev.message ≡ some message → IsNamedMessage message

module _ (most : ℕ) where
  serve_sync-IsSteady :
      (env : Environment) (ev : Event) (key : ℕ) (conn : Connection) (query_buf : List ℕ)
      (t u : Thread)
      → IsSteady most t
      → IsGroup t.pool conn.buf_group
      → IsNamedRequest query_buf
      → serve_sync env ev key conn query_buf t ≡ some u
      → IsSteady most u
  unfolding serve_sync
  serve_sync-IsSteady env ev key conn query_buf t u steady group named run =
      let (r, handled, last) =
        >>=-some (handle_sync env.uuid_of query_buf t.server.records t.server.groups) _ run in
      let after : Connection = record conn { write_buffer = response_text r.0 } in
      let v : Thread = put_connection t key (some after) in
      let w : Thread = record v { server = record t.server { records = r.1; groups = r.2 } } in
      let valid =
        handle_sync-IsValid env.uuid_of query_buf t.server.records t.server.groups r.0 r.1 r.2
          steady.sound.valid named handled in
      let kept =
        put_connection-IsSteady most t key (some after) steady
          (λ c e. let it : after ≡ c = cc e in subst (λ x. IsGroup t.pool x.buf_group) it group) in
      let same : submit w (queue_write_tcp ev.ring after) ≡ u = cc last in
      subst (IsSteady most) same (
        submit-IsSteady most w (queue_write_tcp ev.ring after) (
          alike-IsSteady most v w kept refl refl
            (record { valid = valid; named = steady.sound.named })))

  serve_tcp-IsSteady :
      (env : Environment) (ev : Event) (key : ℕ) (conn : Connection) (query_buf : List ℕ)
      (t u : Thread)
      → IsSteady most t
      → IsGroup t.pool conn.buf_group
      → IsNamedQuery true query_buf
      → serve_tcp env ev key conn query_buf t ≡ some u
      → IsSteady most u
  unfolding serve_tcp
  serve_tcp-IsSteady env ev key conn query_buf t u steady group named run =
      let peer : Peer = record { ip = conn.ip; ip_str = ev.stale_ip_str } in
      let (r, answered, last) =
        >>=-some (answer_query env ev.current t true peer query_buf) _ run in
      let (sound, pool, connections) =
        answer_query-IsSound env ev.current t true peer query_buf r.0 r.1 steady.sound named
          answered in
      let v = alike-IsSteady most t r.1 steady pool connections sound in
      let after : Connection = record conn { write_buffer = r.0 } in
      let fits = subst (λ p. IsGroup p conn.buf_group) (sym pool) group in
      let kept =
        put_connection-IsSteady most r.1 key (some after) v
          (λ c e. let it : after ≡ c = cc e in subst (λ x. IsGroup r.1.pool x.buf_group) it fits) in
      let same : submit (put_connection r.1 key (some after)) (queue_write_tcp ev.ring after) ≡ u =
        cc last in
      subst (IsSteady most) same (
        submit-IsSteady most (put_connection r.1 key (some after)) (queue_write_tcp ev.ring after)
          kept)

  send_context-IsSteady :
      (t : Thread) (ctx : Context) (entry : Option QueueEntry)
      → IsSteady most t
      → IsSteady most (send_context t ctx entry)
  unfolding send_context
  send_context-IsSteady t ctx none steady = steady
  send_context-IsSteady t ctx (some entry) steady =
      alike-IsSteady most t (send_context t ctx (some entry)) steady refl refl steady.sound

  serve_udp-IsSteady :
      (env : Environment) (ev : Event) (conn : Connection) (peer : Peer) (query_buf : List ℕ)
      (t u : Thread)
      → IsSteady most t
      → IsNamedQuery false query_buf
      → serve_udp env ev conn peer query_buf t ≡ some u
      → IsSteady most u
  unfolding serve_udp
  serve_udp-IsSteady env ev conn peer query_buf t u steady named run =
      let (r, answered, last) =
        >>=-some (answer_query env ev.current t false peer query_buf) _ run in
      let (sound, pool, connections) =
        answer_query-IsSound env ev.current t false peer query_buf r.0 r.1 steady.sound named
          answered in
      let v = alike-IsSteady most t r.1 steady pool connections sound in
      let ctx : Context = record {
        address = ev.new_context;
        fd = conn.fd;
        written = r.0;
        peer = peer;
      } in
      let same : send_context r.1 ctx (queue_write_udp ev.ring ev.new_context conn.fd) ≡ u =
        cc last in
      subst (IsSteady most) same
        (send_context-IsSteady r.1 ctx (queue_write_udp ev.ring ev.new_context conn.fd) v)

  pub serve-IsSteady :
      (env : Environment) (ev : Event) (key : ℕ) (conn : Connection) (message : Message)
      (t u : Thread)
      → IsSteady most t
      → IsGroup t.pool conn.buf_group
      → IsNamedMessage message
      → serve env ev key conn message t ≡ some u
      → IsSteady most u
  unfolding serve
  serve-IsSteady env ev key conn message t u steady group named run =
      let query_buf = query_buf_of message.payload in
      elim (Bool-cases (conn.type == sync_type)) [
        | inl sync ↦
            serve_sync-IsSteady env ev key conn query_buf t u steady group named.request
              (rw sync at run)
        | inr other ↦ elim (Bool-cases (conn.type == tcp_type)) [
          | inl tcp ↦
              serve_tcp-IsSteady env ev key conn query_buf t u steady group named.over_tcp
                (rw (other, tcp) at run)
          | inr more ↦ elim (Bool-cases (conn.type == udp_type)) [
            | inl udp ↦
                serve_udp-IsSteady env ev conn message.peer query_buf t u steady named.over_udp
                  (rw (other, more, udp) at run)
            | inr nothing ↦
                let same : t ≡ u = cc (rw (other, more, nothing) at run) in
                subst (IsSteady most) same steady
          ]
        ]
      ]
