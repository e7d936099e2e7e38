-- ===== src/Loop/Returned.antt =====
-- Serving a message, and the buffers that are given back.
use edge_dns.Prelude.{
  >>=-some, ℕ, ◌≡◌, refl, sym, ap, ◌∙◌, inl, inr, Bool-cases, true, false, List, Option, none, some,
  ◌==◌,
}
use edge_dns.Sync.Handler.{handle_sync}
use edge_dns.Sync.Response.{response_text}
use edge_dns.Uring.Pipeline.{
  Connection, QueueEntry, udp_type, tcp_type, sync_type, queue_write_udp, queue_write_tcp,
}
use edge_dns.Loop.State.{Peer, Message, Context, Event, Environment, Thread, put_connection, submit}
use edge_dns.Loop.Queries.{answer_query}
use edge_dns.Loop.Frame.{submit-Alike}
use edge_dns.Loop.Servers.{answer_query-frame}
use edge_dns.Loop.Events.{query_buf_of, serve_sync, serve_tcp, send_context, serve_udp, serve}

-- Where a run ends in a thread, that has given back the same.
unfoldable pub EndsGiven : Thread → Option Thread → Type 0
EndsGiven t o = (u : Thread) → o ≡ some u → u.given_back ≡ t.given_back

given : (t v : Thread) → v.given_back ≡ t.given_back → EndsGiven t (some v)
unfolding EndsGiven
given t v kept u run =
    let same : v ≡ u = cc run in ap (λ (x : Thread). x.given_back) (sym same) ∙ kept

serve_sync-EndsGiven :
    (env : Environment) (ev : Event) (key : ℕ) (conn : Connection) (query_buf : List ℕ) (t : Thread)
    → EndsGiven t (serve_sync env ev key conn query_buf t)
unfolding EndsGiven serve_sync
serve_sync-EndsGiven env ev key conn query_buf t u run =
    let (r, handled, last) =
      >>=-some (handle_sync env.uuid_of query_buf t.server.records t.server.groups) _ run in
    let after : Connection = record conn { write_buffer = response_text r.0 } in
    let v : Thread = record (put_connection t key (some after)) {
      server = record t.server { records = r.1; groups = r.2 };
    } in
    given v (submit v (queue_write_tcp ev.ring after))
      (submit-Alike v (queue_write_tcp ev.ring after)).0 u last

serve_tcp-EndsGiven :
    (env : Environment) (ev : Event) (key : ℕ) (conn : Connection) (query_buf : List ℕ) (t : Thread)
    → EndsGiven t (serve_tcp env ev key conn query_buf t)
unfolding EndsGiven serve_tcp
serve_tcp-EndsGiven env ev key conn query_buf t u run =
    let peer : Peer = record { ip = conn.ip; ip_str = ev.stale_ip_str } in
    let (r, answered, last) = >>=-some (answer_query env ev.current t true peer query_buf) _ run in
    let frame = answer_query-frame env ev.current t true peer query_buf r.0 r.1 answered in
    let after : Connection = record conn { write_buffer = r.0 } in
    let v = put_connection r.1 key (some after) in
    given v (submit v (queue_write_tcp ev.ring after))
      (submit-Alike v (queue_write_tcp ev.ring after)).0 u last
    ∙ frame.6

send_context-given_back :
    (t : Thread) (ctx : Context) (entry : Option QueueEntry)
    → (send_context t ctx entry).given_back ≡ t.given_back
unfolding send_context
send_context-given_back t ctx none = refl
send_context-given_back t ctx (some entry) = refl

serve_udp-EndsGiven :
    (env : Environment) (ev : Event) (conn : Connection) (peer : Peer) (query_buf : List ℕ)
    (t : Thread)
    → EndsGiven t (serve_udp env ev conn peer query_buf t)
unfolding EndsGiven serve_udp
serve_udp-EndsGiven env ev conn peer query_buf t u run =
    let (r, answered, last) = >>=-some (answer_query env ev.current t false peer query_buf) _ run in
    let frame = answer_query-frame env ev.current t false peer query_buf r.0 r.1 answered in
    let ctx : Context = record {
      address = ev.new_context;
      fd = conn.fd;
      written = r.0;
      peer = peer;
    } in
    let entry = queue_write_udp ev.ring ev.new_context conn.fd in
    given r.1 (send_context r.1 ctx entry) (send_context-given_back r.1 ctx entry) u last ∙ frame.6

pub serve-EndsGiven :
    (env : Environment) (ev : Event) (key : ℕ) (conn : Connection) (message : Message) (t : Thread)
    → EndsGiven t (serve env ev key conn message t)
unfolding serve
serve-EndsGiven env ev key conn message t =
    let query_buf = query_buf_of message.payload in
    elim (Bool-cases (conn.type == sync_type)) [
      | inl sync ↦ simp sync (serve_sync-EndsGiven env ev key conn query_buf t)
      | inr other ↦ elim (Bool-cases (conn.type == tcp_type)) [
        | inl tcp ↦ simp (other, tcp) (serve_tcp-EndsGiven env ev key conn query_buf t)
        | inr more ↦ elim (Bool-cases (conn.type == udp_type)) [
          | inl udp ↦
              simp (other, more, udp) (serve_udp-EndsGiven env ev conn message.peer query_buf t)
          | inr nothing ↦ simp (other, more, nothing) (given t t refl)
        ]
      ]
    ]
