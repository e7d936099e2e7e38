-- ===== src/Loop/Refines.antt =====
-- What serving a message does to the caches and the queues, in the steps of Main.Start.
use edge_dns.Prelude.{
  >>=-some, ℕ, ◌≡◌, ◌≢◌, refl, sym, subst, inl, inr, Bool, Bool-cases, true, false, ℤ, pos, List,
  [], ◌∷◌, Option, none, some, ◌==◌,
}
use edge_dns.Records.Hash.{calculate_hash}
use edge_dns.Core.State.{Job}
use edge_dns.Sync.Handler.{handle_sync}
use edge_dns.Sync.Response.{response_text}
use edge_dns.Sync.Whole.{IsNamedRequest}
use edge_dns.Queue.State.{Server, add_queue_for_record, add_queue_for_entry}
use edge_dns.Main.Start.{queue_record, queue_entry, sync_request, Steps, stop, step}
use edge_dns.Uring.Pipeline.{
  Connection, QueueEntry, udp_type, tcp_type, sync_type, queue_write_udp, queue_write_tcp,
}
use edge_dns.Loop.State.{Peer, Message, Context, Event, Environment, Thread, put_connection, submit}
use edge_dns.Loop.Queries.{queue_jobs, answer_query}
use edge_dns.Loop.Servers.{IsNamedQuery, answer_query-frame}
use edge_dns.Loop.Served.{IsNamedMessage}
use edge_dns.Loop.Frame.{submit-Alike, EndsAlike}
use edge_dns.Loop.Events.{query_buf_of, serve_sync, serve_tcp, send_context, serve_udp, serve}

pub Steps-trans : (r s t : Server) → Steps r s → Steps s t → Steps r t
Steps-trans _ _ t (stop s) k = k
Steps-trans _ _ t (step r s u first rest) k = step r s t first (Steps-trans s u t rest k)

queue_jobs-Steps :
    (name : List ℕ) (qtype : ℤ) (jobs : List Job) (s : Server)
    → calculate_hash name ≢ 0
    → Steps s (queue_jobs name qtype jobs s)
unfolding queue_jobs
queue_jobs-Steps name qtype [] s named = stop s
queue_jobs-Steps name qtype (Job.record_job r ∷ jobs) s named =
    step _ _ _ (queue_record s name qtype r named)
      (queue_jobs-Steps name qtype jobs (add_queue_for_record s name qtype r) named)
queue_jobs-Steps name qtype (Job.entry_job group_id country e ∷ jobs) s named =
    step _ _ _ (queue_entry s group_id country e)
      (queue_jobs-Steps name qtype jobs (add_queue_for_entry s group_id country e) named)

-- Where a run ends in a thread, its server has got there by steps.
unfoldable pub EndsSteps : Server → Option Thread → Type 0
EndsSteps s o = (u : Thread) → o ≡ some u → Steps s u.server

pub reached : (s : Server) (v : Thread) → Steps s v.server → EndsSteps s (some v)
unfolding EndsSteps
reached s v steps u run =
    let same : v ≡ u = cc run in subst (λ (x : Thread). Steps s x.server) same steps

pub same-Steps : (s t : Server) → t ≡ s → Steps s t
same-Steps s t e = subst (Steps s) (sym e) (stop s)

pub alike-EndsSteps : (t : Thread) (o : Option Thread) → EndsAlike t o → EndsSteps t.server o
unfolding EndsSteps EndsAlike
alike-EndsSteps t o alike u run = same-Steps t.server u.server (alike u run).1

-- A query that is answered.
answer_query-Steps :
    (env : Environment) (current : ℕ → ℕ) (t : Thread) (is_tcp : Bool) (peer : Peer)
    (query_buf out : List ℕ) (u : Thread)
    → IsNamedQuery is_tcp query_buf
    → answer_query env current t is_tcp peer query_buf ≡ some (out, u)
    → Steps t.server u.server
answer_query-Steps env current t is_tcp peer query_buf out u named run =
    let (q, jobs, read, server, _, _, _) =
      answer_query-frame env current t is_tcp peer query_buf out u run in
    subst (Steps t.server) (sym server)
      (queue_jobs-Steps q.name_wire (pos q.qtype) jobs t.server (named q read))

module _ (env : Environment) (ev : Event) where
  serve_sync-EndsSteps :
      (key : ℕ) (conn : Connection) (query_buf : List ℕ) (t : Thread)
      → IsNamedRequest query_buf
      → EndsSteps t.server (serve_sync env ev key conn query_buf t)
  unfolding EndsSteps serve_sync
  serve_sync-EndsSteps key conn query_buf t named u run =
      let (r, handled, last) =
        >>=-some (handle_sync env.uuid_of query_buf t.server.records t.server.groups) _ run in
      let after : Connection = record conn { write_buffer = response_text r.0 } in
      let s : Server = record t.server { records = r.1; groups = r.2 } in
      let v : Thread = record (put_connection t key (some after)) { server = s } in
      let entry = queue_write_tcp ev.ring after in
      let first : Steps t.server s =
        step _ _ _ (sync_request t.server env.uuid_of query_buf r.0 r.1 r.2 named handled)
          (stop s) in
      reached t.server (submit v entry)
        (Steps-trans t.server s (submit v entry).server first
          (same-Steps s (submit v entry).server (submit-Alike v entry).1))
        u last

  serve_tcp-EndsSteps :
      (key : ℕ) (conn : Connection) (query_buf : List ℕ) (t : Thread)
      → IsNamedQuery true query_buf
      → EndsSteps t.server (serve_tcp env ev key conn query_buf t)
  unfolding EndsSteps serve_tcp
  serve_tcp-EndsSteps key conn query_buf t named u run =
      let peer : Peer = record { ip = conn.ip; ip_str = ev.stale_ip_str } in
      let (r, answered, last) =
        >>=-some (answer_query env ev.current t true peer query_buf) _ run in
      let first = answer_query-Steps env ev.current t true peer query_buf r.0 r.1 named answered in
      let after : Connection = record conn { write_buffer = r.0 } in
      let v = put_connection r.1 key (some after) in
      let entry = queue_write_tcp ev.ring after in
      reached t.server (submit v entry)
        (Steps-trans t.server r.1.server (submit v entry).server first
          (same-Steps r.1.server (submit v entry).server (submit-Alike v entry).1))
        u last

  send_context_server :
      (t : Thread) (ctx : Context) (entry : Option QueueEntry)
      → (send_context t ctx entry).server ≡ t.server
  unfolding send_context
  send_context_server t ctx none = refl
  send_context_server t ctx (some entry) = refl

  serve_udp-EndsSteps :
      (conn : Connection) (peer : Peer) (query_buf : List ℕ) (t : Thread)
      → IsNamedQuery false query_buf
      → EndsSteps t.server (serve_udp env ev conn peer query_buf t)
  unfolding EndsSteps serve_udp
  serve_udp-EndsSteps conn peer query_buf t named u run =
      let (r, answered, last) =
        >>=-some (answer_query env ev.current t false peer query_buf) _ run in
      let first = answer_query-Steps env ev.current t false peer query_buf r.0 r.1 named answered in
      let ctx : Context = record {
        address = ev.new_context;
        fd = conn.fd;
        written = r.0;
        peer = peer;
      } in
      let entry = queue_write_udp ev.ring ev.new_context conn.fd in
      let v = send_context r.1 ctx entry in
      reached t.server v
        (Steps-trans t.server r.1.server v.server first
          (same-Steps r.1.server v.server (send_context_server r.1 ctx entry)))
        u last

  pub serve-EndsSteps :
      (key : ℕ) (conn : Connection) (message : Message) (t : Thread)
      → IsNamedMessage message
      → EndsSteps t.server (serve env ev key conn message t)
  unfolding serve
  serve-EndsSteps key conn message t named =
      let query_buf = query_buf_of message.payload in
      elim (Bool-cases (conn.type == sync_type)) [
        | inl sync ↦ simp sync (serve_sync-EndsSteps key conn query_buf t named.request)
        | inr other ↦ elim (Bool-cases (conn.type == tcp_type)) [
          | inl tcp ↦ simp (other, tcp) (serve_tcp-EndsSteps key conn query_buf t named.over_tcp)
          | inr more ↦ elim (Bool-cases (conn.type == udp_type)) [
            | inl udp ↦
                simp (other, more, udp)
                  (serve_udp-EndsSteps conn message.peer query_buf t named.over_udp)
            | inr nothing ↦ simp (other, more, nothing) (reached t.server t (stop t.server))
          ]
        ]
      ]
