-- ===== src/Loop/Servers.antt =====
-- The caches and the queues behind a query.
use edge_dns.Prelude.{>>=-some, ℕ, ◌≡◌, ◌≢◌, sym, ap, subst, Bool, ℤ, pos, List, [], ◌∷◌, some}
use edge_dns.Records.Hash.{calculate_hash}
use edge_dns.Core.State.{Question, Job}
use edge_dns.Core.Query.{read_query, handle}
use edge_dns.Queue.State.{Server, add_queue_for_record, add_queue_for_entry, queued_record}
use edge_dns.Queue.Safe.{IsSound, IsNamed-append}
use edge_dns.Loop.State.{Peer, Environment, Thread}
use edge_dns.Loop.Queries.{queue_jobs, surroundings, zone_key, set_rrl, answer_query}

queue_jobs-IsSound :
    (name : List ℕ) (qtype : ℤ) (jobs : List Job) (s : Server)
    → calculate_hash name ≢ 0
    → IsSound s
    → IsSound (queue_jobs name qtype jobs s)
unfolding queue_jobs add_queue_for_record add_queue_for_entry queued_record
queue_jobs-IsSound name qtype [] s named sound = sound
queue_jobs-IsSound name qtype (Job.record_job r ∷ jobs) s named sound =
    queue_jobs-IsSound name qtype jobs (add_queue_for_record s name qtype r) named (record {
      valid = sound.valid;
      named = IsNamed-append s.record_queue (queued_record name qtype r) sound.named named;
    })
queue_jobs-IsSound name qtype (Job.entry_job group_id country e ∷ jobs) s named sound =
    queue_jobs-IsSound name qtype jobs (add_queue_for_entry s group_id country e) named
      (record { valid = sound.valid; named = sound.named })

-- The name of the query, if it is one, has a hash that is not 0.
abbrev pub IsNamedQuery : Bool → List ℕ → Type 0
IsNamedQuery is_tcp query_buf =
    (q : Question) → read_query is_tcp query_buf ≡ some q → calculate_hash q.name_wire ≢ 0

-- What a query leaves alone.
pub answer_query-frame :
    (env : Environment) (current : ℕ → ℕ) (t : Thread) (is_tcp : Bool) (peer : Peer)
    (query_buf out : List ℕ) (u : Thread)
    → answer_query env current t is_tcp peer query_buf ≡ some (out, u)
    → (q : Question) × (jobs : List Job) × (read_query is_tcp query_buf ≡ some q)
      × (u.server ≡ queue_jobs q.name_wire (pos q.qtype) jobs t.server)
      × (u.pool ≡ t.pool)
      × (u.connections ≡ t.connections)
      × (u.given_back ≡ t.given_back)
unfolding answer_query set_rrl
answer_query-frame env current t is_tcp peer query_buf out u run =
    let (q, read, next) = >>=-some (read_query is_tcp query_buf) _ run in
    let (r, answered, last) =
      >>=-some
        (handle (surroundings env t.server peer current) env.database t.server.records is_tcp
          (t.rrl_buckets peer.ip (zone_key q)) query_buf)
        _ next in
    let same : record t {
      server = queue_jobs q.name_wire (pos q.qtype) r.1 t.server;
      rrl_buckets = (set_rrl t peer.ip (zone_key q) r.2).rrl_buckets;
    }
        ≡ u =
      cc last in
    (
      q,
      r.1,
      read,
      ap (λ (v : Thread). v.server) (sym same),
      ap (λ (v : Thread). v.pool) (sym same),
      ap (λ (v : Thread). v.connections) (sym same),
      ap (λ (v : Thread). v.given_back) (sym same),
    )

-- What a query keeps.
pub answer_query-IsSound :
    (env : Environment) (current : ℕ → ℕ) (t : Thread) (is_tcp : Bool) (peer : Peer)
    (query_buf out : List ℕ) (u : Thread)
    → IsSound t.server
    → IsNamedQuery is_tcp query_buf
    → answer_query env current t is_tcp peer query_buf ≡ some (out, u)
    → IsSound u.server × (u.pool ≡ t.pool) × (u.connections ≡ t.connections)
answer_query-IsSound env current t is_tcp peer query_buf out u sound named run =
    let (q, jobs, read, server, pool, connections, _) =
      answer_query-frame env current t is_tcp peer query_buf out u run in
    (
      subst IsSound (sym server)
          (queue_jobs-IsSound q.name_wire (pos q.qtype) jobs t.server (named q read) sound),
      pool,
      connections,
    )
