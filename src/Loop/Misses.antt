-- ===== src/Loop/Misses.antt =====
-- What a query puts in the queue of records.
use mathlib.Core.List.{append-nil, append_assoc}
use edge_dns.Prelude.{
  ℕ, ◌≡◌, refl, sym, ap, ◌∙◌, Bool, ℤ, pos, List, [], ◌∷◌, ◌++◌, map, some, if◌then◌else◌,
}
use edge_dns.Records.State.{DnsResponseData}
use edge_dns.Core.State.{Question, Job}
use edge_dns.Core.Respond.{begin_reply, answer_section, respond}
use edge_dns.Core.Query.{read_query, find_records, handle}
use edge_dns.Core.Jobs.{records_of, answer_section-records}
use edge_dns.Queue.State.{Server, add_queue_for_record, add_queue_for_entry, queued_record}
use edge_dns.Loop.State.{Peer, Environment, Thread}
use edge_dns.Loop.Queries.{queue_jobs, surroundings, zone_key, set_rrl, answer_query}

queue_jobs-records_of :
    (name : List ℕ) (qtype : ℤ) (jobs : List Job) (s : Server)
    → ((queue_jobs name qtype jobs s).record_queue
        ≡ s.record_queue ++ map (queued_record name qtype) (records_of jobs))
      × ((queue_jobs name qtype jobs s).records ≡ s.records)
      × ((queue_jobs name qtype jobs s).groups ≡ s.groups)
unfolding queue_jobs add_queue_for_record add_queue_for_entry records_of
queue_jobs-records_of name qtype [] s = (sym (append-nil s.record_queue), refl, refl)
queue_jobs-records_of name qtype (Job.record_job r ∷ jobs) s =
    let rest = queue_jobs-records_of name qtype jobs (add_queue_for_record s name qtype r) in
    (
      rest.0
          ∙ append_assoc s.record_queue (queued_record name qtype r ∷ [])
              (map (queued_record name qtype) (records_of jobs)),
      rest.1,
      rest.2,
    )
queue_jobs-records_of name qtype (Job.entry_job group_id country e ∷ jobs) s =
    queue_jobs-records_of name qtype jobs (add_queue_for_entry s group_id country e)

-- A query of class IN with one question that was read, and for which records were found in the cache
-- or in the database: it is answered, with the response for these records, and neither cache is
-- changed. Of the cache's records nothing is queued; the database's are queued behind what the queue
-- of records holds, all of them in their order, to be added under the name and the type of the query.
pub answer_query-queued_of :
    (env : Environment) (current : ℕ → ℕ) (t : Thread) (is_tcp : Bool) (peer : Peer)
    (query_buf : List ℕ) (q : Question) (cache_hit : Bool) (rs : List DnsResponseData)
    → read_query is_tcp query_buf ≡ some q
    → find_records env.database t.server.records q ≡ some (cache_hit, rs)
    → q.qclass ≡ 1
    → q.qdcount ≡ 1
    → (u : Thread) × (answer_query env current t is_tcp peer query_buf
        ≡ some (
          respond
              (surroundings env t.server peer current)
              q
              is_tcp
              cache_hit
              rs
              (t.rrl_buckets peer.ip (zone_key q)),
          u,
        ))
      × (u.server.record_queue
          ≡ t.server.record_queue
            ++ map (queued_record q.name_wire (pos q.qtype)) (if cache_hit then [] else rs))
      × (u.server.records ≡ t.server.records)
      × (u.server.groups ≡ t.server.groups)
unfolding answer_query set_rrl handle respond
answer_query-queued_of env current t is_tcp peer query_buf q cache_hit rs read found in_class
      alone =
    let w = surroundings env t.server peer current in
    let bucket = t.rrl_buckets peer.ip (zone_key q) in
    let p = answer_section w q is_tcp cache_hit rs (begin_reply q bucket) in
    let (queue, records, groups) =
      queue_jobs-records_of q.name_wire (pos q.qtype) p.jobs t.server in
    (
      set_rrl (record t { server = queue_jobs q.name_wire (pos q.qtype) p.jobs t.server }) peer.ip
          (zone_key q) p.bucket,
      rw (read, found) refl,
      queue
          ∙ ap (λ xs. t.server.record_queue ++ map (queued_record q.name_wire (pos q.qtype)) xs)
              (answer_section-records w q is_tcp cache_hit rs bucket in_class alone),
      records,
      groups,
    )
