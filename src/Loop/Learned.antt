-- ===== src/Loop/Learned.antt =====
-- A query that only the database can answer, the worker's round behind it, and the query again.
use edge_dns.Prelude.{
  ℕ, ◌≡◌, ◌≢◌, refl, Bool, true, false, pos, List, [], ◌∷◌, some, take, ◌&&◌, ◌==◌, arith,
}
use edge_dns.Records.State.{DnsResponseData, Mmap, max_data_records}
use edge_dns.Records.Hash.{calculate_hash}
use edge_dns.Records.Ops.{get_record, append_record, is_nonempty}
use edge_dns.Records.Valid.{IsValid}
use edge_dns.Core.State.{Question, Job, RrlBucket, Surroundings}
use edge_dns.Core.Answer.{
  own, put, limit_rate, queue_record, source_of, put_source, put_record, put_records,
}
use edge_dns.Core.Respond.{begin_reply, answer_section, respond}
use edge_dns.Core.Query.{read_query, find_records, handle}
use edge_dns.Queue.State.{Server, queued_record}
use edge_dns.Queue.Worker.{data_in, worker_round}
use edge_dns.Queue.Stored.{IsAnswer, get_record-worker_round}
use edge_dns.Loop.State.{Peer, Environment, Thread}
use edge_dns.Loop.Queries.{queue_jobs, surroundings, zone_key, set_rrl, answer_query}

-- The cache writes for one answer of the database that stands for itself.
own_jobs :
    (w : Surroundings) (q : Question) (is_tcp : Bool) (r : DnsResponseData) (bucket : RrlBucket)
    → q.qclass ≡ 1
    → q.qdcount ≡ 1
    → source_of w r ≡ own
    → (answer_section w q is_tcp false (r ∷ []) (begin_reply q bucket)).jobs ≡ Job.record_job r ∷ []
unfolding answer_section begin_reply put_records put_record put_source put limit_rate queue_record
own_jobs w q is_tcp r bucket in_class alone itself =
    let asked : ((q.qclass == 1) && (q.qdcount == 1)) ≡ true = ground (arith, in_class, alone) in
    rw (asked, itself) refl

no_more : (xs : List DnsResponseData) → is_nonempty xs ≡ false → xs ≡ []
no_more [] h = refl
no_more (x ∷ xs) h = absurd (cc h)

-- A query of class IN with one question, on a well-formed record cache without a record of its name
-- and type, with both queues empty, and a name whose hash is not 0; the database has one answer, with
-- fields of their widths, which stands for itself, and the cache has room for it. The query is
-- answered from the database; the next round of the worker of the queues ends without a fault, with
-- an empty queue; and whoever asks for the name and type then is answered from the cache, with that
-- one answer, whose data are as the database gave them.
pub answer_query-worker_round :
    (env : Environment) (current : ℕ → ℕ) (t : Thread) (is_tcp : Bool) (peer : Peer)
    (query_buf : List ℕ) (q : Question) (r : DnsResponseData) (m : Mmap)
    → IsValid t.server.records
    → t.server.record_queue ≡ []
    → t.server.entry_queue ≡ []
    → calculate_hash q.name_wire ≢ 0
    → IsAnswer r
    → source_of (surroundings env t.server peer current) r ≡ own
    → read_query is_tcp query_buf ≡ some q
    → q.qclass ≡ 1
    → q.qdcount ≡ 1
    → get_record t.server.records q.name_wire (pos q.qtype) ≡ some (false, [])
    → find_records env.database t.server.records q ≡ some (false, r ∷ [])
    → append_record t.server.records q.name_wire
        (pos q.qtype)
        (data_in (queued_record q.name_wire (pos q.qtype) r))
      ≡ some (true, m)
    → (out : List ℕ) × (u : Thread) × (s : Server) × (b : ℕ) × (answer_query env current t is_tcp
          peer query_buf
        ≡ some (out, u))
      × (out
          ≡ respond
              (surroundings env t.server peer current)
              q
              is_tcp
              false
              (r ∷ [])
              (t.rrl_buckets peer.ip (zone_key q)))
      × (worker_round u.server ≡ some s)
      × (s.record_queue ≡ [])
      × (find_records env.database s.records q ≡ some (true, record r { bucket_idx = b } ∷ []))
unfolding answer_query set_rrl handle respond queue_jobs find_records
answer_query-worker_round env current t is_tcp peer query_buf q r m valid no_records no_entries
      named is itself read in_class alone missing found stored =
    let w = surroundings env t.server peer current in
    let bucket = t.rrl_buckets peer.ip (zone_key q) in
    let p = answer_section w q is_tcp false (r ∷ []) (begin_reply q bucket) in
    let (s, round, drained, b, before, was, after) =
      get_record-worker_round t.server q.name_wire (pos q.qtype) r m valid no_records no_entries
        named is stored in
    let gone : is_nonempty before ≡ false = cc (was, missing) in
    let only : take max_data_records (record r { bucket_idx = b } ∷ before)
        ≡ record r { bucket_idx = b } ∷ [] =
      rw (no_more before gone) refl in
    let u : Thread =
      set_rrl (record t { server = queue_jobs q.name_wire (pos q.qtype) p.jobs t.server }) peer.ip
        (zone_key q) p.bucket in
    (
      respond w q is_tcp false (r ∷ []) bucket,
      u,
      s,
      b,
      rw (read, found) refl,
      refl,
      rw (own_jobs w q is_tcp r bucket in_class alone itself) round,
      drained,
      rw (after, only) refl,
    )
