-- ===== src/Loop/Queries.antt =====
-- A query in a thread: `Core::handle` with the server's caches and queues.
use edge_dns.Prelude.{
  ℕ, Bool, ℤ, pos, List, [], ◌∷◌, Option, none, some, ◌>>=◌, ◌==◌, if◌then◌else◌, take,
}
use mathlib.Core.Logic.{ite}
use edge_dns.Records.State.{CassUuid}
use edge_dns.Groups.State.{GroupMmap, EntryResponse}
use edge_dns.Groups.Ops.{get_entries}
use edge_dns.Wire.Codec.{host_wire_no_alloc}
use edge_dns.Core.State.{Question, Job, RrlBucket, Surroundings}
use edge_dns.Core.Query.{read_query, handle}
use edge_dns.Geo.State.{string_dec}
use edge_dns.Geo.Country.{get_country}
use edge_dns.Queue.State.{Server, add_queue_for_record, add_queue_for_entry}
use edge_dns.Loop.State.{Peer, Environment, Thread}

-- `get_record` of the IP group cache, which clears its list first.
unfoldable pub cached_in : GroupMmap → CassUuid → List ℕ → List EntryResponse
cached_in g group_id country = elim (get_entries g group_id country) [ none ↦ [] | some es ↦ es ]

unfoldable pub surroundings : Environment → Server → Peer → (current : ℕ → ℕ) → Surroundings
unfolding cached_in
surroundings env s peer current = record {
  rate_limiting = env.rate_limiting;
  threshold = env.threshold;
  proxy_id = env.proxy_id;
  ip_str = peer.ip_str;
  country = get_country (env.lookup peer.ip_str);
  cached_entries = cached_in s.groups;
  stored_entries = env.stored_entries;
  current = current;
}

-- The cache writes that a query queues, for its name and type.
unfoldable pub queue_jobs : List ℕ → ℤ → List Job → Server → Server
unfolding add_queue_for_record add_queue_for_entry
queue_jobs name qtype [] s = s
queue_jobs name qtype (Job.record_job r ∷ jobs) s =
    queue_jobs name qtype jobs (add_queue_for_record s name qtype r)
queue_jobs name qtype (Job.entry_job group_id country e ∷ jobs) s =
    queue_jobs name qtype jobs (add_queue_for_entry s group_id country e)

-- The first four bytes of `zoneBuf`.
unfoldable pub zone_key : Question → List ℕ
zone_key q = take 4 (host_wire_no_alloc q.name_wire 256)

unfoldable pub set_rrl : Thread → ℕ → List ℕ → RrlBucket → Thread
set_rrl t ip zone b = record t {
  rrl_buckets =
      λ i z. if i == ip then ite (string_dec z zone) b (t.rrl_buckets i z) else t.rrl_buckets i z;
}

unfoldable pub answer_query :
    Environment
    → (current : ℕ → ℕ) → Thread
    → (is_tcp : Bool) → Peer
    → List ℕ
    → Option (List ℕ × Thread)
unfolding surroundings queue_jobs zone_key set_rrl
answer_query env current t is_tcp peer query_buf = do
  q ← read_query is_tcp query_buf
  let w = surroundings env t.server peer current
  (out, jobs, bucket) ←
      handle w env.database t.server.records is_tcp (t.rrl_buckets peer.ip (zone_key q)) query_buf
  some (
    out,
    set_rrl (record t { server = queue_jobs q.name_wire (pos q.qtype) jobs t.server }) peer.ip
        (zone_key q) bucket,
  )
