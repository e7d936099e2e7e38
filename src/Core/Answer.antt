-- ===== src/Core/Answer.antt =====
-- The answer section, lines 797 to 1033 of src/Core/Core.cpp.
use edge_dns.Prelude.{
  ℕ, suc, ◌+◌, ◌/◌, ◌%◌, ◌^◌, ◌&&◌, ◌||◌, not, Bool, true, false, List, [], ◌∷◌, ◌++◌, map, ltb,
  ◌==◌, if◌then◌else◌, length,
}
use edge_dns.Records.State.{CassUuid, DnsResponseData}
use edge_dns.Wire.Codec.{to_be32}
use edge_dns.Groups.State.{EntryResponse}
use edge_dns.Core.State.{Question, Job, RrlBucket, Surroundings, Reply, out_size}

-- `w16`
unfoldable pub be16 : ℕ → List ℕ
be16 v = (v / 256 % 256) ∷ (v % 256) ∷ []

unfoldable pub resource_record : (qtype ttl priority : ℕ) → List ℕ → List ℕ
unfolding be16 to_be32
resource_record qtype ttl priority rdata =
    be16 0xC00C
    ++ be16 qtype
    ++ be16 1
    ++ to_be32 ttl
    ++ (if qtype == 15
        then be16 ((2 + length rdata) % 2 ^ 16) ++ be16 priority ++ rdata
        else be16 (length rdata % 2 ^ 16) ++ rdata)

unfoldable pub udp_limit : Question → ℕ
udp_limit q = if q.edns_class == 0 then 512 else q.edns_class

-- Whether the next record, with data of this size, is cut.
unfoldable pub is_full : Question → Bool → Reply → ℕ → Bool
unfolding udp_limit
is_full q is_tcp p size =
    p.truncated
    || (not is_tcp && ltb (udp_limit q) (length p.written + (12 + size)))
    || ltb out_size (length p.written + (12 + size) + 32)

unfoldable pub put : Question → (is_tcp : Bool) → (ttl priority : ℕ) → List ℕ → Reply → Reply
put q is_tcp ttl priority rdata p =
    let full = is_full q is_tcp p (length rdata) in
    record p {
      truncated = full;
      written = if full then p.written else p.written ++ resource_record q.qtype ttl priority rdata;
      anc = if full then p.anc else (p.anc + 1) % 2 ^ 16;
    }

-- `memcmp(ip_str, "127.0.0.1", 9) == 0`
unfoldable pub starts_with : List ℕ → List ℕ → Bool
starts_with [] s = true
starts_with (c ∷ cs) [] = false
starts_with (c ∷ cs) (d ∷ s) = (c == d) && starts_with cs s

abbrev pub loopback : List ℕ
loopback = b'1' ∷ b'2' ∷ b'7' ∷ b'.' ∷ b'0' ∷ b'.' ∷ b'0' ∷ b'.' ∷ b'1' ∷ []

abbrev pub default_country : List ℕ
default_country = b'D' ∷ b'E' ∷ b'F' ∷ b'A' ∷ b'U' ∷ b'L' ∷ b'T' ∷ 0 ∷ []

unfoldable pub country_code : Surroundings → List ℕ
country_code w = elim w.country [ [] ↦ default_country | _ ∷ _ ↦ w.country ]

-- The entries of a group for the client's country, and the cache writes that finding them queues:
-- from the cache, from the database, or from the database for `DEFAULT`.
unfoldable pub find_entries : Surroundings → CassUuid → List EntryResponse × List Job
unfolding country_code
find_entries w group =
    let code = country_code w in
    elim (w.cached_entries group code) [
      | e ∷ es ↦ (e ∷ es, [])
      | [] ↦ elim (w.stored_entries group code) [
        | e ∷ es ↦ (e ∷ es, map (Job.entry_job group code) (e ∷ es))
        | [] ↦
            let es = w.stored_entries group default_country in
            (es, map (Job.entry_job group default_country) es)
      ]
    ]

unfoldable pub put_entries :
    Question → (is_tcp : Bool) → (priority : ℕ) → List EntryResponse → Reply → Reply
put_entries q is_tcp priority [] p = p
put_entries q is_tcp priority (e ∷ es) p =
    put_entries q is_tcp priority es (put q is_tcp 3600 priority e.ip p)

unfoldable pub put_group :
    Surroundings → Question → (is_tcp : Bool) → CassUuid → (priority : ℕ) → Reply → Reply
unfolding find_entries
put_group w q is_tcp group priority p =
    let found = find_entries w group in
    put_entries q is_tcp priority found.0 (record p { jobs = p.jobs ++ found.1 })

-- The rate limit, with the clock at `current`.
unfoldable pub count_response : RrlBucket → ℕ → RrlBucket
count_response b current = record b {
  window_start = current;
  responses = if b.window_start == current then (b.responses + 1) % 2 ^ 32 else 1;
}

unfoldable pub limit_rate : Surroundings → (is_tcp : Bool) → (current : ℕ) → Reply → Reply
unfolding count_response
limit_rate w is_tcp current p =
    let on = w.rate_limiting && not is_tcp in
    let b = count_response p.bucket current in
    record p {
      bucket = if on then b else p.bucket;
      truncated = p.truncated || (on && ltb w.threshold b.responses);
    }

unfoldable pub queue_record : (cache_hit : Bool) → DnsResponseData → Reply → Reply
queue_record cache_hit r p = record p {
  jobs = if cache_hit then p.jobs else p.jobs ++ Job.record_job r ∷ [];
}

-- The group whose addresses stand for a record, if one does.
pub data Source : Type 0 where
  own : Source
  group : CassUuid → Source

unfoldable pub source_of : Surroundings → DnsResponseData → Source
unfolding starts_with
source_of w r =
    if r.is_proxy && not (starts_with loopback w.ip_str)
    then Source.group w.proxy_id
    else (if r.is_geo then Source.group r.group_id else Source.own)

unfoldable pub put_source :
    Surroundings → Question → (is_tcp : Bool) → DnsResponseData → Source → Reply → Reply
put_source w q is_tcp r own p = put q is_tcp r.ttl r.priority r.rdata p
put_source w q is_tcp r (group g) p = put_group w q is_tcp g r.priority p

-- One round of the loop, for the record of number `n`.
unfoldable pub put_record :
    Surroundings → Question → (is_tcp cache_hit : Bool) → (n : ℕ) → DnsResponseData → Reply → Reply
unfolding source_of
put_record w q is_tcp cache_hit n r p =
    put_source w q is_tcp r (source_of w r)
      (limit_rate w is_tcp (w.current n) (queue_record cache_hit r p))

unfoldable pub put_records :
    Surroundings
    → Question
    → (is_tcp cache_hit : Bool) → (n : ℕ) → List DnsResponseData
    → Reply
    → Reply
put_records w q is_tcp cache_hit n [] p = p
put_records w q is_tcp cache_hit n (r ∷ rs) p =
    put_records w q is_tcp cache_hit (suc n) rs (put_record w q is_tcp cache_hit n r p)
