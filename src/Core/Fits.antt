-- ===== src/Core/Fits.antt =====
-- That a response fits in the array it is written to, and in what the client accepts.
use edge_dns.Prelude.{
  subst, ◌⊎◌, ◌≢◌, ℕ, zero, suc, ◌+◌, ◌≤◌, ◌≡◌, inl, inr, refl, ap, ◌&&◌, Bool, false, Bool-cases,
  List, [], ◌∷◌, ◌++◌, ltb, ◌==◌, if◌then◌else◌, length, length-append, arith,
}
use edge_dns.Records.State.{DnsResponseData}
use edge_dns.Wire.Codec.{to_be32}
use edge_dns.Groups.State.{EntryResponse}
use edge_dns.Core.State.{Question, RrlBucket, Surroundings, Reply, out_size}
use edge_dns.Core.Answer.{
  be16, resource_record, is_full, udp_limit, put, put_entries, put_group, limit_rate, queue_record,
  put_source, Source, source_of, put_record, put_records, find_entries,
}
use edge_dns.Core.Respond.{
  set_byte, begin_reply, fix_header, add_opt, frame, answer_section, respond,
}

pub length-resource_record :
    (qtype ttl priority : ℕ) (rdata : List ℕ)
    → length (resource_record qtype ttl priority rdata)
      ≡ 12 + length rdata + (if qtype == 15 then 2 else 0)
unfolding resource_record be16 to_be32
length-resource_record qtype ttl priority rdata = ground arith

-- An answer that leaves room for the OPT record and the TCP length.
abbrev pub Roomy : Reply → Type 0
Roomy p = length p.written ≤ 4066

put-Roomy :
    (q : Question) (is_tcp : Bool) (ttl priority : ℕ) (rdata : List ℕ) (p : Reply)
    → Roomy p
    → Roomy (put q is_tcp ttl priority rdata p)
unfolding put is_full
put-Roomy q is_tcp ttl priority rdata p h =
    let rr = resource_record q.qtype ttl priority rdata in
    ground (arith, length-append p.written rr, length-resource_record q.qtype ttl priority rdata)

-- A bound on what is written that each single record keeps is kept by the whole answer section.
module _ (w : Surroundings) (q : Question) (is_tcp cache_hit : Bool) (bound : ℕ)
    (keeps : (ttl priority : ℕ) (rdata : List ℕ) (p : Reply)
      → length p.written ≤ bound
      → length (put q is_tcp ttl priority rdata p).written ≤ bound) where
  put_entries-le :
      (priority : ℕ) (es : List EntryResponse) (p : Reply)
      → length p.written ≤ bound
      → length (put_entries q is_tcp priority es p).written ≤ bound
  unfolding put_entries
  put_entries-le priority [] p h = h
  put_entries-le priority (e ∷ es) p h =
      put_entries-le priority es (put q is_tcp 3600 priority e.ip p) (keeps 3600 priority e.ip p h)

  put_source-le :
      (r : DnsResponseData) (s : Source) (p : Reply)
      → length p.written ≤ bound
      → length (put_source w q is_tcp r s p).written ≤ bound
  unfolding put_source put_group
  put_source-le r Source.own p h = keeps r.ttl r.priority r.rdata p h
  put_source-le r (Source.group g) p h =
      put_entries-le r.priority (find_entries w g).0
        (record p { jobs = p.jobs ++ (find_entries w g).1 }) h

  put_record-le :
      (n : ℕ) (r : DnsResponseData) (p : Reply)
      → length p.written ≤ bound
      → length (put_record w q is_tcp cache_hit n r p).written ≤ bound
  unfolding put_record limit_rate queue_record
  put_record-le n r p h =
      put_source-le r (source_of w r)
        (limit_rate w is_tcp (w.current n) (queue_record cache_hit r p)) h

  put_records-le :
      (n : ℕ) (rs : List DnsResponseData) (p : Reply)
      → length p.written ≤ bound
      → length (put_records w q is_tcp cache_hit n rs p).written ≤ bound
  unfolding put_records
  put_records-le n [] p h = h
  put_records-le n (r ∷ rs) p h =
      put_records-le (suc n) rs (put_record w q is_tcp cache_hit n r p) (put_record-le n r p h)

  pub answer_section-le :
      (rs : List DnsResponseData) (p : Reply)
      → length p.written ≤ bound
      → length (answer_section w q is_tcp cache_hit rs p).written ≤ bound
  unfolding answer_section
  answer_section-le rs p h = elim (Bool-cases ((q.qclass == 1) && (q.qdcount == 1))) [
    | inl asked ↦ rw asked (put_records-le 0 rs p h)
    | inr refused ↦ rw refused h
  ]

-- The OPT record of RFC 6891: the root name, type 41, a payload size of 4096, and zeros.
abbrev pub opt_record : List ℕ
opt_record = 0 ∷ 0 ∷ 41 ∷ 16 ∷ 0 ∷ 0 ∷ 0 ∷ 0 ∷ 0 ∷ 0 ∷ 0 ∷ []

length-set_byte : (out : List ℕ) (i v : ℕ) → length (set_byte out i v) ≡ length out
unfolding set_byte
length-set_byte [] i v = refl
length-set_byte (b ∷ bs) zero v = refl
length-set_byte (b ∷ bs) (suc i) v = omega (arith, length-set_byte bs i v)

length-fix_header : (q : Question) (p : Reply) → length (fix_header q p) ≡ length p.written
unfolding fix_header
length-fix_header q p =
    rw
      (
        length-set_byte _ 11 1,
        length-set_byte _ 10 0,
        length-set_byte _ 3 _,
        length-set_byte _ 2 _,
        length-set_byte _ 7 _,
        length-set_byte _ 6 _,
      )
      refl

add_opt-Roomy : (out : List ℕ) → length out ≤ 4066 → add_opt out ≡ out ++ opt_record
unfolding add_opt be16 to_be32
add_opt-Roomy out h =
    let fits : ltb out_size (length out + 11) ≡ false = ground arith in rw fits refl

length-frame : (is_tcp : Bool) (out : List ℕ) → length (frame is_tcp out) ≤ length out + 2
unfolding frame be16
length-frame is_tcp out = ground arith

pub length-begin_reply :
    (q : Question) (bucket : RrlBucket)
    → length (begin_reply q bucket).written ≡ 12 + length q.question
unfolding begin_reply be16
length-begin_reply q bucket = omega arith

module _ (w : Surroundings) (q : Question) (is_tcp cache_hit : Bool) (rs : List DnsResponseData)
    (bucket : RrlBucket) where
  unfoldable pub answered : Reply
  answered = answer_section w q is_tcp cache_hit rs (begin_reply q bucket)

  pub answered-Roomy : length q.question ≤ 4054 → Roomy answered
  unfolding answered
  answered-Roomy h =
      answer_section-le w q is_tcp cache_hit 4066 (put-Roomy q is_tcp) rs (begin_reply q bucket)
        (omega (arith, h, length-begin_reply q bucket))

  -- With a question section of at most 4054 bytes the response fits in the 4096 bytes of `out`, and
  -- the OPT record stands whole behind everything that was written: no record is cut by it.
  pub respond-Roomy :
      length q.question ≤ 4054
      → (respond w q is_tcp cache_hit rs bucket
          ≡ frame is_tcp (fix_header q answered ++ opt_record))
        × (length (respond w q is_tcp cache_hit rs bucket) ≤ out_size)
  unfolding respond answered
  respond-Roomy h =
      let small = answered-Roomy h in
      let size = length-fix_header q answered in
      let whole = add_opt-Roomy (fix_header q answered) (omega (arith, size, small)) in
      let framed = length-frame is_tcp (fix_header q answered ++ opt_record) in
      let joined = length-append (fix_header q answered) opt_record in
      (ap (frame is_tcp) whole, rw whole (omega (arith, framed, joined, size, small)))

put-limit :
    (q : Question) (ttl priority : ℕ) (rdata : List ℕ) (p : Reply)
    → length p.written ≤ udp_limit q + (if q.qtype == 15 then 2 else 0)
    → length (put q false ttl priority rdata p).written
      ≤ udp_limit q + (if q.qtype == 15 then 2 else 0)
unfolding put is_full
put-limit q ttl priority rdata p h =
    let rr = resource_record q.qtype ttl priority rdata in
    ground (arith, length-append p.written rr, length-resource_record q.qtype ttl priority rdata)

module _ (w : Surroundings) (q : Question) (cache_hit : Bool) (rs : List DnsResponseData)
    (bucket : RrlBucket) where
  udp_limit_size :
      (size : ℕ)
      → ((q.edns_class ≡ size) × (size ≢ 0)) ⊎ ((q.edns_class ≡ 0) × (size ≡ 512))
      → udp_limit q ≡ size
  unfolding udp_limit
  udp_limit_size size (inl (is, some_size)) = ground (arith, is, some_size)
  udp_limit_size size (inr (none_given, is)) = ground (arith, none_given, is)

  udp_limit_response :
      length q.question ≤ 4054
      → 12 + length q.question ≤ udp_limit q
      → length (respond w q false cache_hit rs bucket)
        ≤ udp_limit q + (if q.qtype == 15 then 2 else 0) + 11
  unfolding answered frame
  udp_limit_response h k =
      let begun : length (begin_reply q bucket).written
          ≤ udp_limit q + (if q.qtype == 15 then 2 else 0) =
        omega (arith, length-begin_reply q bucket, k) in
      let short =
        answer_section-le w q false cache_hit (udp_limit q + (if q.qtype == 15 then 2 else 0))
          (put-limit q) rs (begin_reply q bucket) begun in
      let (whole, fits) = respond-Roomy w q false cache_hit rs bucket h in
      let p = answered w q false cache_hit rs bucket in
      rw whole
        (omega (arith, short, length-append (fix_header q p) opt_record, length-fix_header q p))

  -- A response over UDP, and a size: the class of the record behind the question of the query, or
  -- the 512 bytes of plain DNS where that is 0. If the header and the question alone, the question of
  -- at most 4054 bytes, are not longer than the size, the response is not longer than the size, the
  -- 11 bytes of the OPT record and, for MX records, 2 bytes more.
  pub respond-udp_limit :
      (size : ℕ)
      → ((q.edns_class ≡ size) × (size ≢ 0)) ⊎ ((q.edns_class ≡ 0) × (size ≡ 512))
      → length q.question ≤ 4054
      → 12 + length q.question ≤ size
      → length (respond w q false cache_hit rs bucket)
        ≤ size + (if q.qtype == 15 then 2 else 0) + 11
  respond-udp_limit size which h k =
      let limit : udp_limit q ≡ size = udp_limit_size size which in
      subst
        (λ l.
          length (respond w q false cache_hit rs bucket)
          ≤ l + (if q.qtype == 15 then 2 else 0) + 11)
        limit (udp_limit_response h (omega (arith, k, limit)))
