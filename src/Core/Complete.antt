-- ===== src/Core/Complete.antt =====
-- That nothing is cut from a response over TCP whose records fit.
use edge_dns.Prelude.{
  ℕ, suc, ◌+◌, ◌≤◌, ◌≡◌, Bool, true, false, List, [], ◌∷◌, ◌++◌, length, length-append, arith,
}
use edge_dns.Records.State.{DnsResponseData}
use edge_dns.Groups.State.{EntryResponse}
use edge_dns.Core.State.{Question, Surroundings, Reply, out_size}
use edge_dns.Core.Answer.{
  resource_record, is_full, put, put_entries, put_group, limit_rate, queue_record, put_source,
  Source, source_of, put_record, put_records, find_entries,
}
use edge_dns.Core.Fits.{length-resource_record}
use edge_dns.Core.Sections.{Resource, section_bytes}
use edge_dns.Core.Count.{entry_resources, source_resources, resources}

-- Not truncated, with so many bytes written that `size` more fit.
abbrev pub Spare : Reply → ℕ → Type 0
Spare p size = (p.truncated ≡ false) × (length p.written + size + 32 ≤ out_size)

length-section_append :
    (qtype : ℕ) (xs ys : List Resource)
    → length (section_bytes qtype (xs ++ ys))
      ≡ length (section_bytes qtype xs) + length (section_bytes qtype ys)
unfolding section_bytes
length-section_append qtype [] ys = omega arith
length-section_append qtype (x ∷ xs) ys =
    let rr = resource_record qtype x.ttl x.priority x.rdata in
    omega (
      arith,
      length-append rr (section_bytes qtype xs),
      length-append rr (section_bytes qtype (xs ++ ys)),
      length-section_append qtype xs ys,
    )

module _ (w : Surroundings) (q : Question) (cache_hit : Bool) where
  put-Spare :
      (ttl priority : ℕ) (rdata : List ℕ) (p : Reply) (size : ℕ)
      → Spare p (length (resource_record q.qtype ttl priority rdata) + size)
      → Spare (put q true ttl priority rdata p) size
  unfolding put is_full
  put-Spare ttl priority rdata p size (clear, room) =
      let rr = resource_record q.qtype ttl priority rdata in
      ground (arith, length-append p.written rr, length-resource_record q.qtype ttl priority rdata)

  put_entries-Spare :
      (priority : ℕ) (es : List EntryResponse) (p : Reply) (size : ℕ)
      → Spare p (length (section_bytes q.qtype (entry_resources priority es)) + size)
      → Spare (put_entries q true priority es p) size
  unfolding put_entries entry_resources section_bytes
  put_entries-Spare priority [] p size h = (h.0, omega (arith, h.1))
  put_entries-Spare priority (e ∷ es) p size h =
      let rr = resource_record q.qtype 3600 priority e.ip in
      let more = section_bytes q.qtype (entry_resources priority es) in
      put_entries-Spare priority es (put q true 3600 priority e.ip p) size (
        put-Spare 3600 priority e.ip p (length more + size)
          (h.0, omega (arith, h.1, length-append rr more)))

  put_source-Spare :
      (r : DnsResponseData) (s : Source) (p : Reply) (size : ℕ)
      → Spare p (length (section_bytes q.qtype (source_resources w r s)) + size)
      → Spare (put_source w q true r s p) size
  unfolding put_source source_resources put_group section_bytes
  put_source-Spare r Source.own p size h =
      let rr = resource_record q.qtype r.ttl r.priority r.rdata in
      put-Spare r.ttl r.priority r.rdata p size (h.0, omega (arith, h.1, length-append rr []))
  put_source-Spare r (Source.group g) p size h =
      put_entries-Spare r.priority (find_entries w g).0
        (record p { jobs = p.jobs ++ (find_entries w g).1 }) size h

  put_record-Spare :
      (n : ℕ) (r : DnsResponseData) (p : Reply) (size : ℕ)
      → Spare p (length (section_bytes q.qtype (source_resources w r (source_of w r))) + size)
      → Spare (put_record w q true cache_hit n r p) size
  unfolding put_record limit_rate queue_record
  put_record-Spare n r p size h =
      put_source-Spare r (source_of w r)
        (limit_rate w true (w.current n) (queue_record cache_hit r p)) size (ground (arith, h), h.1)

  pub put_records-Spare :
      (n : ℕ) (rs : List DnsResponseData) (p : Reply)
      → Spare p (length (section_bytes q.qtype (resources w rs)))
      → Spare (put_records w q true cache_hit n rs p) 0
  unfolding put_records resources
  put_records-Spare n [] p h = (h.0, omega (arith, h.1))
  put_records-Spare n (r ∷ rs) p h =
      let sizes =
        length-section_append q.qtype (source_resources w r (source_of w r)) (resources w rs) in
      put_records-Spare (suc n) rs (put_record w q true cache_hit n r p) (
        put_record-Spare n r p (length (section_bytes q.qtype (resources w rs)))
          (h.0, omega (arith, h.1, sizes)))
