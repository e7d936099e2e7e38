-- ===== src/Core/Count.antt =====
-- The answer section as a whole: the first of the records that were found.
use edge_dns.Prelude.{ℕ, suc, ◌≡◌, refl, sym, ◌∙◌, Bool, true, List, [], ◌∷◌, ◌++◌, arith}
use mathlib.Core.List.{append-nil}
use edge_dns.Records.State.{DnsResponseData}
use edge_dns.Groups.State.{EntryResponse}
use edge_dns.Core.State.{Question, Surroundings, Reply}
use edge_dns.Core.Answer.{
  put, put_entries, put_group, limit_rate, queue_record, put_source, Source, source_of, put_record,
  put_records, find_entries,
}
use edge_dns.Core.Sections.{Resource, section_bytes, Grows, put-Grows, Grows-append}

-- The records that stand for the entries of a group.
unfoldable pub entry_resources : (priority : ℕ) → List EntryResponse → List Resource
entry_resources priority [] = []
entry_resources priority (e ∷ es) =
    record { ttl = 3600; priority = priority; rdata = e.ip } ∷ entry_resources priority es

unfoldable pub source_resources : Surroundings → DnsResponseData → Source → List Resource
unfolding entry_resources
source_resources w r Source.own =
    record { ttl = r.ttl; priority = r.priority; rdata = r.rdata } ∷ []
source_resources w r (Source.group g) = entry_resources r.priority (find_entries w g).0

-- Every resource record that the records found stand for, in order.
unfoldable pub resources : Surroundings → List DnsResponseData → List Resource
unfolding source_resources
resources w [] = []
resources w (r ∷ rs) = source_resources w r (source_of w r) ++ resources w rs

unchanged-Grows :
    (qtype : ℕ) (p r : Reply)
    → r.written ≡ p.written
    → r.anc ≡ p.anc
    → (p.truncated ≡ true → r.truncated ≡ true)
    → Grows qtype [] p r
unfolding section_bytes
unchanged-Grows qtype p r bytes count stays = record {
  n = 0;
  within = omega arith;
  bytes = bytes ∙ sym (append-nil p.written);
  count = omega arith;
  cut = λ h. absurd (omega arith);
  stays = λ t. (refl, stays t);
}

module _ (w : Surroundings) (q : Question) (is_tcp cache_hit : Bool) where
  put_entries-Grows :
      (priority : ℕ) (es : List EntryResponse) (p : Reply)
      → Grows q.qtype (entry_resources priority es) p (put_entries q is_tcp priority es p)
  unfolding put_entries entry_resources
  put_entries-Grows priority [] p = unchanged-Grows q.qtype p p refl refl (λ t. t)
  put_entries-Grows priority (e ∷ es) p =
      let x : Resource = record { ttl = 3600; priority = priority; rdata = e.ip } in
      let r = put q is_tcp 3600 priority e.ip p in
      Grows-append q.qtype (x ∷ []) (entry_resources priority es) p r
        (put_entries q is_tcp priority es r) (put-Grows q is_tcp x p)
        (put_entries-Grows priority es r)

  put_source-Grows :
      (r : DnsResponseData) (s : Source) (p : Reply)
      → Grows q.qtype (source_resources w r s) p (put_source w q is_tcp r s p)
  unfolding put_source source_resources put_group
  put_source-Grows r Source.own p =
      put-Grows q is_tcp (record { ttl = r.ttl; priority = r.priority; rdata = r.rdata }) p
  put_source-Grows r (Source.group g) p =
      let found = find_entries w g in
      let p' : Reply = record p { jobs = p.jobs ++ found.1 } in
      Grows-append q.qtype [] (entry_resources r.priority found.0) p p'
        (put_entries q is_tcp r.priority found.0 p')
        (unchanged-Grows q.qtype p p' refl refl (λ t. t)) (put_entries-Grows r.priority found.0 p')

  put_record-Grows :
      (n : ℕ) (r : DnsResponseData) (p : Reply)
      → Grows q.qtype
          (source_resources w r (source_of w r))
          p
          (put_record w q is_tcp cache_hit n r p)
  unfolding put_record limit_rate queue_record
  put_record-Grows n r p =
      let p' = limit_rate w is_tcp (w.current n) (queue_record cache_hit r p) in
      Grows-append q.qtype [] (source_resources w r (source_of w r)) p p'
        (put_source w q is_tcp r (source_of w r) p')
        (unchanged-Grows q.qtype p p' refl refl (λ t. rw t refl))
        (put_source-Grows r (source_of w r) p')

  pub put_records-Grows :
      (n : ℕ) (rs : List DnsResponseData) (p : Reply)
      → Grows q.qtype (resources w rs) p (put_records w q is_tcp cache_hit n rs p)
  unfolding put_records resources
  put_records-Grows n [] p = unchanged-Grows q.qtype p p refl refl (λ t. t)
  put_records-Grows n (r ∷ rs) p =
      let p' = put_record w q is_tcp cache_hit n r p in
      Grows-append q.qtype (source_resources w r (source_of w r)) (resources w rs) p p'
        (put_records w q is_tcp cache_hit (suc n) rs p') (put_record-Grows n r p)
        (put_records-Grows (suc n) rs p')
