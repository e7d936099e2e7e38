-- ===== src/Core/Jobs.antt =====
-- The cache writes that a query queues for records.
use mathlib.Core.List.{append-nil, append_assoc}
use edge_dns.Prelude.{
  ℕ, suc, ◌≡◌, refl, sym, ap, ◌∙◌, ◌⊎◌, inl, inr, ◌&&◌, Bool, true, false, List, [], ◌∷◌, ◌++◌, map,
  arith, if◌then◌else◌, ◌==◌,
}
use edge_dns.Records.State.{CassUuid, DnsResponseData}
use edge_dns.Groups.State.{EntryResponse}
use edge_dns.Core.State.{Question, Job, RrlBucket, Surroundings, Reply}
use edge_dns.Core.Answer.{
  Source, country_code, default_country, put, find_entries, put_entries, put_group, limit_rate,
  queue_record, source_of, put_source, put_record, put_records,
}
use edge_dns.Core.Respond.{begin_reply, answer_section}

-- The records among the writes, in their order.
unfoldable pub records_of : List Job → List DnsResponseData
records_of [] = []
records_of (Job.record_job r ∷ jobs) = r ∷ records_of jobs
records_of (Job.entry_job group code e ∷ jobs) = records_of jobs

records_of-append : (xs ys : List Job) → records_of (xs ++ ys) ≡ records_of xs ++ records_of ys
unfolding records_of
records_of-append [] ys = refl
records_of-append (Job.record_job r ∷ xs) ys = ap (λ t. r ∷ t) (records_of-append xs ys)
records_of-append (Job.entry_job group code e ∷ xs) ys = records_of-append xs ys

records_of-entries :
    (group : CassUuid) (code : List ℕ) (es : List EntryResponse)
    → records_of (map (Job.entry_job group code) es) ≡ []
unfolding records_of
records_of-entries group code [] = refl
records_of-entries group code (e ∷ es) = records_of-entries group code es

list_cases : {A : Type 0} (xs : List A) → (xs ≡ []) ⊎ ((e : A) × (es : List A) × (xs ≡ e ∷ es))
list_cases [] = inl refl
list_cases (e ∷ es) = inr (e, es, refl)

module _ (w : Surroundings) (q : Question) (is_tcp : Bool) where
  records_of-found : (group : CassUuid) → records_of (find_entries w group).1 ≡ []
  unfolding find_entries records_of
  records_of-found group =
      let code = country_code w in
      elim (list_cases (w.cached_entries group code)) [
        | inr (e, es, cached) ↦ rw (cached, find_entries) refl
        | inl none_cached ↦ elim (list_cases (w.stored_entries group code)) [
          | inr (e, es, stored) ↦
              rw (none_cached, stored, find_entries) (records_of-entries group code (e ∷ es))
          | inl none_stored ↦
              rw (none_cached, none_stored, find_entries)
                (records_of-entries group default_country (w.stored_entries group default_country))
        ]
      ]

  put_entries-jobs :
      (priority : ℕ) (es : List EntryResponse) (p : Reply)
      → (put_entries q is_tcp priority es p).jobs ≡ p.jobs
  unfolding put_entries put
  put_entries-jobs priority [] p = refl
  put_entries-jobs priority (e ∷ es) p =
      put_entries-jobs priority es (put q is_tcp 3600 priority e.ip p)

  put_source-records :
      (r : DnsResponseData) (source : Source) (p : Reply)
      → records_of (put_source w q is_tcp r source p).jobs ≡ records_of p.jobs
  unfolding put_source put_group put
  put_source-records r Source.own p = refl
  put_source-records r (Source.group g) p =
      let found = find_entries w g in
      ap records_of (put_entries-jobs r.priority found.0 (record p { jobs = p.jobs ++ found.1 }))
      ∙ records_of-append p.jobs found.1
      ∙ ap (λ t. records_of p.jobs ++ t) (records_of-found g)
      ∙ append-nil (records_of p.jobs)

  -- What a query queues of records that were found: nothing of the cache's, all of the database's.
  abbrev pub queued_of : Bool → List DnsResponseData → List DnsResponseData
  queued_of cache_hit rs = if cache_hit then [] else rs

  put_record-records :
      (cache_hit : Bool) (n : ℕ) (r : DnsResponseData) (p : Reply)
      → records_of (put_record w q is_tcp cache_hit n r p).jobs
        ≡ records_of p.jobs ++ queued_of cache_hit (r ∷ [])
  unfolding put_record limit_rate queue_record records_of
  put_record-records true n r p =
      put_source-records r (source_of w r)
        (limit_rate w is_tcp (w.current n) (queue_record true r p))
      ∙ sym (append-nil (records_of p.jobs))
  put_record-records false n r p =
      put_source-records r (source_of w r)
        (limit_rate w is_tcp (w.current n) (queue_record false r p))
      ∙ records_of-append p.jobs (Job.record_job r ∷ [])

  put_records-records :
      (cache_hit : Bool) (n : ℕ) (rs : List DnsResponseData) (p : Reply)
      → records_of (put_records w q is_tcp cache_hit n rs p).jobs
        ≡ records_of p.jobs ++ queued_of cache_hit rs
  unfolding put_records
  put_records-records true n [] p = sym (append-nil (records_of p.jobs))
  put_records-records false n [] p = sym (append-nil (records_of p.jobs))
  put_records-records true n (r ∷ rs) p =
      put_records-records true (suc n) rs (put_record w q is_tcp true n r p)
      ∙ append-nil (records_of (put_record w q is_tcp true n r p).jobs)
      ∙ put_record-records true n r p
  put_records-records false n (r ∷ rs) p =
      put_records-records false (suc n) rs (put_record w q is_tcp false n r p)
      ∙ ap (λ t. t ++ rs) (put_record-records false n r p)
      ∙ append_assoc (records_of p.jobs) (r ∷ []) rs

  -- The records of a response that is written for class IN and one question.
  pub answer_section-records :
      (cache_hit : Bool) (rs : List DnsResponseData) (bucket : RrlBucket)
      → q.qclass ≡ 1
      → q.qdcount ≡ 1
      → records_of (answer_section w q is_tcp cache_hit rs (begin_reply q bucket)).jobs
        ≡ queued_of cache_hit rs
  unfolding answer_section begin_reply records_of
  answer_section-records cache_hit rs bucket in_class alone =
      let asked : ((q.qclass == 1) && (q.qdcount == 1)) ≡ true = ground (arith, in_class, alone) in
      rw asked (put_records-records cache_hit 0 rs (begin_reply q bucket))
