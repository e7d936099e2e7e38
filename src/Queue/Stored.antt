-- ===== src/Queue/Stored.antt =====
-- What the database has answered once is answered by the cache from then on, and is stored once.
use edge_dns.Prelude.{
  ℕ, ◌^◌, ◌<◌, ◌≡◌, ◌≢◌, refl, sym, ap, ap₂, ◌∙◌, subst, inl, inr, true, false, Bool-cases, ℤ, pos,
  List, [], ◌∷◌, some, ltb, take, arith,
}
use edge_dns.Records.State.{DnsResponseData, Mmap, RecordData, max_data_records}
use edge_dns.Records.Hash.{calculate_hash, id_slot}
use edge_dns.Records.Valid.{IsValid}
use edge_dns.Records.Ops.{append_record, get_record, is_nonempty}
use edge_dns.Records.Append.{append_record-IsValid, append_record_cases}
use edge_dns.Records.Get.{get_record-append_record}
use edge_dns.Records.Push.{pushed}
use edge_dns.Records.Walk.{answer_of}
use edge_dns.Sync.Numbers.{to_unsigned}
use edge_dns.Queue.State.{Server, to_int, queued_record, add_queue_for_record}
use edge_dns.Queue.Worker.{data_in, worker_round, record_part, entry_part, store_record_of}

-- The widths of the fields of an answer; a geo record has no data.
pub record IsAnswer (req : DnsResponseData) : Type 0 where
  pub ttl_width : req.ttl < 2 ^ 32
  pub priority_width : req.priority < 2 ^ 16
  pub geo_empty : req.is_geo ≡ true → req.rdata ≡ []

to_unsigned-to_int : (n : ℕ) → n < 2 ^ 32 → to_unsigned 32 (to_int n) ≡ n
unfolding to_int to_unsigned
to_unsigned-to_int n h = elim (Bool-cases (ltb n (2 ^ 31))) [
  | inl low ↦ rw low (omega (arith, h))
  | inr high ↦ rw high (omega (arith, h))
]

small_priority : (n : ℕ) → n < 2 ^ 16 → to_unsigned 16 (pos n) ≡ n
unfolding to_unsigned
small_priority n h = omega (arith, h)

-- What the cache answers for a queued answer, but for the bucket.
answer_of-queued :
    (name : List ℕ) (qtype : ℤ) (req : DnsResponseData) (b : ℕ)
    → IsAnswer req
    → answer_of (data_in (queued_record name qtype req)) b ≡ record req { bucket_idx = b }
unfolding answer_of data_in queued_record
answer_of-queued name qtype req b is =
    let ttl = to_unsigned-to_int req.ttl is.ttl_width in
    let priority : to_unsigned 16 (pos req.priority) ≡ req.priority =
      small_priority req.priority is.priority_width in
    elim (Bool-cases req.is_geo) [
      | inl geo ↦ rw (ttl, priority, geo, is.geo_empty geo) refl
      | inr plain ↦ rw (ttl, priority, plain) refl
    ]

-- On a well-formed cache with empty queues, for a name whose hash is not 0: an answer that is queued
-- and that the cache accepts is stored by one round of the worker, and from then on `get_record`
-- answers it first, as it was but for its bucket, and behind it what it answered before.
pub get_record-worker_round :
    (s : Server) (name : List ℕ) (qtype : ℤ) (req : DnsResponseData) (m : Mmap)
    → IsValid s.records
    → s.record_queue ≡ []
    → s.entry_queue ≡ []
    → calculate_hash name ≢ 0
    → IsAnswer req
    → append_record s.records name qtype (data_in (queued_record name qtype req)) ≡ some (true, m)
    → (t : Server) × (worker_round (add_queue_for_record s name qtype req) ≡ some t)
      × (t.record_queue ≡ [])
      × (b : ℕ) × (before : List DnsResponseData) × (get_record s.records name qtype
          ≡ some (is_nonempty before, before))
      × (get_record t.records name qtype
          ≡ some (true, take max_data_records (record req { bucket_idx = b } ∷ before)))
unfolding worker_round record_part entry_part store_record_of add_queue_for_record
get_record-worker_round s name qtype req m v no_records no_entries named is run =
    let q = queued_record name qtype req in
    let (b, before, was, after) =
      get_record-append_record s.records name qtype (data_in q) m v named run in
    (
      record s { records = m; record_queue = [] },
      rw (no_records, run, no_entries) refl,
      refl,
      b,
      before,
      was,
      rw (sym (answer_of-queued name qtype req b is)) after,
    )

in_place :
    (m : Mmap) (b hash : ℕ) (qtype : ℤ) (i : ℕ) (d : RecordData) (k : ℕ)
    → k ≡ id_slot d.id
    → (pushed m b hash qtype i d).id_hash_table k ≡ pos i
unfolding pushed
in_place m b hash qtype i d k same = ground (arith, same)

-- On a well-formed cache, for names whose hash is not 0: once a record has been stored, a second one
-- with its ID, of whatever name and data, is refused and changes nothing.
pub append_record_twice :
    (m : Mmap) (name other : List ℕ) (qtype another : ℤ) (d e : RecordData) (r : Mmap)
    → IsValid m
    → calculate_hash name ≢ 0
    → calculate_hash other ≢ 0
    → append_record m name qtype d ≡ some (true, r)
    → e.id ≡ d.id
    → append_record r other another e ≡ some (false, r)
append_record_twice m name other qtype another d e r v named also run same =
    elim (append_record_cases m name qtype d v) [
      | inl (refused, why) ↦ absurd (cc (run, refused))
      | inr (s, run', a) ↦
          let it : s ≡ r = cc (run, run') in
          let claimed : r.id_hash_table (id_slot e.id) ≡ pos a.i =
            ap (λ (u : Mmap). u.id_hash_table (id_slot e.id)) (sym it ∙ a.result)
            ∙ in_place m a.b (calculate_hash name) qtype a.i d (id_slot e.id) (ap id_slot same) in
          let (first, u, ran, valid, _, _) = append_record-IsValid m name qtype d v named in
          let there : u ≡ r = cc (run, ran) in
          let (done, t, outcome, _, refused, stored) =
            append_record-IsValid r other another e (subst IsValid there valid) also in
          elim (Bool-cases done) [
            | inl accepted ↦ absurd (cc (claimed, (stored accepted).unclaimed))
            | inr no_more ↦ outcome ∙ ap₂ (λ x y. some (x, y)) no_more (refused no_more).0
          ]
    ]
