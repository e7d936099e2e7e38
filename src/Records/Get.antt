-- ===== src/Records/Get.antt =====
-- What `get_record` answers after an append: the new record first, then what it answered before.
use edge_dns.Prelude.{
  ℕ, suc, ◌<◌, ◌≡◌, ◌≢◌, sym, ap, ◌∙◌, subst, true, false, inl, inr, ℤ, pos, ==ℤ_refl, ℤ-cases, ap₂,
  ◌==◌, some, Bool-cases, arith, List, ◌∷◌, take,
}
use edge_dns.Records.State.{
  Mmap, RecordData, DnsResponseData, max_data_records, hash_table_size, no_bucket,
}
use edge_dns.Records.Hash.{calculate_hash}
use edge_dns.Records.Cells.{find_bucket, stops_at}
use edge_dns.Records.Probe.{Finds, find_bucket-Finds}
use edge_dns.Records.Ops.{collect, is_nonempty, get_record, append_record}
use edge_dns.Records.Valid.{IsUsed, IsValid}
use edge_dns.Records.Push.{pushed, first_of_bucket}
use edge_dns.Records.Unique.{Finds-unique}
use edge_dns.Records.Walk.{
  OnChain, collect-pushed, collect-take, collect-end, pushed_self, visit_used, answer_of,
}
use edge_dns.Records.Append.{Appends, append_record_cases}

-- The new record's bucket is still the first that fits.
pushed-Finds :
    (m : Mmap) (hash : ℕ) (qtype : ℤ) (b i : ℕ) (d : RecordData)
    → b < hash_table_size
    → Finds m hash qtype b
    → Finds (pushed m b hash qtype i d) hash qtype b
unfolding pushed stops_at
pushed-Finds m hash qtype b i d bound (inr (e, all)) = absurd (omega arith)
pushed-Finds m hash qtype b i d bound (inl (k, h, e, stop, first)) =
    inl (k, h, e, ground (arith, ==ℤ_refl qtype), λ j q. ground (arith, first j q))

module _ (m : Mmap) (v : IsValid m) (name : List ℕ) (qtype : ℤ) (d : RecordData)
    (named : calculate_hash name ≢ 0) (r : Mmap) (a : Appends m name qtype d r) where
  found_before : Finds m (calculate_hash name) qtype a.b
  found_before =
      let (b, run, found) = find_bucket-Finds m (calculate_hash name) qtype in
      let same : b ≡ a.b = cc (run, a.found) in
      subst (Finds m (calculate_hash name) qtype) same found

  found_after : find_bucket r (calculate_hash name) qtype ≡ some a.b
  found_after =
      let new = pushed-Finds m (calculate_hash name) qtype a.b a.i d a.bound found_before in
      let (b, run, found) =
        find_bucket-Finds (pushed m a.b (calculate_hash name) qtype a.i d) (calculate_hash name)
          qtype in
      rw a.result (
        run
        ∙ ap some (
            Finds-unique (pushed m a.b (calculate_hash name) qtype a.i d) (calculate_hash name)
              qtype b a.b found new))

  -- What `get_record` answered before the append.
  pub before : List DnsResponseData
  before = collect max_data_records m (first_of_bucket m a.b)

  unused : IsUsed m a.i false
  unused = (v.free.free_pos a.i a.free).1

  first_used : (h : ℕ) → first_of_bucket m a.b ≡ pos h → (h < max_data_records) × IsUsed m h true
  unfolding first_of_bucket
  first_used h e = ground (arith, v.chains.head_pos a.b h, a.bound)

  head-OnChain :
      OnChain m v.chains a.b (calculate_hash name) qtype a.i d unused (first_of_bucket m a.b)
  head-OnChain = elim (ℤ-cases (first_of_bucket m a.b)) [
    | inl (h, e) ↦ rw e (first_used h e)
    | inr (k, e) ↦ rw e tt
  ]

  get_before : get_record m name qtype ≡ some (is_nonempty before, before)
  unfolding get_record first_of_bucket before
  get_before =
      let real : a.b == no_bucket ≡ false = ground (arith, a.bound) in
      elim (Bool-cases ((m.hash_table a.b).name_hash == 0)) [
        | inl empty ↦
            rw (a.found, real, empty)
              (ap (λ (t : List DnsResponseData). some (is_nonempty t, t))
                (sym (collect-end max_data_records m 0)))
        | inr busy ↦ rw (a.found, real, busy)
      ]

  -- The walk from the new record.
  collect_after :
      (fuel : ℕ)
      → collect (suc fuel) (pushed m a.b (calculate_hash name) qtype a.i d) (pos a.i)
        ≡ answer_of d a.b ∷ collect fuel m (first_of_bucket m a.b)
  unfolding collect
  collect_after fuel =
      let r = pushed m a.b (calculate_hash name) qtype a.i d in
      let (used, next, answer) = pushed_self m a.b (calculate_hash name) qtype a.i d a.small in
      let apart : (r.data_records a.i).next_index ≢ pos a.i =
        λ e. cc ((first_used a.i (sym next ∙ e)).1, unused) in
      visit_used (r.data_records a.i) a.i _ (v.free.free_pos a.i a.free).0 used apart
      ∙ ap₂ ◌∷◌ answer (
          ap (collect fuel r) next
          ∙ collect-pushed m v.chains a.b (calculate_hash name) qtype a.i d unused fuel _
              head-OnChain)

  walk_after :
      collect max_data_records (pushed m a.b (calculate_hash name) qtype a.i d) (pos a.i)
      ≡ take max_data_records (answer_of d a.b ∷ before)
  unfolding before
  walk_after =
      collect_after 99999
      ∙ ap (◌∷◌ (answer_of d a.b)) (collect-take 99999 m (first_of_bucket m a.b))

  head_after : ((r.hash_table a.b).name_hash ≢ 0) × ((r.hash_table a.b).head_slot_idx ≡ pos a.i)
  unfolding pushed
  head_after = rw a.result (ground arith)

  get_after :
      get_record r name qtype ≡ some (true, take max_data_records (answer_of d a.b ∷ before))
  unfolding get_record
  get_after =
      let real : a.b == no_bucket ≡ false = ground (arith, a.bound) in
      let (ne, head) = head_after in
      let busy : (r.hash_table a.b).name_hash == 0 ≡ false = ground arith in
      rw (found_after, real, busy, head)
        (ap (λ (t : List DnsResponseData). some (is_nonempty t, t))
          (ap (λ t. collect max_data_records t (pos a.i)) a.result ∙ walk_after))

-- On a well-formed cache, for a name whose hash is not 0: once `append_record` has answered true,
-- `get_record` for the same name and type answers the new record first, with the data stored, and
-- behind it what it answered before the append, up to the limit of the walk.
pub get_record-append_record :
    (m : Mmap) (name : List ℕ) (qtype : ℤ) (d : RecordData) (r : Mmap)
    → IsValid m
    → calculate_hash name ≢ 0
    → append_record m name qtype d ≡ some (true, r)
    → (b : ℕ) × (before : List DnsResponseData) × (get_record m name qtype
        ≡ some (is_nonempty before, before))
      × (get_record r name qtype ≡ some (true, take max_data_records (answer_of d b ∷ before)))
get_record-append_record m name qtype d r v named run =
    elim (append_record_cases m name qtype d v) [
      | inl (refused, why) ↦ absurd (cc (run, refused))
      | inr (s, run', a) ↦
          let same : s ≡ r = cc (run, run') in
          let b = subst (Appends m name qtype d) same a in
          (
            b.b,
            before m v name qtype d named r b,
            get_before m v name qtype d named r b,
            get_after m v name qtype d named r b,
          )
    ]
