-- ===== src/Records/Append.antt =====
-- `append_record` on a well-formed cache: when it answers true, and what it leaves.
use edge_dns.Prelude.{
  ℤ-cases, ℕ, ◌<◌, ◌≡◌, ◌≢◌, refl, ap, ◌∙◌, Bool, true, false, not, ◌&&◌, ◌⊎◌, inl, inr, ℤ, pos,
  negsuc, minus_one, ◌==◌, some, List, ltb, arith, length, Bool-cases,
}
use edge_dns.Records.State.{Mmap, RecordData, hash_table_size, payload_size, no_bucket}
use edge_dns.Records.Hash.{calculate_hash, id_slot}
use edge_dns.Records.Probe.{find_bucket_cases, id_slot-lt}
use edge_dns.Records.Cells.{find_bucket, pop_free_slot}
use edge_dns.Records.Ops.{append_record}
use edge_dns.Records.Valid.{IsValid}
use edge_dns.Records.Push.{pushed, pushed-IsValid}
use edge_dns.Records.Link.{Fits, append_record-pushed}

-- A successful append: the free record, the bucket, and the state that it leaves.
pub record Appends (m : Mmap) (name : List ℕ) (qtype : ℤ) (d : RecordData) (r : Mmap) : Type 0 where
  pub i : ℕ
  pub b : ℕ
  pub free : m.free_list_head_idx ≡ pos i
  pub found : find_bucket m (calculate_hash name) qtype ≡ some b
  pub bound : b < hash_table_size
  pub fits : Fits m b (calculate_hash name) qtype
  pub unclaimed : m.id_hash_table (id_slot d.id) ≡ minus_one
  pub small : (not d.is_geo && ltb payload_size (length d.binary_rdata)) ≡ false
  pub result : r ≡ pushed m b (calculate_hash name) qtype i d

module _ (m : Mmap) (name : List ℕ) (qtype : ℤ) (d : RecordData) (v : IsValid m) where
  -- Why an append is refused: the data is too long, no bucket of the name's window is empty or the
  -- name's, the ID's bucket is taken, or no record is free.
  abbrev pub Refuses : Type 0
  Refuses =
      ((not d.is_geo && ltb payload_size (length d.binary_rdata)) ≡ true)
      ⊎ (find_bucket m (calculate_hash name) qtype ≡ some no_bucket)
      ⊎ (m.id_hash_table (id_slot d.id) ≢ minus_one)
      ⊎ (m.free_list_head_idx ≡ minus_one)

  abbrev Outcome : Type 0
  Outcome =
      ((append_record m name qtype d ≡ some (false, m)) × Refuses)
      ⊎ ((r : Mmap) × (append_record m name qtype d ≡ some (true, r)) × Appends m name qtype d r)

  allocate :
      (b : ℕ)
      → find_bucket m (calculate_hash name) qtype ≡ some b
      → b < hash_table_size
      → Fits m b (calculate_hash name) qtype
      → m.id_hash_table (id_slot d.id) ≡ minus_one
      → (not d.is_geo && ltb payload_size (length d.binary_rdata)) ≡ false
      → Outcome
  unfolding append_record pop_free_slot
  allocate b found bound fits unclaimed small = elim (ℤ-cases m.free_list_head_idx) [
    | inl (i, e) ↦ inr (
      pushed m b (calculate_hash name) qtype i d,
      append_record-pushed m name qtype d v b i small found bound fits unclaimed e,
      record {
        i = i;
        b = b;
        free = e;
        found = found;
        bound = bound;
        fits = fits;
        unclaimed = unclaimed;
        small = small;
        result = refl;
      },
    )
    | inr (k, e) ↦
        let real : b == no_bucket ≡ false = ground arith in
        inl (
          rw (small, found, real, unclaimed, e, v.free.free_neg k e),
          inr (inr (inr (e ∙ ap negsuc (v.free.free_neg k e)))),
        )
  ]

  pub append_record_cases : Outcome
  unfolding append_record
  append_record_cases =
      let (b, found, which) = find_bucket_cases m (calculate_hash name) qtype in
      elim (Bool-cases (not d.is_geo && ltb payload_size (length d.binary_rdata))) [
        | inl big ↦ inl (rw big, inl big)
        | inr small ↦ elim which [
          | inl missing ↦ inl (rw (small, found, missing), inr (inl (rw missing at found)))
          | inr (bound, fits) ↦ elim (ℤ-cases (m.id_hash_table (id_slot d.id))) [
            | inl (s, taken) ↦
                let real : b == no_bucket ≡ false = ground arith in
                inl (rw (small, found, real, taken), inr (inr (inl (λ e. absurd (cc (e, taken))))))
            | inr (k, e) ↦
                let unclaimed : m.id_hash_table (id_slot d.id) ≡ minus_one =
                  e ∙ ap negsuc (v.ids.entry_neg _ k (id_slot-lt d.id) e) in
                allocate b found bound fits unclaimed small
          ]
        ]
      ]

  -- On a well-formed cache, for a name whose hash is not 0, `append_record` ends without a fault and
  -- leaves a well-formed cache. Where it answers false it has changed nothing and has one of four
  -- reasons: data longer than 254 bytes, no bucket, an ID bucket in use, no free record. Where it
  -- answers true, none of them held, and the record is put in front of the chain of its bucket.
  pub append_record-IsValid :
      calculate_hash name ≢ 0
      → (done : Bool) × (r : Mmap) × (append_record m name qtype d ≡ some (done, r))
        × IsValid r
        × (done ≡ false → (r ≡ m) × Refuses)
        × (done ≡ true → Appends m name qtype d r)
  append_record-IsValid named = elim append_record_cases [
    | inl (refused, why) ↦ (false, m, refused, v, (λ e. (refl, why)), λ e. absurd (cc e))
    | inr (r, run, a) ↦ (
      true,
      r,
      run,
      rw a.result (
          pushed-IsValid m a.b (calculate_hash name) qtype a.i d v a.free a.bound named
            a.unclaimed),
      (λ e. absurd (cc e)),
      λ e. a,
    )
  ]
