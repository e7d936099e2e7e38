-- ===== src/Records/Lost.antt =====
-- Deleting the only record of one bucket hides the records of the buckets behind it.
use edge_dns.Prelude.{
  ℕ, ◌<◌, ◌≡◌, refl, ap, ◌∙◌, true, false, inl, ℤ, pos, minus_one, ◌==◌, some, List, [], arith,
}
use edge_dns.Records.State.{CassUuid, Mmap, no_bucket}
use edge_dns.Records.Hash.{calculate_hash, mask}
use edge_dns.Records.Cells.{stops_at, find_bucket}
use edge_dns.Records.Probe.{window, Stops, Finds, find_bucket-Finds, window-lt}
use edge_dns.Records.Ops.{get_record, delete_record_from_uuid}
use edge_dns.Records.Valid.{IsValid}
use edge_dns.Records.ById.{Holds, delete-Holds}
use edge_dns.Records.Remove.{removed}
use edge_dns.Records.Unique.{Finds-unique}

-- The name's bucket is the `k`-th of its window, and record `i` is alone in the `j`-th, before it.
pub record IsBehind (m : Mmap) (hash : ℕ) (qtype : ℤ) (i j k : ℕ) : Type 0 where
  pub before : j < k
  pub within : k < 32
  pub stops : Stops m hash qtype k true
  pub passes : (l : ℕ) → l < k → Stops m hash qtype l false
  pub in_bucket : (m.data_records i).bucket_idx ≡ window (mask hash) j
  pub is_head : (m.hash_table (m.data_records i).bucket_idx).head_slot_idx ≡ pos i
  pub is_last : (m.data_records i).next_index ≡ minus_one

module _ (m : Mmap) (name : List ℕ) (qtype : ℤ) (i j k : ℕ)
    (w : IsBehind m (calculate_hash name) qtype i j k) where
  emptied-Finds :
      Finds (removed m i) (calculate_hash name) qtype (window (mask (calculate_hash name)) j)
  unfolding removed stops_at
  emptied-Finds = inl (
    j,
    omega (arith, w.before, w.within),
    refl,
    ground (arith, w.in_bucket, w.is_head, w.is_last),
    λ l h. ground (arith, w.passes l, w.before, w.within, w.in_bucket),
  )

  emptied_hash : ((removed m i).hash_table (window (mask (calculate_hash name)) j)).name_hash ≡ 0
  unfolding removed
  emptied_hash = ground (arith, w.in_bucket, w.is_head, w.is_last)

  get_record-removed : get_record (removed m i) name qtype ≡ some (false, [])
  unfolding get_record
  get_record-removed =
      let hash = calculate_hash name in
      let (b, run, found) = find_bucket-Finds (removed m i) hash qtype in
      let here =
        Finds-unique (removed m i) hash qtype b (window (mask hash) j) found emptied-Finds in
      let zero_hash : ((removed m i).hash_table b).name_hash ≡ 0 =
        ap (λ t. ((removed m i).hash_table t).name_hash) here ∙ emptied_hash in
      let real : b == no_bucket ≡ false = ground (arith, here, window-lt hash j) in
      rw (run, real, zero_hash)

  found_before :
      find_bucket m (calculate_hash name) qtype ≡ some (window (mask (calculate_hash name)) k)
  found_before =
      let hash = calculate_hash name in
      let (b, run, found) = find_bucket-Finds m hash qtype in
      let here =
        Finds-unique m hash qtype b (window (mask hash) k) found
          (inl (k, w.within, refl, w.stops, w.passes)) in
      run ∙ ap some here

-- On a well-formed cache where a name's bucket stands behind the bucket of record `i` in the name's
-- search, and `i` is the only record of its bucket: `find_bucket` finds the name's bucket, and once
-- `delete_record_from_uuid` has deleted `i` the name is no longer found.
pub get_record-delete_record_from_uuid :
    (m : Mmap) (name : List ℕ) (qtype : ℤ) (i j k : ℕ) (id : CassUuid)
    → IsValid m
    → Holds m id i
    → IsBehind m (calculate_hash name) qtype i j k
    → (r : Mmap) × (delete_record_from_uuid m id ≡ some (true, r))
      × (find_bucket m (calculate_hash name) qtype ≡ some (window (mask (calculate_hash name)) k))
      × (get_record r name qtype ≡ some (false, []))
get_record-delete_record_from_uuid m name qtype i j k id v here w = (
  removed m i,
  delete-Holds m v id i here,
  found_before m name qtype i j k w,
  get_record-removed m name qtype i j k w,
)
