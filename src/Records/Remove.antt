-- ===== src/Records/Remove.antt =====
-- The state that a successful `delete_record_from_uuid` leaves, written out, and its
-- well-formedness.
use edge_dns.Prelude.{
  ℕ, zero, suc, ◌+◌, ap, inl, inr, ℤ-cases, ◌<◌, ◌≡◌, true, pos, minus_one, ◌==ℤ◌, ◌==◌,
  if◌then◌else◌, arith, update,
}
use edge_dns.Records.State.{Mmap, IndexBucket, DnsRecord, max_data_records}
use edge_dns.Records.Hash.{id_slot}
use edge_dns.Records.Cells.{cleared}
use edge_dns.Records.Valid.{IsUsed, ChainsValid, FreeValid, IdsValid, OrderValid, IsValid}

-- The bucket of record `i` once the record is gone.
unfoldable pub bucket_without : Mmap → ℕ → IndexBucket
bucket_without m i =
    let r = m.data_records i in
    let k = m.hash_table r.bucket_idx in
    if k.head_slot_idx ==ℤ pos i
    then (if r.next_index ==ℤ minus_one
        then record { name_hash = 0; qtype = pos 0; head_slot_idx = minus_one }
        else record k { head_slot_idx = r.next_index })
    else k

-- Record `j`, relinked past record `i`.
unfoldable pub relinked : Mmap → ℕ → ℕ → DnsRecord
relinked m i j =
    let r = m.data_records i in
    let q = m.data_records j in
    record q {
      next_index = if r.prev_index ==ℤ pos j then r.next_index else q.next_index;
      prev_index = if r.next_index ==ℤ pos j then r.prev_index else q.prev_index;
    }

unfoldable pub removed : Mmap → ℕ → Mmap
unfolding bucket_without relinked cleared
removed m i = record {
  hash_table = update m.hash_table (m.data_records i).bucket_idx (bucket_without m i);
  id_hash_table = update m.id_hash_table (id_slot (m.data_records i).id) minus_one;
  data_records =
      λ j. if j == i then cleared (m.data_records i) m.free_list_head_idx else relinked m i j;
  free_list_head_idx = pos i;
}

module _ (m : Mmap) (c : ChainsValid m) (o : OrderValid m) (i : ℕ) where
  -- A record that is alone in the chain of its bucket is the only used record of the bucket.
  alone :
      (fuel s : ℕ)
      → o.clock < fuel + o.age s
      → s < max_data_records
      → IsUsed m s true
      → (m.hash_table (m.data_records s).bucket_idx).head_slot_idx ≡ pos i
      → (m.data_records i).next_index ≡ minus_one
      → s ≡ i
  alone zero s f h u head end = absurd (omega (arith, o.past s h u))
  alone (suc fuel) s f h u head end = elim (ℤ-cases (m.data_records s).prev_index) [
    | inr (k, e) ↦ ground (arith, c.prev_neg s k h u e)
    | inl (p, e) ↦
        let (inside, used, next, same) = c.prev_pos s p h u e in
        let older = o.older p s inside used next in
        let above = alone fuel p (omega arith) inside used (rw same head) end in
        absurd (cc (ap (λ t. (m.data_records t).next_index) above))
  ]

module _ (m : Mmap) (i : ℕ) (inside : i < max_data_records) (used : IsUsed m i true) where
  removed-ChainsValid : ChainsValid m → OrderValid m → ChainsValid (removed m i)
  unfolding removed
  removed-ChainsValid c o = record {
    next_pos = λ s n h u e.
        ground
          (arith, c.next_pos s n, c.next_pos i n, c.prev_pos i s, c.prev_pos n i, c.prev_pos n s);
    next_neg = λ s k h u e. ground (arith, c.next_neg s k, c.next_neg i k);
    prev_pos = λ s p h u e.
        ground
          (arith, c.prev_pos s p, c.prev_pos i p, c.next_pos i s, c.next_pos p i, c.next_pos p s);
    prev_neg = λ s k h u e.
        ground
          (arith, c.prev_neg s k, c.prev_neg i k, c.next_pos i s, c.bucket_used s, c.bucket_used i);
    bucket_used =
        λ s h u. ground (arith, c.bucket_used s, c.bucket_used i, alone m c o i (suc o.clock) s);
    head_pos = λ b h q u e.
        ground (arith, c.head_pos b h, c.head_pos b i, c.bucket_used i, c.next_pos i h);
    head_neg = λ b k q e. ground (arith, c.head_neg b k, c.next_neg i k);
  }

  removed-FreeValid : FreeValid m → ChainsValid m → FreeValid (removed m i)
  unfolding removed
  removed-FreeValid v c = record {
    free_pos = λ f e. ground arith;
    free_neg = λ k e. ground arith;
    link_pos = λ s n h u e. ground (arith, v.free_pos n, v.link_pos s n, c.prev_pos i s);
    link_neg = λ s k h u e. ground (arith, v.free_neg k, v.link_neg s k, c.prev_pos i s);
    link_injective = λ s t n hs ht us ut es et. ground (
      arith,
      v.link_pos s n,
      v.link_pos t n,
      v.link_injective s t n,
      c.prev_pos i s,
      c.prev_pos i t,
    );
  }

  removed-IdsValid : IdsValid m → IdsValid (removed m i)
  unfolding removed
  removed-IdsValid v = record {
    id_used = λ s h u. ground (arith, v.id_used s, v.id_used i);
    entry_pos = λ j s h e. ground (arith, v.entry_pos j s, v.id_used i);
    entry_neg = λ j k h e. ground (arith, v.entry_neg j k);
  }

  removed-OrderValid : OrderValid m → ChainsValid m → OrderValid (removed m i)
  unfolding removed
  removed-OrderValid o c = record {
    age = o.age;
    clock = o.clock;
    older = λ s n h u e. ground (arith, o.older s n, o.older s i, o.older i n, c.prev_pos i s);
    past = λ s h u. ground (arith, o.past s);
  }

-- Unlinking and freeing a used record keeps the cache well formed.
pub removed-IsValid :
    (m : Mmap) (i : ℕ) → i < max_data_records → IsUsed m i true → IsValid m → IsValid (removed m i)
removed-IsValid m i inside used v = record {
  chains = removed-ChainsValid m i inside used v.chains v.order;
  order = removed-OrderValid m i inside used v.order v.chains;
  free = removed-FreeValid m i inside used v.free v.chains;
  ids = removed-IdsValid m i inside used v.ids;
}
