-- ===== src/Records/Push.antt =====
-- The state that a successful `append_record` leaves, written out, and its well-formedness.
use edge_dns.Prelude.{
  ℕ, suc, ◌<◌, ◌≡◌, ◌≢◌, false, ℤ, pos, minus_one, ◌==ℤ◌, ◌==◌, if◌then◌else◌, arith, update,
}
use edge_dns.Records.State.{Mmap, RecordData, max_data_records, hash_table_size}
use edge_dns.Records.Hash.{id_slot}
use edge_dns.Records.Ops.{filled}
use edge_dns.Records.Valid.{IsUsed, ChainsValid, FreeValid, IdsValid, OrderValid, IsValid}

-- The first record of an occupied bucket.
unfoldable pub first_of_bucket : Mmap → ℕ → ℤ
first_of_bucket m b =
    if (m.hash_table b).name_hash == 0 then minus_one else (m.hash_table b).head_slot_idx

unfoldable pub pushed : Mmap → (bucket_idx hash : ℕ) → ℤ → ℕ → RecordData → Mmap
unfolding first_of_bucket
pushed m b hash qtype i d = record {
  hash_table =
      update m.hash_table b (record { name_hash = hash; qtype = qtype; head_slot_idx = pos i });
  id_hash_table = update m.id_hash_table (id_slot d.id) (pos i);
  data_records = λ j.
      if j == i
      then record (filled (m.data_records i) d b) {
        next_index = first_of_bucket m b;
        prev_index = minus_one;
      }
      else (if first_of_bucket m b ==ℤ pos j
          then record (m.data_records j) { prev_index = pos i }
          else m.data_records j);
  free_list_head_idx = (m.data_records i).next_index;
}

module _ (m : Mmap) (b hash : ℕ) (qtype : ℤ) (i : ℕ) (d : RecordData) (c : ChainsValid m)
    (room : i < max_data_records) (unused : IsUsed m i false) (bound : b < hash_table_size)
    (named : hash ≢ 0) where
  pushed-ChainsValid : ChainsValid (pushed m b hash qtype i d)
  unfolding pushed filled
  pushed-ChainsValid = record {
    next_pos = λ s n h u e. ground (arith, c.next_pos s n, c.head_pos b n);
    next_neg = λ s k h u e. ground (arith, c.next_neg s k, c.head_neg b k);
    prev_pos = λ s p h u e. ground (arith, c.prev_pos s p, c.head_pos b s);
    prev_neg = λ s k h u e. ground (arith, c.prev_neg s k, c.bucket_used s);
    bucket_used = λ s h u. ground (arith, c.bucket_used s);
    head_pos = λ b' h' h u e. ground (arith, c.head_pos b' h', c.head_pos b h');
    head_neg = λ b' k h e. ground (arith, c.head_neg b' k);
  }

module _ (m : Mmap) (b hash : ℕ) (qtype : ℤ) (i : ℕ) (d : RecordData) where
  pushed-FreeValid :
      FreeValid m
      → ChainsValid m
      → b < hash_table_size
      → m.free_list_head_idx ≡ pos i
      → FreeValid (pushed m b hash qtype i d)
  unfolding pushed filled
  pushed-FreeValid v c bound head = record {
    free_pos = λ f e. ground (arith, v.free_pos i, v.link_pos i f);
    free_neg = λ k e. ground (arith, v.free_pos i, v.link_neg i k);
    link_pos = λ s n h u e.
        ground (arith, v.free_pos i, v.link_pos s n, v.link_injective s i n, c.head_pos b s);
    link_neg = λ s k h u e. ground (arith, v.link_neg s k);
    link_injective = λ s t n hs ht us ut es et. ground (arith, v.link_injective s t n);
  }

  pushed-OrderValid :
      OrderValid m
      → ChainsValid m
      → b < hash_table_size
      → IsUsed m i false
      → OrderValid (pushed m b hash qtype i d)
  unfolding pushed filled
  pushed-OrderValid o c bound unused = record {
    age = update o.age i o.clock;
    clock = suc o.clock;
    older = λ s n h u e. ground (arith, o.older s n, o.past n, c.head_pos b n, c.next_pos s n);
    past = λ s h u. ground (arith, o.past s);
  }

  pushed-IdsValid :
      IdsValid m
      → i < max_data_records
      → IsUsed m i false
      → m.id_hash_table (id_slot d.id) ≡ minus_one
      → IdsValid (pushed m b hash qtype i d)
  unfolding pushed filled
  pushed-IdsValid v room unused empty = record {
    id_used = λ s h u. ground (arith, v.id_used s);
    entry_pos = λ j s h e. ground (arith, v.entry_pos j s);
    entry_neg = λ j k h e. ground (arith, v.entry_neg j k);
  }

  -- Linking a free record in front of a chain keeps the cache well formed.
  pub pushed-IsValid :
      IsValid m
      → m.free_list_head_idx ≡ pos i
      → b < hash_table_size
      → hash ≢ 0
      → m.id_hash_table (id_slot d.id) ≡ minus_one
      → IsValid (pushed m b hash qtype i d)
  pushed-IsValid v head bound named empty =
      let (room, unused) = v.free.free_pos i head in
      record {
        chains = pushed-ChainsValid m b hash qtype i d v.chains room unused bound named;
        order = pushed-OrderValid v.order v.chains bound unused;
        free = pushed-FreeValid v.free v.chains bound head;
        ids = pushed-IdsValid v.ids room unused empty;
      }
