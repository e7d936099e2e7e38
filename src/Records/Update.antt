-- ===== src/Records/Update.antt =====
-- `update_record` on a well-formed cache.
use edge_dns.Prelude.{
  ℕ, ◌≡◌, ◌≢◌, refl, false, ◌==◌, true, false, not, ◌&&◌, ◌⊎◌, inl, inr, ltb, some, Bool-cases,
  arith, length,
}
use edge_dns.Records.State.{Mmap, RecordData, payload_size, set_record}
use edge_dns.Records.Ops.{update_record, with_rdata, response_of}
use edge_dns.Records.Walk.{answer_of, stored_rdata}
use edge_dns.Records.Valid.{ChainsValid, FreeValid, IsValid}
use edge_dns.Records.ById.{Absent, Holds, lookup_id_cases}

pub rewritten : Mmap → ℕ → RecordData → Mmap
rewritten m i d = set_record m i (with_rdata (m.data_records i) d)

module _ (m : Mmap) (v : IsValid m) (i : ℕ) (d : RecordData) where
  rewritten-ChainsValid : ChainsValid (rewritten m i d)
  unfolding rewritten with_rdata
  rewritten-ChainsValid =
      let c = v.chains in
      record {
        next_pos = λ s n h u e. ground (arith, c.next_pos s n);
        next_neg = λ s k h u e. ground (arith, c.next_neg s k);
        prev_pos = λ s p h u e. ground (arith, c.prev_pos s p);
        prev_neg = λ s k h u e. ground (arith, c.prev_neg s k);
        bucket_used = λ s h u. ground (arith, c.bucket_used s);
        head_pos = λ b h q ne e. ground (arith, c.head_pos b h);
        head_neg = λ b k q e. ground (arith, c.head_neg b k);
      }

  rewritten-FreeValid : FreeValid (rewritten m i d)
  unfolding rewritten with_rdata
  rewritten-FreeValid =
      let f = v.free in
      record {
        free_pos = λ s e. ground (arith, f.free_pos s);
        free_neg = λ k e. ground (arith, f.free_neg k);
        link_pos = λ s n h u e. ground (arith, f.link_pos s n);
        link_neg = λ s k h u e. ground (arith, f.link_neg s k);
        link_injective = λ s t n hs ht us ut es et. ground (arith, f.link_injective s t n);
      }

  rewritten-IsValid : IsValid (rewritten m i d)
  unfolding rewritten with_rdata
  rewritten-IsValid = record {
    chains = rewritten-ChainsValid;
    free = rewritten-FreeValid;
    order = record {
      age = v.order.age;
      clock = v.order.clock;
      older = λ s n h u e. ground (arith, v.order.older s n);
      past = λ s h u. ground (arith, v.order.past s);
    };
    ids = record {
      id_used = λ s h u. ground (arith, v.ids.id_used s);
      entry_pos = λ j s h e. ground (arith, v.ids.entry_pos j s);
      entry_neg = λ j k h e. ground (arith, v.ids.entry_neg j k);
    };
  }

-- The data fits in the payload of a record.
abbrev pub IsSmall : RecordData → Type 0
IsSmall d = (not d.is_geo && ltb payload_size (length d.binary_rdata)) ≡ false

-- The two ends of `update_record`.
pub update_record_cases :
    (m : Mmap) (d : RecordData)
    → IsValid m
    → ((update_record m d ≡ some (false, m)) × (Absent m d.id ⊎ ¬ IsSmall d))
      ⊎ ((i : ℕ) × (update_record m d ≡ some (true, rewritten m i d))
          × Holds m d.id i
          × IsSmall d
          × IsValid (rewritten m i d))
unfolding update_record rewritten
update_record_cases m d v = elim (lookup_id_cases m v d.id) [
  | inl (found, absent) ↦ inl (rw found, inl absent)
  | inr (i, found, here) ↦
      elim (Bool-cases (not d.is_geo && ltb payload_size (length d.binary_rdata))) [
        | inl big ↦ inl (rw (found, big), inr (λ (small : IsSmall d). cc))
        | inr small ↦ inr (i, rw (found, small), here, small, rewritten-IsValid m v i d)
      ]
]

-- What is stored: the data in record `i`, and nothing else.
pub record Stores (m : Mmap) (d : RecordData) (i : ℕ) (r : Mmap) : Type 0 where
  pub answers : response_of (r.data_records i) ≡ answer_of d (m.data_records i).bucket_idx
  pub used : (r.data_records i).is_used ≡ true
  pub next : (r.data_records i).next_index ≡ (m.data_records i).next_index
  pub prev : (r.data_records i).prev_index ≡ (m.data_records i).prev_index
  pub others : (j : ℕ) → j ≢ i → r.data_records j ≡ m.data_records j
  pub buckets : r.hash_table ≡ m.hash_table
  pub ids : r.id_hash_table ≡ m.id_hash_table
  pub free : r.free_list_head_idx ≡ m.free_list_head_idx

rewritten-Stores :
    (m : Mmap) (d : RecordData) (i : ℕ)
    → Holds m d.id i
    → IsSmall d
    → Stores m d i (rewritten m i d)
unfolding rewritten with_rdata response_of answer_of
rewritten-Stores m d i (_, used, named) small =
    let itself : (i == i) ≡ true = ground arith in
    record {
      answers = ground (arith, small, named, stored_rdata d.binary_rdata);
      used = rw itself used;
      next = rw itself refl;
      prev = rw itself refl;
      others = λ j apart. (let other : (j == i) ≡ false = ground (arith, apart) in rw other refl);
      buckets = refl;
      ids = refl;
      free = refl;
    }

-- On a well-formed cache `update_record` ends without a fault and leaves a well-formed cache: it
-- either finds no used record of the ID, or data too large, answers false and changes nothing; or
-- it answers true and has changed only the one record of the ID, which is used as before, keeps its
-- links, and answers from then on, in its bucket, with exactly the data given.
pub update_record-IsValid :
    (m : Mmap) (d : RecordData)
    → IsValid m
    → ((update_record m d ≡ some (false, m)) × (Absent m d.id ⊎ ¬ IsSmall d))
      ⊎ ((i : ℕ) × (r : Mmap) × (update_record m d ≡ some (true, r))
          × Holds m d.id i
          × IsSmall d
          × IsValid r
          × Stores m d i r)
update_record-IsValid m d v = elim (update_record_cases m d v) [
  | inl refused ↦ inl refused
  | inr (i, run, here, small, valid) ↦
      inr (i, rewritten m i d, run, here, small, valid, rewritten-Stores m d i here small)
]
