-- ===== src/Records/Link.antt =====
-- What `append_record` writes where it finds a bucket and a free record.
use mathlib.Core.Path.{fun_ext}
use native.Mathlib.Decide.{ℕ_discrete}
use edge_dns.Prelude.{
  ℤ-cases, ℕ, ◌<◌, ◌≡◌, ◌≢◌, refl, lt→ltb, ap, ◌∙◌, true, false, not, ◌&&◌, ◌⊎◌, inl, inr, ℤ, pos,
  minus_one, ◌==◌, some, List, ltb, arith, length,
}
use edge_dns.Records.State.{
  Mmap, RecordData, max_data_records, hash_table_size, payload_size, no_bucket, set_record,
  set_bucket, set_id_slot,
}
use edge_dns.Records.Hash.{calculate_hash, id_slot}
use edge_dns.Records.Cells.{find_bucket, pop_free_slot}
use edge_dns.Records.Ops.{filled, link_record, set_links, set_prev, set_head, append_record}
use edge_dns.Records.Valid.{IsUsed, IsValid}
use edge_dns.Records.Push.{pushed}

pub Mmap_ext :
    (a b : Mmap)
    → ((i : ℕ) → a.hash_table i ≡ b.hash_table i)
    → ((i : ℕ) → a.id_hash_table i ≡ b.id_hash_table i)
    → ((i : ℕ) → a.data_records i ≡ b.data_records i)
    → a.free_list_head_idx ≡ b.free_list_head_idx
    → a ≡ b
Mmap_ext a b h s d f = λ i. record {
  hash_table = fun_ext h i;
  id_hash_table = fun_ext s i;
  data_records = fun_ext d i;
  free_list_head_idx = f i;
}

module _ (m : Mmap) (b hash : ℕ) (qtype : ℤ) (i : ℕ) where
  link_record-empty :
      (m.hash_table b).name_hash ≡ 0
      → link_record m b hash qtype i
        ≡ some (
            set_links
              (set_bucket m b (record { name_hash = hash; qtype = qtype; head_slot_idx = pos i }))
              i
              minus_one)
  unfolding link_record
  link_record-empty e = rw e

  link_record-occupied :
      (o : ℕ)
      → (m.hash_table b).name_hash ≢ 0
      → (m.hash_table b).head_slot_idx ≡ pos o
      → o < max_data_records
      → o ≢ i
      → IsUsed m o true
      → link_record m b hash qtype i
        ≡ some (set_head (set_links (set_prev m o (pos i)) i (pos o)) b (pos i))
  unfolding link_record
  link_record-occupied o ne e h d u =
      let busy : (m.hash_table b).name_hash == 0 ≡ false = ground arith in
      let other : o == i ≡ false = ground arith in
      rw (busy, e, other, lt→ltb o max_data_records h, u)

pub pop_free_slot-pos :
    (m : Mmap) (i : ℕ)
    → m.free_list_head_idx ≡ pos i
    → i < max_data_records
    → pop_free_slot m
      ≡ some (
        pos i,
        record (set_record m i (record (m.data_records i) {
          is_used = true;
          next_index = minus_one;
          prev_index = minus_one;
        })) { free_list_head_idx = (m.data_records i).next_index },
      )
unfolding pop_free_slot
pop_free_slot-pos m i e h = rw (e, lt→ltb i max_data_records h)

-- The state in which `append_record` calls `link_record`.
popped : Mmap → ℕ → Mmap
popped m i =
    record (set_record m i (record (m.data_records i) {
      is_used = true;
      next_index = minus_one;
      prev_index = minus_one;
    })) { free_list_head_idx = (m.data_records i).next_index }

prepared : Mmap → ℕ → RecordData → ℕ → Mmap
unfolding popped
prepared m i d b =
    set_record (set_id_slot (popped m i) (id_slot d.id) (pos i)) i
      (filled ((popped m i).data_records i) d b)

-- The bucket that `find_bucket` has found is empty or this name's.
abbrev pub Fits : Mmap → ℕ → ℕ → ℤ → Type 0
Fits m b hash qtype =
    ((m.hash_table b).name_hash ≡ 0)
    ⊎ (((m.hash_table b).name_hash ≡ hash) × ((m.hash_table b).qtype ≡ qtype))

module _ (m : Mmap) (v : IsValid m) (b hash : ℕ) (qtype : ℤ) (i : ℕ) (d : RecordData)
    (head : m.free_list_head_idx ≡ pos i) where
  link_record-prepared_empty :
      (m.hash_table b).name_hash ≡ 0
      → link_record (prepared m i d b) b hash qtype i ≡ some (pushed m b hash qtype i d)
  unfolding prepared pushed filled set_links
  link_record-prepared_empty e =
      link_record-empty (prepared m i d b) b hash qtype i e
      ∙ ap some (Mmap_ext _ _ (λ j. refl) (λ j. refl) (λ j. ground arith) refl)

  link_record-prepared_occupied :
      (o : ℕ)
      → b < hash_table_size
      → (m.hash_table b).name_hash ≢ 0
      → (m.hash_table b).name_hash ≡ hash
      → (m.hash_table b).qtype ≡ qtype
      → (m.hash_table b).head_slot_idx ≡ pos o
      → link_record (prepared m i d b) b hash qtype i ≡ some (pushed m b hash qtype i d)
  unfolding prepared pushed filled set_links set_prev set_head
  link_record-prepared_occupied o bound ne same kind e =
      let (inside, used, _, _) = v.chains.head_pos b o bound ne e in
      let (room, unused) = v.free.free_pos i head in
      let apart : o ≢ i = ground arith in
      link_record-occupied (prepared m i d b) b hash qtype i o ne e inside apart (ground arith)
      ∙ ap some (Mmap_ext _ _ (λ j. ground arith) (λ j. refl) (λ j. ground arith) refl)

  link_record-prepared :
      b < hash_table_size
      → Fits m b hash qtype
      → link_record (prepared m i d b) b hash qtype i ≡ some (pushed m b hash qtype i d)
  link_record-prepared bound (inl e) = link_record-prepared_empty e
  link_record-prepared bound (inr (same, kind)) = elim (ℕ_discrete (m.hash_table b).name_hash 0) [
    | yes e ↦ link_record-prepared_empty e
    | no ne ↦ elim (ℤ-cases (m.hash_table b).head_slot_idx) [
      | inl (o, e) ↦ link_record-prepared_occupied o bound ne same kind e
      | inr (k, e) ↦ absurd (ne (v.chains.head_neg b k bound e))
    ]
  ]

module _ (m : Mmap) (name : List ℕ) (qtype : ℤ) (d : RecordData) (v : IsValid m) (b i : ℕ) where
  pub append_record-pushed :
      (not d.is_geo && ltb payload_size (length d.binary_rdata)) ≡ false
      → find_bucket m (calculate_hash name) qtype ≡ some b
      → b < hash_table_size
      → Fits m b (calculate_hash name) qtype
      → m.id_hash_table (id_slot d.id) ≡ minus_one
      → m.free_list_head_idx ≡ pos i
      → append_record m name qtype d ≡ some (true, pushed m b (calculate_hash name) qtype i d)
  unfolding append_record prepared popped
  append_record-pushed small found bound fits empty head =
      let (room, unused) = v.free.free_pos i head in
      let real : b == no_bucket ≡ false = ground arith in
      rw (
        small,
        found,
        real,
        empty,
        pop_free_slot-pos m i head room,
        lt→ltb i max_data_records room,
        link_record-prepared m v b (calculate_hash name) qtype i d head bound fits,
      )
