-- ===== src/Records/Delete.antt =====
-- `update_record` and `delete_record_from_uuid` on a well-formed cache.
use edge_dns.Prelude.{
  ℕ, ◌<◌, ◌≡◌, ◌≢◌, refl, ap, ◌∙◌, true, false, inl, inr, ℤ, pos, negsuc, minus_one, ◌==ℤ◌, ==ℤ_iff,
  ℤ-cases, some, lt→ltb, arith, update,
}
use edge_dns.Records.State.{
  Mmap, max_data_records, hash_table_size, set_bucket, set_id_slot, bucket_at,
}
use edge_dns.Records.Hash.{id_slot}
use edge_dns.Records.Cells.{push_free_slot}
use edge_dns.Records.Ops.{set_head, set_next, set_prev, bypass, set_prev_of, retire, unlink_record}
use edge_dns.Records.Valid.{IsUsed, IsValid}
use edge_dns.Records.Link.{Mmap_ext}
use edge_dns.Records.Remove.{bucket_without, relinked, removed}

pub unlinked : Mmap → ℕ → Mmap
unlinked m i = record m {
  hash_table = update m.hash_table (m.data_records i).bucket_idx (bucket_without m i);
  data_records = relinked m i;
}

retire-empty :
    (m : Mmap) (b : ℕ)
    → (m.hash_table b).head_slot_idx ≡ minus_one
    → retire m b ≡ set_bucket m b (record (m.hash_table b) { name_hash = 0; qtype = pos 0 })
unfolding retire
retire-empty m b e = rw e

retire-kept : (m : Mmap) (b : ℕ) → (m.hash_table b).head_slot_idx ≢ minus_one → retire m b ≡ m
unfolding retire
retire-kept m b ne =
    let kept : (m.hash_table b).head_slot_idx ==ℤ minus_one ≡ false =
      ground (arith, ==ℤ_iff (m.hash_table b).head_slot_idx minus_one) in
    rw kept

module _ (m : Mmap) (v : IsValid m) (i : ℕ) (inside : i < max_data_records)
    (used : IsUsed m i true) where
  abbrev b : ℕ
  b = (m.data_records i).bucket_idx

  set_prev_of-pos :
      (m : Mmap) (n : ℕ) (p : ℤ)
      → n < max_data_records
      → set_prev_of m (pos n) p ≡ some (set_prev m n p)
  unfolding set_prev_of
  set_prev_of-pos m n p h = rw (lt→ltb n max_data_records h)

  bypass_head :
      (m.hash_table b).head_slot_idx ≡ pos i → (p n : ℤ) → bypass m b i p n ≡ some (set_head m b n)
  unfolding bypass
  bypass_head e p n = ground arith

  bypass_inner :
      (p : ℕ)
      → (m.hash_table b).head_slot_idx ≢ pos i
      → p < max_data_records
      → (n : ℤ) → bypass m b i (pos p) n ≡ some (set_next m p n)
  unfolding bypass
  bypass_inner p ne h n = ground arith

  known : bucket_at b ≡ some b
  known = rw (lt→ltb b hash_table_size (v.chains.bucket_used i inside used).0)

  -- The four shapes of the chain around `i`.
  unlink_last_head :
      (m.hash_table b).head_slot_idx ≡ pos i
      → (m.data_records i).next_index ≡ minus_one
      → (m.data_records i).prev_index ≡ minus_one
      → unlink_record m i ≡ some (unlinked m i)
  unfolding unlink_record unlinked set_prev_of set_head bucket_without relinked
  unlink_last_head head next prev =
      rw (known, bypass_head head, next)
        (ap some (
          retire-empty _ b (ground arith)
          ∙ Mmap_ext _ _ (λ j. ground arith) (λ j. refl) (λ j. ground arith) refl))

  unlink_head :
      (n : ℕ)
      → (m.hash_table b).head_slot_idx ≡ pos i
      → (m.data_records i).next_index ≡ pos n
      → (m.data_records i).prev_index ≡ minus_one
      → n < max_data_records
      → unlink_record m i ≡ some (unlinked m i)
  unfolding unlink_record unlinked set_head set_prev bucket_without relinked
  unlink_head n head next prev h =
      rw (known, bypass_head head, next, set_prev_of-pos _ n _ h)
        (ap some (
          retire-kept _ b (ground arith)
          ∙ Mmap_ext _ _ (λ j. ground arith) (λ j. refl) (λ j. ground arith) refl))

  unlink_last :
      (p : ℕ)
      → (m.hash_table b).head_slot_idx ≢ pos i
      → (m.data_records i).next_index ≡ minus_one
      → (m.data_records i).prev_index ≡ pos p
      → p < max_data_records
      → unlink_record m i ≡ some (unlinked m i)
  unfolding unlink_record unlinked set_prev_of set_next bucket_without relinked
  unlink_last p head next prev h =
      rw (known, prev, bypass_inner p head h, next)
        (ap some (
          retire-kept _ b (ground (arith, v.chains.head_neg b 0, v.chains.bucket_used i))
          ∙ Mmap_ext _ _ (λ j. ground arith) (λ j. refl) (λ j. ground arith) refl))

  unlink_inner :
      (p n : ℕ)
      → (m.hash_table b).head_slot_idx ≢ pos i
      → (m.data_records i).next_index ≡ pos n
      → (m.data_records i).prev_index ≡ pos p
      → p < max_data_records
      → n < max_data_records
      → unlink_record m i ≡ some (unlinked m i)
  unfolding unlink_record unlinked set_prev set_next bucket_without relinked
  unlink_inner p n head next prev hp hn =
      rw (known, prev, bypass_inner p head hp, next, set_prev_of-pos _ n _ hn)
        (ap some (
          retire-kept _ b (ground (arith, v.chains.head_neg b 0, v.chains.bucket_used i))
          ∙ Mmap_ext _ _ (λ j. ground arith) (λ j. refl) (λ j. ground arith) refl))

  pub unlink_record-unlinked : unlink_record m i ≡ some (unlinked m i)
  unlink_record-unlinked = elim (ℤ-cases (m.data_records i).prev_index) [
    | inl (p, prev) ↦
        let (hp, up, back, same) = v.chains.prev_pos i p inside used prev in
        let inner : (m.hash_table b).head_slot_idx ≢ pos i =
          ground (arith, v.chains.head_pos b i, v.chains.bucket_used i) in
        elim (ℤ-cases (m.data_records i).next_index) [
          | inl (n, next) ↦
              unlink_inner p n inner next prev hp (v.chains.next_pos i n inside used next).0
          | inr (k, next) ↦
              unlink_last p inner (next ∙ ap negsuc (v.chains.next_neg i k inside used next)) prev
                hp
        ]
    | inr (l, prev) ↦
        let (end, head) = v.chains.prev_neg i l inside used prev in
        elim (ℤ-cases (m.data_records i).next_index) [
          | inl (n, next) ↦
              unlink_head n head next (prev ∙ ap negsuc end)
                (v.chains.next_pos i n inside used next).0
          | inr (k, next) ↦
              unlink_last_head head (next ∙ ap negsuc (v.chains.next_neg i k inside used next))
                (prev ∙ ap negsuc end)
        ]
  ]

  -- Freeing the unlinked record gives the state of `removed`.
  pub freed-removed :
      set_id_slot (push_free_slot (unlinked m i) i) (id_slot (m.data_records i).id) minus_one
      ≡ removed m i
  unfolding push_free_slot unlinked removed
  freed-removed =
      let own = v.ids.id_used i inside used in
      let self : pos i ==ℤ pos i ≡ true = ground arith in
      rw (own, self) (Mmap_ext _ _ (λ j. refl) (λ j. ground arith) (λ j. ground arith) refl)
