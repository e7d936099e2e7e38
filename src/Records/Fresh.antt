-- ===== src/Records/Fresh.antt =====
-- `init`: the free list that it builds is well formed whatever the file held, and a new file gives
-- a well-formed cache with every record free.
use native.Mathlib.Decide.{ℕ_discrete}
use edge_dns.Prelude.{
  ℕ, zero, suc, ◌<◌, ◌≤◌, ◌≡◌, ◌≢◌, refl, ap, ◌∙◌, Bool, true, false, pos, negsuc, minus_one, arith,
  Bool-cases, inl, inr,
}
use edge_dns.Records.State.{Mmap, max_data_records, hash_table_size, id_hash_table_size}
use edge_dns.Records.Init.{link_free, clear_all, free_loop, init}
use edge_dns.Records.Valid.{IsUsed, FreeValid, IsValid}

-- The free list of the records from `n` up, in order.
record FreeFrom (n : ℕ) (m : Mmap) : Type 0 where
  head_pos :
      (f : ℕ) → m.free_list_head_idx ≡ pos f → (n ≤ f) × (f < max_data_records) × IsUsed m f false
  head_neg : (k : ℕ) → m.free_list_head_idx ≡ negsuc k → k ≡ 0
  link_pos :
      (s t : ℕ)
      → n ≤ s
      → s < max_data_records
      → IsUsed m s false
      → (m.data_records s).next_index ≡ pos t
      → (s < t) × (t < max_data_records) × IsUsed m t false × (m.free_list_head_idx ≢ pos t)
  link_neg :
      (s k : ℕ)
      → n ≤ s
      → s < max_data_records
      → IsUsed m s false
      → (m.data_records s).next_index ≡ negsuc k
      → k ≡ 0
  link_injective :
      (s t u : ℕ)
      → n ≤ s
      → n ≤ t
      → s < max_data_records
      → t < max_data_records
      → IsUsed m s false
      → IsUsed m t false
      → (m.data_records s).next_index ≡ pos u
      → (m.data_records t).next_index ≡ pos u
      → s ≡ t

module _ (m : Mmap) (i : ℕ) (h : i < max_data_records) (f : FreeFrom (suc i) m) where
  above : IsUsed m i true → (s : ℕ) → i ≤ s → IsUsed m s false → suc i ≤ s
  above used s a u = elim (ℕ_discrete s i) [
    | yes e ↦ absurd (cc (ap (λ k. (m.data_records k).is_used) e))
    | no ne ↦ omega arith
  ]

  skip-FreeFrom : IsUsed m i true → FreeFrom i m
  skip-FreeFrom used = record {
    head_pos = λ s e. ground (arith, f.head_pos s);
    head_neg = f.head_neg;
    link_pos = λ s t a b u e. f.link_pos s t (above used s a u) b u e;
    link_neg = λ s k a b u e. f.link_neg s k (above used s a u) b u e;
    link_injective = λ s t u hs ht bs bt us ut es et.
        f.link_injective s t u (above used s hs us) (above used t ht ut) bs bt us ut es et;
  }

  link-FreeFrom : IsUsed m i false → FreeFrom i (link_free m i)
  unfolding link_free
  link-FreeFrom unused = record {
    head_pos = λ s e. ground arith;
    head_neg = λ k e. ground arith;
    link_pos = λ s t a b u e. ground (arith, f.link_pos s t, f.head_pos t);
    link_neg = λ s k a b u e. ground (arith, f.link_neg s k, f.head_neg k);
    link_injective = λ s t u hs ht bs bt us ut es et.
        ground (arith, f.link_injective s t u, f.link_pos s u, f.link_pos t u);
  }

-- What the loop leaves alone.
record Keeps (m r : Mmap) : Type 0 where
  same_table : r.hash_table ≡ m.hash_table
  same_ids : r.id_hash_table ≡ m.id_hash_table
  same_use : (i : ℕ) → (r.data_records i).is_used ≡ (m.data_records i).is_used

link_free-Keeps : (m : Mmap) (i : ℕ) → Keeps m (link_free m i)
unfolding link_free
link_free-Keeps m i = record { same_table = refl; same_ids = refl; same_use = λ j. ground (arith) }

Keeps-trans : {a b c : Mmap} → Keeps a b → Keeps b c → Keeps a c
Keeps-trans p q = record {
  same_table = q.same_table ∙ p.same_table;
  same_ids = q.same_ids ∙ p.same_ids;
  same_use = λ i. q.same_use i ∙ p.same_use i;
}

free_loop-FreeFrom :
    (n : ℕ) (m : Mmap)
    → n ≤ max_data_records
    → FreeFrom n m
    → FreeFrom 0 (free_loop n m) × Keeps m (free_loop n m)
unfolding free_loop
free_loop-FreeFrom zero m h f =
    (f, record { same_table = refl; same_ids = refl; same_use = λ i. refl })
free_loop-FreeFrom (suc n) m h f = elim (Bool-cases (m.data_records n).is_used) [
  | inl used ↦
      rw used (free_loop-FreeFrom n m (omega arith) (skip-FreeFrom m n (omega arith) f used))
  | inr unused ↦
      let (built, kept) =
        free_loop-FreeFrom n (link_free m n) (omega arith)
          (link-FreeFrom m n (omega arith) f unused) in
      rw unused (built, Keeps-trans (link_free-Keeps m n) kept)
]

FreeFrom-FreeValid : {m : Mmap} → FreeFrom 0 m → FreeValid m
FreeFrom-FreeValid f = record {
  free_pos = λ s e. ground (arith, f.head_pos s);
  free_neg = f.head_neg;
  link_pos = λ s n h u e. ground (arith, f.link_pos s n);
  link_neg = λ s k h u e. f.link_neg s k (omega arith) h u e;
  link_injective = λ s t n hs ht us ut es et.
      f.link_injective s t n (omega arith) (omega arith) hs ht us ut es et;
}

no_list-FreeFrom : (m : Mmap) → m.free_list_head_idx ≡ minus_one → FreeFrom max_data_records m
no_list-FreeFrom m e = record {
  head_pos = λ f h. ground arith;
  head_neg = λ k h. ground arith;
  link_pos = λ s t a b u h. absurd (omega arith);
  link_neg = λ s k a b u h. absurd (omega arith);
  link_injective = λ s t u hs ht bs bt us ut es et. absurd (omega arith);
}

-- `init` gives a well-formed free list, whatever the file held and whether it is new.
pub init-FreeValid : (is_new : Bool) (m : Mmap) → FreeValid (init is_new true m).1
unfolding init
init-FreeValid is_new m =
    FreeFrom-FreeValid
      (free_loop-FreeFrom max_data_records _ (omega arith) (no_list-FreeFrom _ refl)).0

-- A cache in which nothing is used is well formed if its free list is.
pub blank-IsValid :
    (r : Mmap)
    → ((i : ℕ) → i < max_data_records → IsUsed r i false)
    → ((b : ℕ) → b < hash_table_size → (r.hash_table b).name_hash ≡ 0)
    → ((i : ℕ) → i < id_hash_table_size → r.id_hash_table i ≡ minus_one)
    → FreeValid r
    → IsValid r
blank-IsValid r unused empty none_known free = record {
  chains = record {
    next_pos = λ s n h u e. absurd (cc (unused s h));
    next_neg = λ s k h u e. absurd (cc (unused s h));
    prev_pos = λ s p h u e. absurd (cc (unused s h));
    prev_neg = λ s k h u e. absurd (cc (unused s h));
    bucket_used = λ s h u. absurd (cc (unused s h));
    head_pos = λ b h q ne e. absurd (ne (empty b q));
    head_neg = λ b k q e. empty b q;
  };
  order = record {
    age = λ s. 0;
    clock = 0;
    older = λ s n h u e. absurd (cc (unused s h));
    past = λ s h u. absurd (cc (unused s h));
  };
  free = free;
  ids = record {
    id_used = λ s h u. absurd (cc (unused s h));
    entry_pos = λ i s h e. absurd (cc (none_known i h));
    entry_neg = λ i k h e. ground (arith, none_known i h);
  };
}

-- On a new file, whatever the memory held, `init` gives a well-formed cache with no used record.
pub init_new-IsValid :
    (m : Mmap)
    → IsValid (init true true m).1
      × ((i : ℕ) → i < max_data_records → IsUsed (init true true m).1 i false)
unfolding init clear_all
init_new-IsValid m =
    let start : Mmap = record (clear_all m) { free_list_head_idx = minus_one } in
    let (built, kept) =
      free_loop-FreeFrom max_data_records start (omega arith) (no_list-FreeFrom start refl) in
    let unused : (i : ℕ) → i < max_data_records → IsUsed (init true true m).1 i false =
      λ i h. kept.same_use i ∙ ground arith in
    (
      blank-IsValid (init true true m).1 unused
          (λ b h. ap (λ t. (t b).name_hash) kept.same_table ∙ ground arith)
          (λ i h. ap (λ t. t i) kept.same_ids ∙ ground arith) (FreeFrom-FreeValid built),
      unused,
    )
