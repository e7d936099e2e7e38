-- ===== src/Records/Probe.antt =====
-- Which buckets `find_bucket` visits, that it ends, and what it finds.
use edge_dns.Prelude.{
  ==ℤ_iff, ℕ, zero, suc, ◌+◌, ◌*◌, ◌/◌, ◌%◌, ◌<◌, ◌≡◌, refl, subst, ◌⊎◌, inl, inr, ℤ, Bool, true,
  false, some, ◌==◌, bit_and, arith, Bool-cases,
}
use native.Mathlib.Decide.{ℕ_discrete}
use edge_dns.Prelude.Bits.{bit_and-odd, bit_and-even, bit_and-zero}
use edge_dns.Records.State.{CassUuid, id_hash_table_size, Mmap, hash_table_size, no_bucket}
use edge_dns.Records.Hash.{mask, calculate_id_hash, id_slot}
use edge_dns.Records.Cells.{stops_at, probe, find_bucket}

-- 99999 has the bits 0 to 4, 7, 9, 10, 15 and 16.
pub mask_digits :
    (x : ℕ)
    → bit_and x 99999 ≡ x / 32768 % 4 * 32768 + x / 512 % 4 * 512 + x / 128 % 2 * 128 + x % 32
mask_digits x = omega (
  arith,
  bit_and-odd x (x / 2) 49999 (omega arith),
  bit_and-odd (x / 2) (x / 4) 24999 (omega arith),
  bit_and-odd (x / 4) (x / 8) 12499 (omega arith),
  bit_and-odd (x / 8) (x / 16) 6249 (omega arith),
  bit_and-odd (x / 16) (x / 32) 3124 (omega arith),
  bit_and-even (x / 32) (x / 64) 1562 (omega arith),
  bit_and-even (x / 64) (x / 128) 781 (omega arith),
  bit_and-odd (x / 128) (x / 256) 390 (omega arith),
  bit_and-even (x / 256) (x / 512) 195 (omega arith),
  bit_and-odd (x / 512) (x / 1024) 97 (omega arith),
  bit_and-odd (x / 1024) (x / 2048) 48 (omega arith),
  bit_and-even (x / 2048) (x / 4096) 24 (omega arith),
  bit_and-even (x / 4096) (x / 8192) 12 (omega arith),
  bit_and-even (x / 8192) (x / 16384) 6 (omega arith),
  bit_and-even (x / 16384) (x / 32768) 3 (omega arith),
  bit_and-odd (x / 32768) (x / 65536) 1 (omega arith),
  bit_and-odd (x / 65536) (x / 131072) 0 (omega arith),
  bit_and-zero (x / 131072),
)

-- The bucket that the search of `index` visits after `k` steps: only the low five bits move.
abbrev pub window : ℕ → ℕ → ℕ
window index k = index / 32 * 32 + (index % 32 + k) % 32

pub mask-window : (x k : ℕ) → mask (window (mask x) k + 1) ≡ window (mask x) (k + 1)
unfolding mask
mask-window x k = omega (arith, mask_digits x, mask_digits (window (bit_and x 99999) k + 1))

abbrev pub Stops : Mmap → ℕ → ℤ → ℕ → Bool → Type 0
Stops m hash qtype k b = stops_at (m.hash_table (window (mask hash) k)) hash qtype ≡ b

-- `r` is the first of the 32 buckets of the name's window that is empty or the name's, or there is
-- none and `r` says so.
abbrev pub Finds : Mmap → ℕ → ℤ → ℕ → Type 0
Finds m hash qtype r =
    ((k : ℕ) × (k < 32)
      × (r ≡ window (mask hash) k)
      × Stops m hash qtype k true
      × ((j : ℕ) → j < k → Stops m hash qtype j false))
    ⊎ ((r ≡ no_bucket) × ((j : ℕ) → j < 32 → Stops m hash qtype j false))

module _ (m : Mmap) (hash : ℕ) (qtype : ℤ) where
  passed :
      (k : ℕ)
      → ((j : ℕ) → j < k → Stops m hash qtype j false)
      → Stops m hash qtype k false
      → (j : ℕ) → j < k + 1
      → Stops m hash qtype j false
  passed k before now j h = elim (ℕ_discrete j k) [
    | yes e ↦ rw e now
    | no n ↦ before j (omega arith)
  ]

  probe-Finds :
      (fuel k : ℕ)
      → k < 32
      → 32 < fuel + k + 1
      → ((j : ℕ) → j < k → Stops m hash qtype j false)
      → (r : ℕ) × (probe fuel m hash qtype (mask hash) (window (mask hash) k) ≡ some r)
        × Finds m hash qtype r
  unfolding probe
  probe-Finds zero k h f before = absurd (omega arith)
  probe-Finds (suc fuel) k h f before =
      elim (Bool-cases (stops_at (m.hash_table (window (mask hash) k)) hash qtype)) [
        | inl hit ↦ (window (mask hash) k, rw hit, inl (k, h, refl, hit, before))
        | inr miss ↦ elim (ℕ_discrete k 31) [
          | yes last ↦
              let back : window (mask hash) (k + 1) == mask hash ≡ true = ground arith in
              (
                no_bucket,
                rw (miss, mask-window hash k, back),
                inr (refl, λ j q. passed k before miss j (omega arith)),
              )
          | no more ↦
              let on : window (mask hash) (k + 1) == mask hash ≡ false = ground arith in
              let (r, run, found) =
                probe-Finds fuel (k + 1) (omega arith) (omega arith) (passed k before miss) in
              (r, rw (miss, mask-window hash k, on) run, found)
        ]
      ]

  -- `find_bucket` ends after at most 32 buckets, whatever the table holds, and returns the first
  -- bucket of the name's window that is empty or holds this hash and type; it returns -1 exactly
  -- when none of the 32 is.
  pub find_bucket-Finds : (r : ℕ) × (find_bucket m hash qtype ≡ some r) × Finds m hash qtype r
  unfolding find_bucket
  find_bucket-Finds =
      let start : window (mask hash) 0 ≡ mask hash = omega arith in
      let (r, run, found) =
        probe-Finds hash_table_size 0 (omega arith) (omega arith) (λ j h. absurd (omega arith)) in
      (r, subst (λ i. probe hash_table_size m hash qtype (mask hash) i ≡ some r) start run, found)

-- What the callers use: the result is -1, or a bucket of the table that is empty or the name's.
pub find_bucket_cases :
    (m : Mmap) (hash : ℕ) (qtype : ℤ)
    → (r : ℕ) × (find_bucket m hash qtype ≡ some r)
      × ((r ≡ no_bucket)
          ⊎ ((r < hash_table_size)
              × (((m.hash_table r).name_hash ≡ 0)
                  ⊎ (((m.hash_table r).name_hash ≡ hash) × ((m.hash_table r).qtype ≡ qtype)))))
unfolding mask stops_at
find_bucket_cases m hash qtype =
    let (r, run, found) = find_bucket-Finds m hash qtype in
    (
      r,
      run,
      elim found [
        | inl (k, h, e, stop, first) ↦ inr (
          omega (arith, mask_digits hash),
          rw e (ground (arith, stop, ==ℤ_iff (m.hash_table (window (mask hash) k)).qtype qtype)),
        )
        | inr (e, all) ↦ inl e
      ],
    )

pub id_slot-lt : (id : CassUuid) → id_slot id < id_hash_table_size
unfolding id_slot
id_slot-lt id = omega (arith, mask_digits (calculate_id_hash id))

pub window-lt : (hash k : ℕ) → window (mask hash) k < hash_table_size
unfolding mask
window-lt hash k = omega (arith, mask_digits hash)
