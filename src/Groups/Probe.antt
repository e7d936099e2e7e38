-- ===== src/Groups/Probe.antt =====
-- What `find_bucket` of the IP group cache finds, and that it ends.
use edge_dns.Prelude.{
  ℕ, zero, suc, ◌+◌, ◌<◌, ◌≡◌, refl, subst, ◌⊎◌, inl, inr, Bool, true, false, some, ◌==◌, arith,
  Bool-cases, List,
}
use native.Mathlib.Decide.{ℕ_discrete}
use edge_dns.Records.State.{no_bucket}
use edge_dns.Records.Hash.{mask}
use edge_dns.Records.Probe.{window, mask-window}
use edge_dns.Groups.State.{GroupMmap, bucket_count}
use edge_dns.Groups.Cells.{ends_at, search_group, find_group}

module _ (m : GroupMmap) (hash : ℕ) (country : List ℕ) where
  abbrev pub Ends : ℕ → Bool → Type 0
  Ends k b = ends_at (m.group_table (window (mask hash) k)) hash country ≡ b

  abbrev pub Leads : ℕ → Type 0
  Leads r =
      ((k : ℕ) × (k < 32)
        × (r ≡ window (mask hash) k)
        × Ends k true
        × ((j : ℕ) → j < k → Ends j false))
      ⊎ ((r ≡ no_bucket) × ((j : ℕ) → j < 32 → Ends j false))

  Ends-up_to :
      (k : ℕ) → ((j : ℕ) → j < k → Ends j false) → Ends k false → (j : ℕ) → j < k + 1 → Ends j false
  Ends-up_to k before now j h = elim (ℕ_discrete j k) [
    | yes e ↦ rw e now
    | no n ↦ before j (omega arith)
  ]

  -- The search at its `k`-th bucket, with fuel for the rest of the 32.
  search_group-Leads :
      (fuel k : ℕ)
      → k < 32
      → 32 < fuel + k + 1
      → ((j : ℕ) → j < k → Ends j false)
      → (r : ℕ) × (search_group fuel m hash country (mask hash) (window (mask hash) k) ≡ some r)
        × Leads r
  unfolding search_group
  search_group-Leads zero k h f before = absurd (omega arith)
  search_group-Leads (suc fuel) k h f before =
      let here = window (mask hash) k in
      elim (Bool-cases (ends_at (m.group_table here) hash country)) [
        | inl hit ↦ (here, rw hit, inl (k, h, refl, hit, before))
        | inr miss ↦ elim (ℕ_discrete k 31) [
          | yes last ↦
              let back : window (mask hash) (k + 1) == mask hash ≡ true = ground arith in
              (
                no_bucket,
                rw (miss, mask-window hash k, back),
                inr (refl, λ j q. Ends-up_to k before miss j (omega arith)),
              )
          | no more ↦
              let on : window (mask hash) (k + 1) == mask hash ≡ false = ground arith in
              let (r, run, found) =
                search_group-Leads fuel (k + 1) (omega arith) (omega arith)
                  (Ends-up_to k before miss) in
              (r, rw (miss, mask-window hash k, on) run, found)
        ]
      ]

  -- The bucket search of the IP group cache ends after at most 32 buckets, whatever the table holds,
  -- and returns the first bucket of the window that is empty or holds this hash and country; it
  -- returns -1 exactly when none of the 32 is.
  pub find_group-Leads : (r : ℕ) × (find_group m hash country ≡ some r) × Leads r
  unfolding find_group
  find_group-Leads =
      let start : window (mask hash) 0 ≡ mask hash = omega arith in
      let (r, run, found) =
        search_group-Leads bucket_count 0 (omega arith) (omega arith)
          (λ j h. absurd (omega arith)) in
      (
        r,
        subst (λ i. search_group bucket_count m hash country (mask hash) i ≡ some r) start run,
        found,
      )
