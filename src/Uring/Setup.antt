-- ===== src/Uring/Setup.antt =====
-- `setup` lays out all buffers in groups.
use edge_dns.Prelude.{
  ℕ, zero, suc, ◌+◌, ◌-◌, ◌*◌, ◌%◌, ◌^◌, ◌<◌, ◌≤◌, ◌≡◌, ◌≢◌, refl, ◌⊎◌, inl, inr, Bool, Bool-cases,
  true, false, List, [], ◌∷◌, Option, some, none, min, bit_and, ◌==◌, arith,
}
use edge_dns.Uring.Pool.{
  RingSlot, BufferPool, SetupError, provide, ring_slot, make_slot, setup_loop, setup,
}
use edge_dns.Uring.Sizes.{pow2_loop_lem}

-- A group has a power of two buffers, at most `most`, and its ring is given all of them.
pub record IsSlot (most size grp : ℕ) (s : RingSlot) : Type 0 where
  pub named : s.group_id ≡ grp
  pub power : (j : ℕ) × (s.count ≡ 2 ^ j)
  pub small : s.count ≤ most
  pub filled : s.provided ≡ provide s.buffer_base size s.count 0

-- The groups are numbered one after the other.
abbrev pub IsLaid : (most size grp : ℕ) → List RingSlot → Type 0
IsLaid most size grp [] = Unit
IsLaid most size grp (s ∷ ss) = IsSlot most size grp s × IsLaid most size (suc grp) ss

abbrev pub total : List RingSlot → ℕ
total [] = 0
total (s ∷ ss) = s.count + total ss

module _ (alloc : (group_id size : ℕ) → Option ℕ) (ring_alloc register : ℕ → Bool) where
  -- Nothing that `setup` asks for is refused.
  pub record Grants : Type 0 where
    pub memory : (g size : ℕ) → alloc g size ≢ none
    pub rings : (g : ℕ) → ring_alloc g ≡ true
    pub registration : (g : ℕ) → register g ≡ true

  make_slot_cases :
      (most size grp count : ℕ) (at : Option ℕ)
      → (j : ℕ) × (count ≡ 2 ^ j)
      → count ≤ most
      → ((e : SetupError) × (make_slot alloc ring_alloc register size grp count at ≡ inl e)
          × ((at ≡ none) ⊎ ¬ Grants))
        ⊎ ((s : RingSlot) × (make_slot alloc ring_alloc register size grp count at ≡ inr s)
            × IsSlot most size grp s
            × (s.count ≡ count))
  unfolding make_slot ring_slot
  make_slot_cases most size grp count none power small = inl (SetupError.no_memory, refl, inl refl)
  make_slot_cases most size grp count (some base) power small = elim (Bool-cases (ring_alloc grp)) [
    | inr refused ↦
        inl (SetupError.no_ring_memory, rw refused refl, inr (λ g. cc (g.rings grp, refused)))
    | inl ring ↦ elim (Bool-cases (register grp)) [
      | inr refused ↦ inl (
        SetupError.no_registration,
        rw (ring, refused) refl,
        inr (λ g. cc (g.registration grp, refused)),
      )
      | inl registered ↦ inr (
        record {
          buffer_base = base;
          group_id = grp;
          count = count;
          provided = provide base size count 0;
        },
        rw (ring, registered) refl,
        record { named = refl; power = power; small = small; filled = refl },
        refl,
      )
    ]
  ]

  -- How `remaining` buffers are laid out from group `grp` on.
  Lays : (most size remaining grp : ℕ) → Option (List RingSlot × Option SetupError) → Type 0
  Lays most size remaining grp o =
      (slots : List RingSlot) × (error : Option SetupError) × (o ≡ some (slots, error))
      × IsLaid most size grp slots
      × (total slots ≤ remaining)
      × (error ≡ none → total slots ≡ remaining)
      × (Grants → error ≡ none)

  setup_loop-Lays :
      (most size fuel remaining grp : ℕ)
      → 0 < most
      → remaining ≤ fuel
      → remaining < 2 ^ 63
      → Lays most size remaining grp
          (setup_loop alloc ring_alloc register size most fuel remaining grp)
  unfolding setup_loop Lays
  setup_loop-Lays most size zero remaining grp positive enough top =
      let nothing : remaining ≡ 0 = omega (arith, enough) in
      rw nothing ([], none, refl, tt, omega arith, (λ e. refl), λ g. refl)
  setup_loop-Lays most size (suc fuel) zero grp positive enough top =
      ([], none, refl, tt, omega arith, (λ e. refl), λ g. refl)
  setup_loop-Lays most size (suc fuel) (suc left) grp positive enough top =
      let (j, run, low, high) =
        pow2_loop_lem 64 0 (min (suc left) most) (omega (arith, positive)) (omega (arith, top))
          (omega (arith, top)) in
      let there : (suc left == 0) ≡ false = ground arith in
      let some_count : (2 ^ j == 0) ≡ false = ground (arith, high, positive) in
      elim (make_slot_cases most size grp (2 ^ j) (alloc grp (2 ^ j * size % 2 ^ 64)) (j, refl)
        (omega (arith, low))) [
          | inl (e, failed, why) ↦
              rw (there, run, some_count, failed)
                (
                  [],
                  some e,
                  refl,
                  tt,
                  omega arith,
                  (λ q. absurd (cc q)),
                  λ g. absurd (elim why [
                    | inl q ↦ g.memory grp (2 ^ j * size % 2 ^ 64) q
                    | inr refused ↦ refused g
                  ]),
                )
          | inr (s, made, is_slot, count) ↦
              let (slots, error, rest, laid, at_most, whole, granted) =
                setup_loop-Lays most size fuel (suc left - 2 ^ j) (suc grp) positive
                  (omega (arith, high, enough, positive)) (omega (arith, top)) in
              rw (there, run, some_count, made, rest)
                (
                  s ∷ slots,
                  error,
                  refl,
                  (is_slot, laid),
                  omega (arith, at_most, count, low),
                  (λ q. omega (arith, whole q, count, low)),
                  granted,
                )
        ]

  -- With at least one and less than 2 ^ 63 buffers, and a most per group that is a power of two as
  -- the code tests it, `setup` of a fresh pool ends. It lays out groups with consecutive numbers of
  -- which each has a power of two buffers, at most the most, and all of them in its ring; where it
  -- does not throw, these are all the buffers; and it does not throw where nothing is refused.
  pub setup-IsLaid :
      (pool : BufferPool) (count size grp most : ℕ)
      → pool.rings ≡ []
      → 0 < count
      → count < 2 ^ 63
      → 0 < most
      → bit_and most (most - 1) ≡ 0
      → (r : BufferPool) × (error : Option SetupError) × (setup alloc ring_alloc register pool count
            size grp most
          ≡ some (r, error))
        × (r.base_group_id ≡ grp)
        × (r.buf_size ≡ size)
        × IsLaid most size grp r.rings
        × (error ≡ none → total r.rings ≡ count)
        × (Grants → error ≡ none)
  unfolding setup Lays
  setup-IsLaid pool count size grp most fresh some_buffers top positive power =
      let (slots, error, run, laid, at_most, whole, granted) =
        setup_loop-Lays most size count count grp positive (omega arith) top in
      let many : (count == 0) ≡ false = ground arith in
      let not_zero : (most == 0) ≡ false = ground arith in
      rw (many, not_zero, power, fresh, run)
        (
          record pool { rings = slots; buf_size = size; base_group_id = grp },
          error,
          refl,
          refl,
          refl,
          laid,
          whole,
          granted,
        )
