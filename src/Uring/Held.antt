-- ===== src/Uring/Held.antt =====
-- The memory of the groups of buffers.
use edge_dns.Prelude.{
  ℕ, zero, suc, ◌+◌, ◌-◌, ◌*◌, ◌%◌, ◌^◌, ◌<◌, ◌≤◌, ◌≡◌, refl, sym, ap, subst, inl, inr, ◌⊎◌, Bool,
  Bool-cases, false, List, [], ◌∷◌, Option, some, none, min, bit_and, ◌==◌, length, get_elem?,
  arith,
}
use native.Mathlib.Nat.{mod-eq_of_lt, mul-le-mul_right}
use edge_dns.Uring.Pool.{
  Provided, RingSlot, BufferPool, SetupError, provide, ring_slot, make_slot, setup_loop, setup,
  pick_group, get_buffer_address, release_buffer,
}
use edge_dns.Uring.Sizes.{pow2_loop_lem}
use edge_dns.Uring.Setup.{total, Grants, setup-IsLaid}
use edge_dns.Uring.Buffers.{pick_group_lem}

some_slots : (slots : List RingSlot) (n : ℕ) → 0 < n → total slots ≡ n → 0 < length slots
some_slots [] n h e = absurd (omega (arith, h, e))
some_slots (s ∷ ss) n h e = omega arith

module _ (alloc : (group_id size : ℕ) → Option ℕ) (ring_alloc register : ℕ → Bool) where
  -- Each group has its buffers in the memory that it was given, which has room for all of them.
  IsHeld : (size grp : ℕ) → List RingSlot → Type 0
  IsHeld size grp [] = Unit
  IsHeld size grp (s ∷ ss) =
      ((bytes : ℕ) × (alloc grp bytes ≡ some s.buffer_base) × (s.count * size ≤ bytes))
      × IsHeld size (suc grp) ss

  memory_at :
      (size grp : ℕ) (slots : List RingSlot) (k : ℕ) (s : RingSlot)
      → IsHeld size grp slots
      → get_elem? slots k ≡ some s
      → (bytes : ℕ) × (alloc (grp + k) bytes ≡ some s.buffer_base) × (s.count * size ≤ bytes)
  unfolding IsHeld
  memory_at size grp [] k s held at = absurd (cc at)
  memory_at size grp (x ∷ xs) zero s held at =
      let it : x ≡ s = cc at in let here : grp + 0 ≡ grp = omega arith in rw (here, sym it) held.0
  memory_at size grp (x ∷ xs) (suc k) s held at =
      let there : grp + suc k ≡ suc grp + k = omega arith in
      rw there (memory_at size (suc grp) xs k s held.1 at)

  room : (c n size bytes : ℕ) → c ≡ n → bytes ≡ n * size → c * size ≤ bytes
  room c n size bytes e w = omega (arith, w, ap (λ k. k * size) e)

  make_slot_memory_cases :
      (size grp count : ℕ) (at : Option ℕ)
      → ((e : SetupError) × (make_slot alloc ring_alloc register size grp count at ≡ inl e))
        ⊎ ((s : RingSlot) × (make_slot alloc ring_alloc register size grp count at ≡ inr s)
            × (at ≡ some s.buffer_base)
            × (s.count ≡ count))
  unfolding make_slot ring_slot
  make_slot_memory_cases size grp count none = inl (SetupError.no_memory, refl)
  make_slot_memory_cases size grp count (some base) = elim (Bool-cases (ring_alloc grp)) [
    | inr refused ↦ inl (SetupError.no_ring_memory, rw refused refl)
    | inl ring ↦ elim (Bool-cases (register grp)) [
      | inr refused ↦ inl (SetupError.no_registration, rw (ring, refused) refl)
      | inl registered ↦ inr (
        record {
          buffer_base = base;
          group_id = grp;
          count = count;
          provided = provide base size count 0;
        },
        rw (ring, registered) refl,
        refl,
        refl,
      )
    ]
  ]

  EndsHeld : (size grp : ℕ) → Option (List RingSlot × Option SetupError) → Type 0
  EndsHeld size grp o =
      (slots : List RingSlot) × (error : Option SetupError) × (o ≡ some (slots, error))
      × IsHeld size grp slots

  setup_loop-EndsHeld :
      (size most fuel remaining grp : ℕ)
      → 0 < most
      → most * size < 2 ^ 64
      → remaining ≤ fuel
      → remaining < 2 ^ 63
      → EndsHeld size grp (setup_loop alloc ring_alloc register size most fuel remaining grp)
  unfolding setup_loop EndsHeld IsHeld
  setup_loop-EndsHeld size most zero remaining grp positive wide enough top =
      let nothing : remaining ≡ 0 = omega (arith, enough) in rw nothing ([], none, refl, tt)
  setup_loop-EndsHeld size most (suc fuel) zero grp positive wide enough top = ([], none, refl, tt)
  setup_loop-EndsHeld size most (suc fuel) (suc left) grp positive wide enough top =
      let (j, run, low, high) =
        pow2_loop_lem 64 0 (min (suc left) most) (omega (arith, positive)) (omega (arith, top))
          (omega (arith, top)) in
      let there : (suc left == 0) ≡ false = ground arith in
      let some_count : (2 ^ j == 0) ≡ false = ground (arith, high, positive) in
      elim (make_slot_memory_cases size grp (2 ^ j) (alloc grp (2 ^ j * size % 2 ^ 64))) [
        | inl (e, failed) ↦ rw (there, run, some_count, failed) ([], some e, refl, tt)
        | inr (s, made, at, count) ↦
            let (slots, error, rest, held) =
              setup_loop-EndsHeld size most fuel (suc left - 2 ^ j) (suc grp) positive wide
                (omega (arith, high, enough, positive)) (omega (arith, top)) in
            let whole : 2 ^ j * size % 2 ^ 64 ≡ 2 ^ j * size = mod-eq_of_lt (
              omega
                (arith, wide, mul-le-mul_right {m = 2 ^ j} {n = most} size (omega (arith, low)))) in
            rw (there, run, some_count, made, rest)
              (
                s ∷ slots,
                error,
                refl,
                (
                  (
                    2 ^ j * size % 2 ^ 64,
                    at,
                    room s.count (2 ^ j) size (2 ^ j * size % 2 ^ 64) count whole,
                  ),
                  held,
                ),
              )
      ]

  setup_memory :
      (pool : BufferPool) (count size grp most : ℕ)
      → pool.rings ≡ []
      → 0 < count
      → 0 < most
      → bit_and most (most - 1) ≡ 0
      → most * size < 2 ^ 64
      → count < 2 ^ 63
      → (r : BufferPool) × (error : Option SetupError) × (setup alloc ring_alloc register pool count
            size grp most
          ≡ some (r, error))
        × IsHeld size grp r.rings
  unfolding setup EndsHeld
  setup_memory pool count size grp most fresh some_buffers positive power wide top =
      let (slots, error, run, held) =
        setup_loop-EndsHeld size most count count grp positive wide (omega arith) top in
      let many : (count == 0) ≡ false = ground (arith, some_buffers) in
      let not_zero : (most == 0) ≡ false = ground (arith, positive) in
      rw (many, not_zero, power, fresh, run)
        (record pool { rings = slots; buf_size = size; base_group_id = grp }, error, refl, held)

  setup-IsHeld :
      (pool : BufferPool) (count size grp most : ℕ) (r : BufferPool) (error : Option SetupError)
      → pool.rings ≡ []
      → 0 < count
      → 0 < most
      → bit_and most (most - 1) ≡ 0
      → most * size < 2 ^ 64
      → count < 2 ^ 63
      → setup alloc ring_alloc register pool count size grp most ≡ some (r, error)
      → IsHeld size grp r.rings
  setup-IsHeld pool count size grp most r error fresh some_buffers positive power wide top run =
      let (t, fault, same, held) =
        setup_memory pool count size grp most fresh some_buffers positive power wide top in
      let it : t ≡ r = cc (run, same) in subst (λ (x : BufferPool). IsHeld size grp x.rings) it held

  -- A fresh pool, with at least one and less than 2 ^ 63 buffers, at most `most` in a group, a power of
  -- two as the code tests it, whose memory has a size below 2 ^ 64, where nothing that `setup` asks for
  -- is refused: `setup` ends, and whatever the counter has come to, `pickGroup` picks a group that was
  -- given `bytes` bytes. Each of its buffers lies inside them, in the place of its number, and is given
  -- back as the buffer at that address, by its own number where a group has at most 2 ^ 16 buffers.
  pub setup-pick_group :
      (pool : BufferPool) (count size grp most counter : ℕ)
      → pool.rings ≡ []
      → 0 < count
      → count < 2 ^ 63
      → 0 < most
      → bit_and most (most - 1) ≡ 0
      → most * size < 2 ^ 64
      → Grants alloc ring_alloc register
      → (r : BufferPool) × (setup alloc ring_alloc register pool count size grp most
          ≡ some (r, none))
        × (g : ℕ) × (q : BufferPool) × (s : RingSlot) × (bytes : ℕ) × (pick_group
              (record r { rr_counter = counter })
            ≡ some (g, q))
        × (alloc g bytes ≡ some s.buffer_base)
        × (s.count ≤ most)
        × ((i : ℕ)
            → i < s.count
            → (get_buffer_address q g i ≡ some (s.buffer_base + i * size))
              × (s.buffer_base + i * size + size ≤ s.buffer_base + bytes)
              × (p : Provided) × (release_buffer q g i ≡ some p)
              × (p.addr ≡ s.buffer_base + i * size)
              × (most ≤ 2 ^ 16 → p.bid ≡ i))
  setup-pick_group pool count size grp most counter fresh some_buffers top positive power wide
        granted =
      let (r, error, run, base, width, laid, whole, free) =
        setup-IsLaid alloc ring_alloc register pool count size grp most fresh some_buffers top
          positive power in
      let no_error : error ≡ none = free granted in
      let held =
        setup-IsHeld pool count size grp most r error fresh some_buffers positive power wide top
          run in
      let p : BufferPool = record r { rr_counter = counter } in
      let (g, q, s, picked, named, at, from, small, rings, bound, buffers) =
        pick_group_lem p most (rw (width, base) laid)
          (some_slots r.rings count some_buffers (whole no_error)) in
      let (bytes, given, fits) = memory_at size grp r.rings (g - grp) s held (rw base at at) in
      let number : grp + (g - grp) ≡ g = omega (arith, from, base) in
      (
        r,
        rw no_error at run,
        g,
        q,
        s,
        bytes,
        picked,
        rw number at given,
        small,
        λ i below.
            let (address, inside, back, released, _, same, bid) = buffers i below in
            (
              rw width at address,
              omega (arith, fits, rw width at inside),
              back,
              released,
              rw width at same,
              bid,
            ),
      )
