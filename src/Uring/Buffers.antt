-- ===== src/Uring/Buffers.antt =====
-- The buffers that a picked group lends.
use edge_dns.Prelude.{
  ℕ, zero, suc, ◌+◌, ◌-◌, ◌*◌, ◌%◌, ◌^◌, ◌<◌, ◌≤◌, ◌≡◌, refl, ap, ◌∙◌, List, [], ◌∷◌, some, false,
  ltb, lt→ltb, ◌==◌, length, get_elem?, arith,
}
use native.Mathlib.Nat.{mod-lt}
use edge_dns.Uring.Pool.{
  Provided, RingSlot, BufferPool, buffer_at, provide, slot_of, get_buffer_address, release_buffer,
  pick_group,
}
use edge_dns.Uring.Setup.{IsSlot, IsLaid}

pub laid-IsSlot :
    (most size grp : ℕ) (slots : List RingSlot) (i : ℕ)
    → IsLaid most size grp slots
    → i < length slots
    → (s : RingSlot) × (get_elem? slots i ≡ some s) × IsSlot most size (grp + i) s
laid-IsSlot most size grp [] i laid h = absurd (omega arith)
laid-IsSlot most size grp (s ∷ ss) zero laid h =
    let same : grp + 0 ≡ grp = omega arith in (s, refl, rw same laid.0)
laid-IsSlot most size grp (s ∷ ss) (suc i) laid h =
    let same : grp + suc i ≡ suc grp + i = omega arith in
    rw same (laid-IsSlot most size (suc grp) ss i laid.1 (omega arith))

get_elem?-provide :
    (base size n k i : ℕ)
    → i < n
    → get_elem? (provide base size n k) i ≡ some (buffer_at base size (k + i))
unfolding provide
get_elem?-provide base size zero k i h = absurd (omega arith)
get_elem?-provide base size (suc n) k zero h = let same : k + 0 ≡ k = omega arith in rw same refl
get_elem?-provide base size (suc n) k (suc i) h =
    let same : k + suc i ≡ suc k + i = omega arith in
    rw same (get_elem?-provide base size n (suc k) i (omega arith))

room : (i n size : ℕ) → i < n → i * size + size ≤ n * size
room i zero size h = absurd (omega (arith, h))
room zero (suc n) size h = omega arith
room (suc i) (suc n) size h = omega (arith, room i n size (omega arith))

get_elem?-provided :
    (base size n i : ℕ) → i < n → get_elem? (provide base size n 0) i ≡ some (buffer_at base size i)
get_elem?-provided base size n i h =
    let same : 0 + i ≡ i = omega arith in
    get_elem?-provide base size n 0 i h ∙ ap (λ t. some (buffer_at base size t)) same

-- Of a pool with at least one group, `pickGroup` picks a group of the pool. Each of its buffers lies
-- inside the memory of the group, and to release it gives its ring the buffer that `setup` gave, by
-- its own number where no group has more than 2 ^ 16 buffers.
pub pick_group_lem :
    (pool : BufferPool) (most : ℕ)
    → IsLaid most pool.buf_size pool.base_group_id pool.rings
    → 0 < length pool.rings
    → (g : ℕ) × (r : BufferPool) × (s : RingSlot) × (pick_group pool ≡ some (g, r))
      × (s.group_id ≡ g)
      × (get_elem? pool.rings (g - pool.base_group_id) ≡ some s)
      × (pool.base_group_id ≤ g)
      × (s.count ≤ most)
      × (r.rings ≡ pool.rings)
      × (g < pool.base_group_id + length pool.rings)
      × ((i : ℕ)
          → i < s.count
          → (get_buffer_address r g i ≡ some (s.buffer_base + i * pool.buf_size))
            × (i * pool.buf_size + pool.buf_size ≤ s.count * pool.buf_size)
            × (p : Provided) × (release_buffer r g i ≡ some p)
            × (get_elem? s.provided i ≡ some p)
            × (p.addr ≡ s.buffer_base + i * pool.buf_size)
            × (most ≤ 2 ^ 16 → p.bid ≡ i))
unfolding pick_group get_buffer_address release_buffer slot_of buffer_at
pick_group_lem pool most laid h =
    let n = length pool.rings in
    let k = pool.rr_counter % n in
    let g = pool.base_group_id + k in
    let r : BufferPool = record pool { rr_counter = (pool.rr_counter + 1) % 2 ^ 64 } in
    let some_rings : (n == 0) ≡ false = ground (arith, h) in
    let (s, found, is_slot) =
      laid-IsSlot most pool.buf_size pool.base_group_id pool.rings k laid
        (mod-lt pool.rr_counter h) in
    let back : g - pool.base_group_id ≡ k = omega arith in
    let inside : ltb g pool.base_group_id ≡ false = ground arith in
    (
      g,
      r,
      s,
      rw some_rings refl,
      is_slot.named,
      rw back found,
      omega arith,
      is_slot.small,
      refl,
      omega (arith, mod-lt pool.rr_counter h),
      λ i below. (
        rw (inside, back, found, lt→ltb _ _ below) refl,
        room i s.count pool.buf_size below,
        buffer_at s.buffer_base pool.buf_size i,
        rw (inside, back, found, lt→ltb _ _ below) refl,
        rw is_slot.filled (get_elem?-provided s.buffer_base pool.buf_size s.count i below),
        refl,
        (λ few. omega (arith, few, below, is_slot.small)),
      ),
    )
