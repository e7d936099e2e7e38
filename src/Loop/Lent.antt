-- ===== src/Loop/Lent.antt =====
-- The buffers of a connection.
use edge_dns.Prelude.{
  ℕ, ◌+◌, ◌-◌, ◌*◌, ◌<◌, ◌≡◌, refl, false, some, ltb, lt→ltb, length, get_elem?, arith,
}
use edge_dns.Uring.Pool.{
  Provided, RingSlot, BufferPool, slot_of, buffer_at, get_buffer_address, release_buffer,
}
use edge_dns.Uring.Buffers.{laid-IsSlot}
use edge_dns.Loop.Steady.{IsPool, IsGroup}

-- Buffer `i` of group `g` has an address, and it can be given back.
pub record IsLent (pool : BufferPool) (g i : ℕ) : Type 0 where
  pub address : ℕ
  pub provided : Provided
  pub found : get_buffer_address pool g i ≡ some address
  pub released : release_buffer pool g i ≡ some provided
  pub same : provided.addr ≡ address

-- Of each group of the pool, that is so for all buffers that it has.
pub group-IsLent :
    (most : ℕ) (pool : BufferPool) (g : ℕ)
    → IsPool most pool
    → IsGroup pool g
    → (s : RingSlot) × (get_elem? pool.rings (g - pool.base_group_id) ≡ some s)
      × (s.group_id ≡ g)
      × ((i : ℕ) → i < s.count → IsLent pool g i)
unfolding get_buffer_address release_buffer slot_of buffer_at
group-IsLent most pool g pooled (low, high) =
    let k = g - pool.base_group_id in
    let below : k < length pool.rings = omega (arith, low, high, pooled.some_groups) in
    let (s, found, is_slot) =
      laid-IsSlot most pool.buf_size pool.base_group_id pool.rings k pooled.laid below in
    let inside : ltb g pool.base_group_id ≡ false = ground (arith, low) in
    let named : s.group_id ≡ g = omega (arith, is_slot.named, low) in
    (
      s,
      found,
      named,
      λ i few. record {
        address = s.buffer_base + i * pool.buf_size;
        provided = buffer_at s.buffer_base pool.buf_size i;
        found = rw (inside, found, lt→ltb _ _ few) refl;
        released = rw (inside, found, lt→ltb _ _ few) refl;
        same = refl;
      },
    )
