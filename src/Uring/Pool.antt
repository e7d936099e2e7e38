-- ===== src/Uring/Pool.antt =====
-- `BufferPool` of src/Core/Uring/BufferPool.cpp. The answer `none` is a failed assertion, a division
-- by zero, or a loop that does not end.
use edge_dns.Prelude.{
  ℕ, zero, suc, ◌+◌, ◌-◌, ◌*◌, ◌%◌, ◌^◌, ◌||◌, not, Bool, ◌⊎◌, inl, inr, List, [], ◌∷◌, ◌++◌,
  Option, none, some, ◌>>=◌, min, bit_and, ltb, leb, ◌==◌, if◌then◌else◌, length, get_elem?,
}

-- What `io_uring_buf_ring_add` is given.
pub record Provided : Type 0 where
  pub addr : ℕ
  pub len : ℕ
  pub bid : ℕ

-- A group, and what its ring is given at first.
pub record RingSlot : Type 0 where
  pub buffer_base : ℕ
  pub group_id : ℕ
  pub count : ℕ
  pub provided : List Provided

pub record BufferPool : Type 0 where
  pub rings : List RingSlot
  pub buf_size : ℕ
  pub base_group_id : ℕ
  pub rr_counter : ℕ

pub data SetupError : Type 0 where
  no_total : SetupError
  no_power : SetupError
  no_memory : SetupError
  no_ring_memory : SetupError
  no_registration : SetupError

unfoldable pub buffer_at : (base size i : ℕ) → Provided
buffer_at base size i = record { addr = base + i * size; len = size; bid = i % 2 ^ 16 }

-- The loop that provides the buffers from `i` on; `n` counts those that are left.
unfoldable pub provide : (base size n i : ℕ) → List Provided
unfolding buffer_at
provide base size zero i = []
provide base size (suc n) i = buffer_at base size i ∷ provide base size n (suc i)

-- `while (pow2 * 2 <= this_count) pow2 *= 2`, with fuel
unfoldable pub pow2_loop : (fuel pow2 this_count : ℕ) → Option ℕ
pow2_loop zero pow2 n = none
pow2_loop (suc fuel) pow2 n =
    let next = pow2 * 2 % 2 ^ 64 in
    let rest = pow2_loop fuel next n in if leb next n then rest else some pow2

-- `alloc` and `ring_alloc` stand for `posix_memalign`, of the buffers and of the ring of a group,
-- and `register` for `io_uring_register_buf_ring`.
module _ (alloc : (group_id size : ℕ) → Option ℕ) (ring_alloc register : ℕ → Bool) where
  unfoldable pub ring_slot : (size grp count base : ℕ) → SetupError ⊎ RingSlot
  unfolding provide
  ring_slot size grp count base =
      if not (ring_alloc grp)
      then inl no_ring_memory
      else (if not (register grp)
          then inl no_registration
          else inr (record {
            buffer_base = base;
            group_id = grp;
            count = count;
            provided = provide base size count 0;
          }))

  unfoldable pub make_slot : (size grp count : ℕ) → Option ℕ → SetupError ⊎ RingSlot
  unfolding ring_slot
  make_slot size grp count none = inl no_memory
  make_slot size grp count (some base) = ring_slot size grp count base

  -- The loop of `setup`, with fuel. Its answer is what it has added, and what it has thrown.
  unfoldable pub setup_loop :
      (size max_per_group fuel remaining grp : ℕ) → Option (List RingSlot × Option SetupError)
  unfolding pow2_loop make_slot
  setup_loop size max_per_group zero remaining grp =
      if remaining == 0 then some ([], none) else none
  setup_loop size max_per_group (suc fuel) remaining grp =
      if remaining == 0 then some ([], none) else do
        count ← pow2_loop 64 1 (min remaining max_per_group)
        if count == 0
            then some ([], none)
            else elim (make_slot size grp count (alloc grp (count * size % 2 ^ 64))) [
              | inl error ↦ some ([], some error)
              | inr slot ↦ do
                (slots, error) ← setup_loop size max_per_group fuel (remaining - count) (suc grp)
                some (slot ∷ slots, error)
            ]

  -- Its fuel is the number of buffers, since each group has one.
  unfoldable pub setup :
      BufferPool
      → (total_count size base_grp_id max_per_group : ℕ) → Option (BufferPool × Option SetupError)
  unfolding setup_loop
  setup pool total_count size base_grp_id max_per_group =
      if total_count == 0
      then some (pool, some no_total)
      else (if (max_per_group == 0) || not (bit_and max_per_group (max_per_group - 1) == 0)
          then some (pool, some no_power)
          else (do
            (slots, error) ← setup_loop size max_per_group total_count total_count base_grp_id
            some (
              record pool {
                rings = pool.rings ++ slots;
                buf_size = size;
                base_group_id = base_grp_id;
              },
              error,
            )))

-- `rings[indexOf(group_id)]`, with the assertions on both numbers
unfoldable pub slot_of : BufferPool → (group_id buf_id : ℕ) → Option RingSlot
slot_of pool group_id buf_id = if ltb group_id pool.base_group_id then none else do
  slot ← get_elem? pool.rings (group_id - pool.base_group_id)
  if ltb buf_id slot.count then some slot else none

unfoldable pub get_buffer_address : BufferPool → (group_id buf_id : ℕ) → Option ℕ
unfolding slot_of
get_buffer_address pool group_id buf_id = do
  slot ← slot_of pool group_id buf_id
  some (slot.buffer_base + buf_id * pool.buf_size)

-- What the ring of the group is given back.
unfoldable pub release_buffer : BufferPool → (group_id buf_id : ℕ) → Option Provided
unfolding slot_of buffer_at
release_buffer pool group_id buf_id = do
  slot ← slot_of pool group_id buf_id
  some (buffer_at slot.buffer_base pool.buf_size buf_id)

unfoldable pub pick_group : BufferPool → Option (ℕ × BufferPool)
pick_group pool =
    if length pool.rings == 0
    then none
    else some (
      pool.base_group_id + pool.rr_counter % length pool.rings,
      record pool { rr_counter = (pool.rr_counter + 1) % 2 ^ 64 },
    )
