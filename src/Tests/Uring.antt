-- ===== src/Tests/Uring.antt =====
-- Runs of the buffer pool: two groups of at most four buffers for six, and a read.
use edge_dns.Prelude.{
  ℕ, ◌+◌, ◌*◌, ◌^◌, ◌<◌, ◌≤◌, ◌≡◌, refl, true, [], ◌∷◌, Bool, Option, none, some, arith,
}
use edge_dns.Uring.Pool.{
  Provided, RingSlot, BufferPool, SetupError, provide, setup, pick_group, get_buffer_address,
  release_buffer,
}
use edge_dns.Uring.Setup.{IsLaid, total, Grants, setup-IsLaid}
use edge_dns.Uring.Held.{setup-pick_group}
use edge_dns.Uring.Pipeline.{Connection, Ring, get_sqe}

abbrev pub alloc : (group_id size : ℕ) → Option ℕ
alloc g size = some (g * 65536)

abbrev pub granted : ℕ → Bool
granted g = true

abbrev fresh_pool : BufferPool
fresh_pool = record { rings = []; buf_size = 0; base_group_id = 0; rr_counter = 0 }

setup-IsLaid_example :
    (r : BufferPool) × (error : Option SetupError) × (setup alloc granted granted fresh_pool 6 2048
        1 4
      ≡ some (r, error))
    × (r.base_group_id ≡ 1)
    × (r.buf_size ≡ 2048)
    × IsLaid 4 2048 1 r.rings
    × (error ≡ none → total r.rings ≡ 6)
    × (Grants alloc granted granted → error ≡ none)
setup-IsLaid_example =
    setup-IsLaid alloc granted granted fresh_pool 6 2048 1 4 refl (omega arith) (omega arith)
      (omega arith) refl

abbrev pub slot : (grp base count : ℕ) → RingSlot
slot grp base count = record {
  buffer_base = base;
  group_id = grp;
  count = count;
  provided = provide base 2048 count 0;
}

-- What this `setup` lays out.
abbrev pub pool : BufferPool
pool = record {
  rings = slot 1 65536 4 ∷ slot 2 131072 2 ∷ [];
  buf_size = 2048;
  base_group_id = 1;
  rr_counter = 0;
}

pub pool-IsLaid : IsLaid 4 2048 1 pool.rings
pool-IsLaid = (
  record { named = refl; power = (2, refl); small = omega arith; filled = refl },
  (record { named = refl; power = (1, refl); small = omega arith; filled = refl }, tt),
)

abbrev pub ring : Ring
ring = record { at_once = true; after_submit = true }

abbrev conn : Connection
conn = record { fd = 7; type = 2; ip = 0; write_buffer = []; buf_group = 1 }

pub ring_free : get_sqe ring ≡ true
unfolding get_sqe
ring_free = refl

granted-Grants : Grants alloc granted granted
granted-Grants = record { memory = λ g size e. cc e; rings = λ g. refl; registration = λ g. refl }

setup-pick_group_example :
    (r : BufferPool) × (setup alloc granted granted fresh_pool 6 2048 1 4 ≡ some (r, none))
    × (g : ℕ) × (q : BufferPool) × (s : RingSlot) × (bytes : ℕ) × (pick_group
          (record r { rr_counter = 7 })
        ≡ some (g, q))
    × (alloc g bytes ≡ some s.buffer_base)
    × (s.count ≤ 4)
    × ((i : ℕ)
        → i < s.count
        → (get_buffer_address q g i ≡ some (s.buffer_base + i * 2048))
          × (s.buffer_base + i * 2048 + 2048 ≤ s.buffer_base + bytes)
          × (p : Provided) × (release_buffer q g i ≡ some p)
          × (p.addr ≡ s.buffer_base + i * 2048)
          × (4 ≤ 2 ^ 16 → p.bid ≡ i))
setup-pick_group_example =
    setup-pick_group alloc granted granted fresh_pool 6 2048 1 4 7 refl (omega arith) (omega arith)
      (omega arith) refl (omega arith) granted-Grants
