-- ===== src/Uring/Completions.antt =====
-- A completion is of what was queued.
use edge_dns.Prelude.{
  ℕ, ◌+◌, ◌-◌, ◌*◌, ◌/◌, ◌%◌, ◌^◌, ◌<◌, ◌≤◌, ◌≡◌, refl, ap, ap₂, true, false, some, ◌==◌, length,
  arith,
}
use edge_dns.Uring.Pool.{RingSlot, BufferPool, get_buffer_address}
use edge_dns.Uring.Setup.{IsLaid}
use edge_dns.Uring.Buffers.{pick_group_lem}
use edge_dns.Uring.Pipeline.{
  ConnectionState, multishot_accept, read, write, Connection, Operation, QueueEntry, Ring,
  context_sent, of_fd, state_number, fd_data, has_context, context_data, get_sqe, queue_read_by,
  read_completion,
}

fd_part : (n fd : ℕ) → n < 3 → fd < 2 ^ 31 → read_completion (n * 2 ^ 32 + fd % 2 ^ 32) ≡ of_fd n fd
unfolding read_completion has_context
fd_part n fd few h =
    let low : (n * 2 ^ 32 + fd % 2 ^ 32) / 2 ^ 63 % 2 == 1 ≡ false = ground (arith, few, h) in
    let type : (n * 2 ^ 32 + fd % 2 ^ 32) / 2 ^ 32 ≡ n = omega (arith, few, h) in
    let back : (n * 2 ^ 32 + fd % 2 ^ 32) % 2 ^ 32 ≡ fd = omega (arith, few, h) in
    rw low (ap₂ of_fd type back)

few_states : (state : ConnectionState) → state_number state < 3
unfolding state_number
few_states multishot_accept = omega arith
few_states read = omega arith
few_states write = omega arith

context_part : (ctx : ℕ) → ctx < 2 ^ 63 → read_completion (context_data ctx) ≡ context_sent ctx
unfolding read_completion has_context context_data
context_part ctx h =
    let clear : ctx / 2 ^ 63 % 2 == 1 ≡ false = ground (arith, h) in
    let up : (ctx + 2 ^ 63) / 2 ^ 63 % 2 == 1 ≡ true = ground (arith, h) in
    let back : ctx + 2 ^ 63 - 2 ^ 63 ≡ ctx = omega arith in rw (clear, up) (ap context_sent back)

-- The data that is queued for a file descriptor is read as its state and the descriptor, and that for
-- a context in the lower half of the address space as the context.
pub read_completion-fd_data :
    (state : ConnectionState) (fd ctx : ℕ)
    → fd < 2 ^ 31
    → ctx < 2 ^ 63
    → (read_completion (fd_data state fd) ≡ of_fd (state_number state) fd)
      × (read_completion (context_data ctx) ≡ context_sent ctx)
unfolding fd_data
read_completion-fd_data state fd ctx h k =
    (fd_part (state_number state) fd (few_states state) h, context_part ctx k)

-- Where the ring gives an entry and the pool has at least one group, of which each has at most
-- 2 ^ 16 buffers and whose numbers stay below 2 ^ 16, `queueRead` and `queueReadForSync` choose a
-- group of the pool. The entry names the group that the connection remembers, its data is read as
-- that of a read of the connection, and the worker finds the address of each buffer of the group.
pub queue_read_by_lem :
    (operation : Operation) (ring : Ring) (pool : BufferPool) (conn : Connection) (most : ℕ)
    → get_sqe ring ≡ true
    → IsLaid most pool.buf_size pool.base_group_id pool.rings
    → 0 < length pool.rings
    → pool.base_group_id + length pool.rings ≤ 2 ^ 16
    → conn.fd < 2 ^ 31
    → (entry : QueueEntry) × (r : BufferPool) × (after : Connection) × (s : RingSlot)
      × (queue_read_by operation ring pool conn ≡ some (some entry, r, after))
      × (entry.buf_group ≡ some after.buf_group)
      × (s.group_id ≡ after.buf_group)
      × (read_completion entry.user_data ≡ of_fd (state_number read) conn.fd)
      × ((i : ℕ)
          → i < s.count
          → get_buffer_address r after.buf_group i ≡ some (s.buffer_base + i * pool.buf_size))
unfolding queue_read_by
queue_read_by_lem operation ring pool conn most free laid some_groups named h =
    let (g, r, s, run, number, _, _, _, same, bound, buffers) =
      pick_group_lem pool most laid some_groups in
    (
      record {
        operation = operation;
        fd = conn.fd;
        buf_group = some (g % 2 ^ 16);
        user_data = fd_data read conn.fd;
      },
      r,
      record conn { buf_group = g },
      s,
      rw (free, run) refl,
      let back : g % 2 ^ 16 ≡ g = omega (arith, bound, named) in ap some back,
      number,
      (read_completion-fd_data read conn.fd 0 h (omega arith)).0,
      λ i below. (buffers i below).0,
    )
