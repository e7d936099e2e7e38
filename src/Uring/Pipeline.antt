-- ===== src/Uring/Pipeline.antt =====
-- `Pipeline` of src/Core/Uring/Pipeline.cpp, and how `Core::worker` of src/Core/Core.cpp reads the
-- data of a completion. A bit of a number is told by a division.
use edge_dns.Prelude.{
  ℕ, ◌+◌, ◌-◌, ◌*◌, ◌/◌, ◌%◌, ◌^◌, Bool, true, List, Option, none, some, ◌>>=◌, ◌==◌, if◌then◌else◌,
}
use edge_dns.Uring.Pool.{BufferPool, pick_group}

pub data ConnectionState : Type 0 where
  multishot_accept : ConnectionState
  read : ConnectionState
  write : ConnectionState

unfoldable pub state_number : ConnectionState → ℕ
state_number multishot_accept = 0
state_number read = 1
state_number write = 2

abbrev pub udp_type : ℕ
udp_type = 0

abbrev pub tcp_type : ℕ
tcp_type = 1

abbrev pub sync_type : ℕ
sync_type = 2

-- `type` is one of the three, and `fd` is not negative. What `ip_str` points to is no part of it. `write_buffer` is the array up to `len`.
pub record Connection : Type 0 where
  pub fd : ℕ
  pub type : ℕ
  pub ip : ℕ
  pub write_buffer : List ℕ
  pub buf_group : ℕ

-- What a queue entry is prepared for.
pub data Operation : Type 0 where
  accept_multishot : Operation
  recvmsg_multishot : Operation
  recvmsg : Operation
  sendmsg : Operation
  send : Operation

-- A submission queue entry; `buf_group` is there where IOSQE_BUFFER_SELECT is set.
pub record QueueEntry : Type 0 where
  pub operation : Operation
  pub fd : ℕ
  pub buf_group : Option ℕ
  pub user_data : ℕ

-- `((uint64_t)state << 32) | (uint32_t)fd`
unfoldable pub fd_data : ConnectionState → ℕ → ℕ
unfolding state_number
fd_data state fd = state_number state * 2 ^ 32 + fd % 2 ^ 32

unfoldable pub has_context : ℕ → Bool
has_context word = word / 2 ^ 63 % 2 == 1

-- `(uint64_t)ctx | (1ULL << 63)`
unfoldable pub context_data : ℕ → ℕ
unfolding has_context
context_data ctx = if has_context ctx then ctx else ctx + 2 ^ 63

-- Whether `io_uring_get_sqe` gives an entry, and whether it does after `io_uring_submit`.
pub record Ring : Type 0 where
  pub at_once : Bool
  pub after_submit : Bool

unfoldable pub get_sqe : Ring → Bool
get_sqe ring = if ring.at_once then true else ring.after_submit

unfoldable pub queue_multishot_accept : Ring → ℕ → Option QueueEntry
unfolding get_sqe fd_data
queue_multishot_accept ring fd =
    if get_sqe ring
    then some (record {
      operation = accept_multishot;
      fd = fd;
      buf_group = none;
      user_data = fd_data multishot_accept fd;
    })
    else none

-- `queueRead` and `queueReadForSync`, which differ in the operation that they prepare.
unfoldable pub queue_read_by :
    Operation
    → Ring
    → BufferPool
    → Connection
    → Option (Option QueueEntry × BufferPool × Connection)
unfolding get_sqe fd_data
queue_read_by operation ring pool conn =
    if get_sqe ring
    then (do
      (g, picked) ← pick_group pool
      some (
        some (record {
          operation = operation;
          fd = conn.fd;
          buf_group = some (g % 2 ^ 16);
          user_data = fd_data read conn.fd;
        }),
        picked,
        record conn { buf_group = g },
      ))
    else some (none, pool, conn)

unfoldable pub queue_read :
    Ring → BufferPool → Connection → Option (Option QueueEntry × BufferPool × Connection)
unfolding queue_read_by
queue_read = queue_read_by recvmsg_multishot

unfoldable pub queue_read_for_sync :
    Ring → BufferPool → Connection → Option (Option QueueEntry × BufferPool × Connection)
unfolding queue_read_by
queue_read_for_sync = queue_read_by recvmsg

-- `ctx` is the address of the context, which is deleted where there is no entry.
unfoldable pub queue_write_udp : Ring → (ctx fd : ℕ) → Option QueueEntry
unfolding get_sqe context_data
queue_write_udp ring ctx fd =
    if get_sqe ring
    then some
        (record { operation = sendmsg; fd = fd; buf_group = none; user_data = context_data ctx })
    else none

unfoldable pub queue_write_tcp : Ring → Connection → Option QueueEntry
unfolding get_sqe fd_data
queue_write_tcp ring conn =
    if get_sqe ring
    then some (record {
      operation = send;
      fd = conn.fd;
      buf_group = none;
      user_data = fd_data write conn.fd;
    })
    else none

-- What the worker takes a completion for.
pub data Completion : Type 0 where
  context_sent : (ctx : ℕ) → Completion
  of_fd : (type fd : ℕ) → Completion

unfoldable pub read_completion : ℕ → Completion
unfolding has_context
read_completion word =
    if has_context word then context_sent (word - 2 ^ 63) else of_fd (word / 2 ^ 32) (word % 2 ^ 32)
