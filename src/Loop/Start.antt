-- ===== src/Loop/Start.antt =====
-- How a thread begins: `Core::worker` up to its loop, `initUDP`, `initTCP`, `Sync::initSync` and
-- `Pipeline::init`. The answer `none` is an exception of the buffer pool.
use edge_dns.Prelude.{ℕ, Bool, [], Option, none, some, ◌>>=◌}
use edge_dns.Queue.State.{Server}
use edge_dns.Uring.Pool.{BufferPool, SetupError, setup}
use edge_dns.Uring.Pipeline.{
  Connection, recvmsg_multishot, Ring, udp_type, tcp_type, queue_multishot_accept,
}
use edge_dns.Loop.State.{Thread, put_connection, submit}
use edge_dns.Loop.Events.{rearm}

-- What the thread is given: its sockets, the memory and the rings of the groups of buffers, and the
-- entries for its first three operations.
pub record Startup : Type 0 where
  pub udp : ℕ
  pub tcp : ℕ
  pub sync : ℕ
  pub alloc : (group_id size : ℕ) → Option ℕ
  pub ring_alloc : ℕ → Bool
  pub register : ℕ → Bool
  pub accept_tcp : Ring
  pub accept_sync : Ring
  pub read_udp : Ring

abbrev pub unset_pool : BufferPool
unset_pool = record { rings = []; buf_size = 0; base_group_id = 0; rr_counter = 0 }

abbrev pub buffer_total : ℕ
buffer_total = 1048576

abbrev pub group_limit : ℕ
group_limit = 32768

-- A `Gen::Connection` of a socket of the thread's own.
abbrev pub own_connection : (fd type : ℕ) → Connection
own_connection fd type = record { fd = fd; type = type; ip = 0; write_buffer = []; buf_group = 1 }

unfoldable pub without_error : BufferPool → Option SetupError → Option BufferPool
without_error pool none = some pool
without_error pool (some error) = none

unfoldable pub init_pipeline : Startup → Option BufferPool
unfolding without_error
init_pipeline st = do
  (pool, error) ←
      setup st.alloc st.ring_alloc st.register unset_pool buffer_total 2048 1 group_limit
  without_error pool error

unfoldable pub init_udp : (fd : ℕ) → Thread → Thread
init_udp fd t = record (put_connection t fd (some (own_connection fd udp_type))) { udp_fd = fd }

unfoldable pub init_tcp : (fd : ℕ) → Thread → Thread
init_tcp fd t = record (put_connection t fd (some (own_connection fd tcp_type))) { tcp_fd = fd }

unfoldable pub init_sync : (fd : ℕ) → Thread → Thread
init_sync fd t = record t { sync_fd = fd }

-- A thread of `activeThreads` with its pool.
unfoldable pub new_thread : Server → BufferPool → Thread
new_thread s pool = record {
  server = s;
  udp_fd = 0;
  tcp_fd = 0;
  sync_fd = 0;
  pool = pool;
  connections = λ fd. none;
  rrl_buckets = λ ip zone. record { window_start = 0; responses = 0 };
  contexts = [];
  submitted = [];
  given_back = [];
  closed = [];
}

unfoldable pub with_sockets : Startup → Thread → Thread
unfolding init_udp init_tcp init_sync
with_sockets st t = init_sync st.sync (init_tcp st.tcp (init_udp st.udp t))

-- The read of `connections[udpFd]`.
unfoldable pub first_read : Ring → ℕ → Option Connection → Thread → Option Thread
unfolding rearm
first_read ring fd none t = none
first_read ring fd (some conn) t = rearm recvmsg_multishot ring fd conn t

unfoldable pub worker_start : Startup → Server → Option Thread
unfolding init_pipeline new_thread with_sockets first_read
worker_start st s = do
  pool ← init_pipeline st
  let t = with_sockets st (new_thread s pool)
  let u = submit t (queue_multishot_accept st.accept_tcp st.tcp)
  let v = submit u (queue_multishot_accept st.accept_sync st.sync)
  first_read st.read_udp st.udp (v.connections st.udp) v
