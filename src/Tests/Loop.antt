-- ===== src/Tests/Loop.antt =====
-- Runs of the event loop: a thread with a UDP socket and a sync connection, the pool of the buffer
-- pool's runs and the caches of theirs.
use edge_dns.Prelude.{
  ℕ, ◌+◌, ◌*◌, ◌≡◌, refl, sym, ap, subst, inl, inr, Bool-cases, true, false, ℤ, List, [], ◌∷◌,
  Option, none, some, ◌==◌, if◌then◌else◌, length, arith,
}
use edge_dns.Records.State.{CassUuid, DnsResponseData, zero_uuid}
use edge_dns.Geo.Country.{LookupResult}
use edge_dns.Uring.Pool.{get_buffer_address, release_buffer, slot_of, buffer_at}
use edge_dns.Uring.Pipeline.{Connection, udp_type, sync_type, of_fd, has_context, read_completion}
use edge_dns.Loop.State.{Peer, Message, Event, Environment, Thread}
use edge_dns.Loop.Steady.{IsGroup, IsSteady}
use edge_dns.Loop.Lent.{IsLent}
use edge_dns.Tests.Records.{two_records, two_records-IsValid}
use edge_dns.Tests.Groups.{one_entry}
use edge_dns.Tests.Uring.{pool, pool-IsLaid, ring}

abbrev uuid_of : List ℕ → CassUuid
uuid_of s = record { time_and_version = length s; clock_seq_and_node = 0 }

abbrev unknown : LookupResult
unknown = record { gai_error = 0; mmdb_error = 0; entry = none }

abbrev pub fresh_answer : DnsResponseData
fresh_answer = record {
  ttl = 300;
  priority = 0;
  rdata = 1 ∷ b'x' ∷ [];
  group_id = zero_uuid;
  id = zero_uuid;
  bucket_idx = 0;
  is_geo = false;
  is_proxy = false;
}

abbrev pub env : Environment
env = record {
  rate_limiting = true;
  threshold = 200;
  proxy_id = zero_uuid;
  lookup = λ s. unknown;
  stored_entries = λ g c. [];
  database = λ zone name qtype. fresh_answer ∷ [];
  uuid_of = uuid_of;
}

abbrev pub own : (fd type : ℕ) → Connection
own fd type = record { fd = fd; type = type; ip = 0; write_buffer = []; buf_group = 1 }

abbrev pub thread : Thread
thread = record {
  server = record {
    records = two_records;
    groups = one_entry;
    record_queue = [];
    entry_queue = [];
  };
  udp_fd = 5;
  tcp_fd = 6;
  sync_fd = 7;
  pool = pool;
  connections = λ fd.
      if fd == 5 then some (own 5 udp_type) else (if fd == 9 then some (own 9 sync_type) else none);
  rrl_buckets = λ ip zone. record { window_start = 0; responses = 0 };
  contexts = [];
  submitted = [];
  given_back = [];
  closed = [];
}

pub known : (fd : ℕ) (conn : Connection) → thread.connections fd ≡ some conn → conn.buf_group ≡ 1
known fd conn at = elim (Bool-cases (fd == 5)) [
  | inl udp ↦
      let it : own 5 udp_type ≡ conn = cc (rw udp at at) in
      ap (λ (c : Connection). c.buf_group) (sym it)
  | inr other ↦ elim (Bool-cases (fd == 9)) [
    | inl sync ↦
        let it : own 9 sync_type ≡ conn = cc (rw (other, sync) at at) in
        ap (λ (c : Connection). c.buf_group) (sym it)
    | inr none_known ↦ absurd (cc (rw (other, none_known) at at))
  ]
]

pub thread-IsSteady : IsSteady 4 thread
thread-IsSteady = record {
  pooled = record { laid = pool-IsLaid; from_one = refl; some_groups = omega arith };
  grouped = λ fd conn at. subst (IsGroup pool) (sym (known fd conn at)) (omega arith, omega arith);
  sound = record { valid = two_records-IsValid; named = tt };
}

abbrev pub peer : Peer
peer = record { ip = 258; ip_str = b'1' ∷ b'.' ∷ b'2' ∷ [] }

-- A completion with its data, its result and its message, for buffer 3.
abbrev pub event : ℕ → ℤ → Option Message → Event
event word res message = record {
  user_data = word;
  res = res;
  has_more = true;
  buf_id = 3;
  ring = ring;
  message = message;
  accepted_ip = 258;
  stale_ip_str = [];
  new_context = 4096;
  current = λ n. 7;
}

third-IsLent : (g : ℕ) → g ≡ 1 → IsLent pool g 3
unfolding get_buffer_address release_buffer slot_of buffer_at
third-IsLent g one = rw one (record {
  address = 65536 + 3 * 2048;
  provided = record { addr = 65536 + 3 * 2048; len = 2048; bid = 3 };
  found = refl;
  released = refl;
  same = refl;
})

pub third : IsLent pool 1 3
third = third-IsLent 1 refl

-- A read of the UDP socket, and an accept on the TCP socket.
abbrev pub udp_read : ℕ
udp_read = 4294967301

pub udp_read_is : read_completion udp_read ≡ of_fd 1 5
unfolding read_completion has_context
udp_read_is = refl
