-- ===== src/Loop/State.antt =====
-- What a thread keeps, include/Core/Gen/Gen.hpp, and what it is told of an event.
use edge_dns.Prelude.{ℕ, Bool, ℤ, List, [], ◌∷◌, ◌++◌, Option, none, some, update}
use edge_dns.Records.State.{CassUuid, DnsResponseData}
use edge_dns.Groups.State.{EntryResponse}
use edge_dns.Core.State.{RrlBucket}
use edge_dns.Geo.Country.{LookupResult}
use edge_dns.Queue.State.{Server}
use edge_dns.Uring.Pool.{Provided, BufferPool}
use edge_dns.Uring.Pipeline.{Connection, QueueEntry, Ring}

-- The other side of a connection: its address and what `inet_ntop` writes for it.
pub record Peer : Type 0 where
  pub ip : ℕ
  pub ip_str : List ℕ

-- What `io_uring_recvmsg_validate` and its kin find in a buffer.
pub record Message : Type 0 where
  pub payload : List ℕ
  pub peer : Peer

-- A `Gen::Context` that has been made and not deleted; `written` is its buffer up to `len`.
pub record Context : Type 0 where
  pub address : ℕ
  pub fd : ℕ
  pub written : List ℕ
  pub peer : Peer

-- A completion, with what the calls that its handling makes answer: the entries of the ring, the
-- message of its buffer, the address of an accepted peer, what is read at the pointer
-- `ip_str` of a connection, which is into an array that is gone by then, a new context, and the
-- clock.
pub record Event : Type 0 where
  pub user_data : ℕ
  pub res : ℤ
  pub has_more : Bool
  pub buf_id : ℕ
  pub ring : Ring
  pub message : Option Message
  pub accepted_ip : ℕ
  pub stale_ip_str : List ℕ
  pub new_context : ℕ
  pub current : ℕ → ℕ

-- The settings of the thread, and what the database, the lookup of countries and the parsing of UUIDs
-- answer.
pub record Environment : Type 0 where
  pub rate_limiting : Bool
  pub threshold : ℕ
  pub proxy_id : CassUuid
  pub lookup : List ℕ → LookupResult
  pub stored_entries : CassUuid → List ℕ → List EntryResponse
  pub database : List ℕ → List ℕ → ℕ → List DnsResponseData
  pub uuid_of : List ℕ → CassUuid

-- `rrl_buckets` is by the address of the client and the first bytes of the zone. `submitted`,
-- `given_back` and `closed` are what has been done so far: the entries that were queued, the buffers
-- that were given back to the ring of a group, and the descriptors that were closed.
pub record Thread : Type 0 where
  pub server : Server
  pub udp_fd : ℕ
  pub tcp_fd : ℕ
  pub sync_fd : ℕ
  pub pool : BufferPool
  pub connections : ℕ → Option Connection
  pub rrl_buckets : ℕ → List ℕ → RrlBucket
  pub contexts : List Context
  pub submitted : List QueueEntry
  pub given_back : List (ℕ × Provided)
  pub closed : List ℕ

-- `connections[fd] = conn`, or `connections.erase(fd)`
abbrev pub put_connection : Thread → ℕ → Option Connection → Thread
put_connection t fd conn = record t { connections = update t.connections fd conn }

-- An entry that is queued, if there is one.
abbrev pub submit : Thread → Option QueueEntry → Thread
submit t none = t
submit t (some e) = record t { submitted = t.submitted ++ e ∷ [] }
