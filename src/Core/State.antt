-- ===== src/Core/State.antt =====
-- What `Core::handle` reads and keeps while it writes an answer.
use edge_dns.Prelude.{ℕ, Bool, List}
use edge_dns.Records.State.{CassUuid, DnsResponseData}
use edge_dns.Groups.State.{EntryResponse}

-- `sizeof(out)`
abbrev pub out_size : ℕ
out_size = 4096

-- What was read of the query; `question` is its question section, byte for byte.
pub record Question : Type 0 where
  pub transaction_id : ℕ
  pub flags : ℕ
  pub qdcount : ℕ
  pub name_wire : List ℕ
  pub qtype : ℕ
  pub qclass : ℕ
  pub edns_class : ℕ
  pub question : List ℕ

-- A cache write for the queue; the name and the type of a record are the query's.
pub data Job : Type 0 where
  record_job : DnsResponseData → Job
  entry_job : CassUuid → List ℕ → EntryResponse → Job

pub record RrlBucket : Type 0 where
  pub window_start : ℕ
  pub responses : ℕ

-- What surrounds the handler: its settings, what the country lookup, the IP group cache and the
-- database answer, and the clock when the record of each number is reached.
pub record Surroundings : Type 0 where
  pub rate_limiting : Bool
  pub threshold : ℕ
  pub proxy_id : CassUuid
  pub ip_str : List ℕ
  pub country : List ℕ
  pub cached_entries : CassUuid → List ℕ → List EntryResponse
  pub stored_entries : CassUuid → List ℕ → List EntryResponse
  pub current : ℕ → ℕ

-- The answer so far: `written` is `out` up to `rlen`, `bucket` the client's rate limit bucket.
pub record Reply : Type 0 where
  pub written : List ℕ
  pub anc : ℕ
  pub truncated : Bool
  pub jobs : List Job
  pub bucket : RrlBucket
