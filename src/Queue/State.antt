-- ===== src/Queue/State.antt =====
-- The two queues of `Operational`, and what puts a write in them.
use edge_dns.Prelude.{
  ℕ, ◌-◌, ◌%◌, ◌^◌, Bool, ℤ, pos, negsuc, List, [], ◌∷◌, ◌++◌, ltb, if◌then◌else◌,
}
use edge_dns.Records.State.{CassUuid, DnsResponseData, Mmap}
use edge_dns.Groups.State.{EntryResponse, GroupMmap}

pub data QueueType : Type 0 where
  add : QueueType
  remove : QueueType
  update : QueueType

pub record QueuedRecord : Type 0 where
  pub name : List ℕ
  pub qtype : ℤ
  pub ttl : ℤ
  pub prio : ℤ
  pub group_id : CassUuid
  pub id : CassUuid
  pub is_geo : Bool
  pub is_proxy : Bool
  pub val : List ℕ
  pub type : QueueType

-- `country_code` has 8 bytes.
pub record QueuedEntry : Type 0 where
  pub group_id : CassUuid
  pub id : CassUuid
  pub country_code : List ℕ
  pub val : List ℕ
  pub priority : ℤ
  pub type : QueueType

-- The caches, and the queues with the front first.
pub record Server : Type 0 where
  pub records : Mmap
  pub groups : GroupMmap
  pub record_queue : List QueuedRecord
  pub entry_queue : List QueuedEntry

-- The conversion to int of a uint32_t.
unfoldable pub to_int : ℕ → ℤ
to_int n = if ltb n (2 ^ 31) then pos n else negsuc (2 ^ 32 - 1 - n % 2 ^ 32)

unfoldable pub queued_record : List ℕ → ℤ → DnsResponseData → QueuedRecord
unfolding to_int
queued_record name qtype req = record {
  name = name;
  qtype = qtype;
  ttl = to_int req.ttl;
  prio = pos req.priority;
  group_id = req.group_id;
  id = req.id;
  is_geo = req.is_geo;
  is_proxy = req.is_proxy;
  val = req.rdata;
  type = add;
}

unfoldable pub add_queue_for_record : Server → List ℕ → ℤ → DnsResponseData → Server
unfolding queued_record
add_queue_for_record s name qtype req = record s {
  record_queue = s.record_queue ++ queued_record name qtype req ∷ [];
}

unfoldable pub add_queue_for_entry : Server → CassUuid → List ℕ → EntryResponse → Server
add_queue_for_entry s group_id country_code req = record s {
  entry_queue =
      s.entry_queue
      ++ record {
        group_id = group_id;
        id = req.id;
        country_code = country_code;
        val = req.ip;
        priority = req.priority;
        type = add;
      }
        ∷ [];
}
