-- ===== src/Queue/Worker.antt =====
-- A round of `queueLifeCycle` in which one of the queues is not empty. The answer `none` is a fault
-- of one of the caches.
use edge_dns.Prelude.{List, [], ◌∷◌, Option, some, ◌>>=◌}
use edge_dns.Records.State.{RecordData, Mmap}
use edge_dns.Records.Ops.{append_record}
use edge_dns.Groups.State.{GroupMmap}
use edge_dns.Groups.Ops.{append_entry}
use edge_dns.Sync.Numbers.{to_unsigned}
use edge_dns.Queue.State.{QueueType, add, remove, update, QueuedRecord, QueuedEntry, Server}

unfoldable pub data_in : QueuedRecord → RecordData
data_in q = record {
  ttl = to_unsigned 32 q.ttl;
  priority = to_unsigned 16 q.prio;
  group_id = q.group_id;
  id = q.id;
  is_geo = q.is_geo;
  is_proxy = q.is_proxy;
  binary_rdata = q.val;
}

unfoldable pub store_record_of : QueuedRecord → QueueType → Mmap → Option Mmap
unfolding data_in
store_record_of q add m = do (done, r) ← append_record m q.name q.qtype (data_in q); some r
store_record_of q remove m = some m
store_record_of q update m = some m

unfoldable pub store_entry_of : QueuedEntry → QueueType → GroupMmap → Option GroupMmap
store_entry_of q add g = do
  (done, r) ← append_entry g q.group_id q.id q.country_code q.val q.priority
  some r
store_entry_of q remove g = some g
store_entry_of q update g = some g

unfoldable pub record_part : Server → List QueuedRecord → Option Server
unfolding store_record_of
record_part s [] = some s
record_part s (q ∷ qs) = do
  r ← store_record_of q q.type s.records
  some (record s { records = r; record_queue = qs })

unfoldable pub entry_part : Server → List QueuedEntry → Option Server
unfolding store_entry_of
entry_part s [] = some s
entry_part s (q ∷ qs) = do
  g ← store_entry_of q q.type s.groups
  some (record s { groups = g; entry_queue = qs })

unfoldable pub worker_round : Server → Option Server
unfolding record_part entry_part
worker_round s = do t ← record_part s s.record_queue; entry_part t t.entry_queue
