-- ===== src/Main/Start.antt =====
-- `main` of src/index.cpp, and the steps of the threads that it starts.
use edge_dns.Prelude.{ℕ, ◌≡◌, ◌≢◌, ℤ, Bool, List, [], Option, none, some, if◌then◌else◌}
use edge_dns.Records.State.{CassUuid, DnsResponseData, Mmap}
use edge_dns.Records.Hash.{calculate_hash}
use edge_dns.Records.Init.{init}
use edge_dns.Groups.State.{GroupMmap, EntryResponse}
use edge_dns.Groups.Init.{init_groups}
use edge_dns.Sync.Handler.{SyncResponse, handle_sync}
use edge_dns.Sync.Whole.{IsNamedRequest}
use edge_dns.Queue.State.{Server, add_queue_for_record, add_queue_for_entry}
use edge_dns.Queue.Worker.{worker_round}

-- The files are removed first, so that `init` finds new ones; `removed` says whether that is so, and
-- `m` and `g` are what the mapped memory holds. A cache that is not mapped is a fault.
unfoldable pub start :
    (removed mapped_records mapped_groups : Bool) → Mmap → GroupMmap → Option Server
start removed mapped_records mapped_groups m g =
    let (has_records, r) = init removed mapped_records m in
    let (has_groups, t) = init_groups removed mapped_groups g in
    if has_records
    then (if has_groups
        then some (record { records = r; groups = t; record_queue = []; entry_queue = [] })
        else none)
    else none

-- What the threads do to the caches and the queues, each step one of their calls; a sync request is
-- one step. The names of records have a hash that is not 0.
pub data Step : Server → Server → Type 0 where
  queue_record :
      (s : Server) (name : List ℕ) (qtype : ℤ) (req : DnsResponseData)
      → calculate_hash name ≢ 0
      → Step s (add_queue_for_record s name qtype req)
  queue_entry :
      (s : Server) (group_id : CassUuid) (country_code : List ℕ) (req : EntryResponse)
      → Step s (add_queue_for_entry s group_id country_code req)
  sync_request :
      (s : Server) (uuid_of : List ℕ → CassUuid) (query_buf : List ℕ) (response : SyncResponse)
      (m : Mmap) (g : GroupMmap)
      → IsNamedRequest query_buf
      → handle_sync uuid_of query_buf s.records s.groups ≡ some (response, m, g)
      → Step s (record s { records = m; groups = g })
  work : (s t : Server) → worker_round s ≡ some t → Step s t

pub data Steps : Server → Server → Type 0 where
  stop : (s : Server) → Steps s s
  step : (s t u : Server) → Step s t → Steps t u → Steps s u
