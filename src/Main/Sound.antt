-- ===== src/Main/Sound.antt =====
-- The record cache is well formed as long as the server runs.
use edge_dns.Prelude.{◌≡◌, refl, true, [], some}
use edge_dns.Records.State.{Mmap}
use edge_dns.Records.Init.{init}
use edge_dns.Records.Fresh.{init_new-IsValid}
use edge_dns.Groups.State.{GroupMmap}
use edge_dns.Groups.Init.{init_groups}
use edge_dns.Sync.Whole.{handle_sync-IsValid}
use edge_dns.Queue.State.{Server, add_queue_for_record, add_queue_for_entry, queued_record}
use edge_dns.Queue.Worker.{record_part}
use edge_dns.Queue.Safe.{IsSound, IsNamed-append, record_part-IsSound, worker_round-IsSound}
use edge_dns.Main.Start.{
  start, Step, queue_record, queue_entry, sync_request, work, Steps, stop, step,
}

Step-IsSound : (s t : Server) → IsSound s → Step s t → IsSound t
unfolding add_queue_for_record add_queue_for_entry queued_record
Step-IsSound _ _ sound (queue_record s name qtype req named) = record {
  valid = sound.valid;
  named = IsNamed-append s.record_queue (queued_record name qtype req) sound.named named;
}
Step-IsSound _ _ sound (queue_entry s group_id country_code req) = record {
  valid = sound.valid;
  named = sound.named;
}
Step-IsSound _ _ sound (sync_request s uuid_of query_buf response m g named run) = record {
  valid =
      handle_sync-IsValid uuid_of query_buf s.records s.groups response m g sound.valid named run;
  named = sound.named;
}
Step-IsSound _ _ sound (work s t run) = worker_round-IsSound s t sound run

Steps-IsSound :
    (s t : Server)
    → IsSound s
    → Steps s t
    → IsSound t × ((u : Server) × (record_part t t.record_queue ≡ some u) × IsSound u)
Steps-IsSound _ _ sound (stop s) =
    (sound, record_part-IsSound s s.record_queue sound.valid sound.named refl)
Steps-IsSound _ _ sound (step s t u first rest) =
    Steps-IsSound t u (Step-IsSound s t sound first) rest

begins :
    (m : Mmap) (g : GroupMmap)
    → start true true true m g
      ≡ some (record {
        records = (init true true m).1;
        groups = (init_groups true true g).1;
        record_queue = [];
        entry_queue = [];
      })
unfolding start init init_groups
begins m g = refl

-- Where the old files are removed and both caches mapped, the server starts, whatever the memory
-- holds. From then on, however its threads queue writes, serve sync requests and carry the writes
-- out, as long as the names have a hash that is not 0, the record cache is well formed, and the
-- worker can carry out the next write of a record without a fault.
pub start-IsSound :
    (m : Mmap) (g : GroupMmap)
    → (s : Server) × (start true true true m g ≡ some s)
      × ((t : Server)
          → Steps s t
          → IsSound t × ((u : Server) × (record_part t t.record_queue ≡ some u) × IsSound u))
start-IsSound m g = (
  record {
    records = (init true true m).1;
    groups = (init_groups true true g).1;
    record_queue = [];
    entry_queue = [];
  },
  begins m g,
  λ t steps. Steps-IsSound _ t (record { valid = (init_new-IsValid m).0; named = tt }) steps,
)
