-- ===== src/Tests/Queue.antt =====
-- Runs of the queues: the TXT record of the record cache's runs, queued where the A record is in the
-- cache.
use edge_dns.Prelude.{◌≡◌, refl, true, false, [], ◌∷◌, some, pos, length, arith}
use edge_dns.Records.State.{DnsResponseData, Mmap, zero_uuid}
use edge_dns.Records.Valid.{IsValid}
use edge_dns.Records.Ops.{append_record}
use edge_dns.Sync.Numbers.{to_unsigned}
use edge_dns.Queue.State.{Server, to_int, queued_record, add_queue_for_record}
use edge_dns.Queue.Worker.{data_in}
use edge_dns.Queue.Safe.{IsSound, rounds, store_all, rounds-store_all}
use edge_dns.Queue.Stored.{IsAnswer}
use edge_dns.Tests.Records.{
  uuid, name_a, named_a, one_record, two_records, one_record-IsValid, append_record-one_record,
}
use edge_dns.Tests.Groups.{one_entry}

abbrev pub idle : Server
idle = record { records = one_record; groups = one_entry; record_queue = []; entry_queue = [] }

abbrev pub answer : DnsResponseData
answer = record {
  ttl = 300;
  priority = 0;
  rdata = 1 ∷ b'x' ∷ [];
  group_id = zero_uuid;
  id = uuid 2;
  bucket_idx = 0;
  is_geo = false;
  is_proxy = false;
}

abbrev pub waiting : Server
waiting = add_queue_for_record idle name_a (pos 16) answer

pub waiting-IsSound : IsSound waiting
unfolding add_queue_for_record queued_record
waiting-IsSound = record { valid = one_record-IsValid; named = (named_a, tt) }

no_entries : waiting.entry_queue ≡ []
unfolding add_queue_for_record
no_entries = refl

rounds-store_all_example :
    (r : Mmap) × (store_all waiting.record_queue one_record ≡ some r)
    × IsValid r
    × (rounds (length waiting.record_queue) waiting
        ≡ some (record waiting { records = r; record_queue = []; entry_queue = [] }))
unfolding add_queue_for_record
rounds-store_all_example = rounds-store_all waiting waiting-IsSound no_entries

pub answer-IsAnswer : IsAnswer answer
answer-IsAnswer = record {
  ttl_width = omega arith;
  priority_width = omega arith;
  geo_empty = λ e. absurd (cc e);
}

pub stored_text :
    append_record one_record name_a (pos 16) (data_in (queued_record name_a (pos 16) answer))
    ≡ some (true, two_records)
unfolding data_in queued_record to_int to_unsigned
stored_text = append_record-one_record
