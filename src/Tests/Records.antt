-- ===== src/Tests/Records.antt =====
-- Runs of the record cache: a cache with two free records, then an A and a TXT record of the name
-- `a` in it.
use edge_dns.Prelude.{
  ℕ, zero, suc, ◌<◌, ◌≤◌, ◌≡◌, ◌≢◌, refl, ap, ◌∙◌, Bool, true, false, inl, ◌⊎◌, pos, minus_one,
  ◌==◌, some, if◌then◌else◌, List, [], ◌∷◌, arith, ◌↔◌, take,
}
use edge_dns.Records.State.{
  CassUuid, DnsRecord, RecordData, DnsResponseData, Mmap, max_data_records, zero_uuid,
}
use edge_dns.Records.Hash.{
  calculate_hash, id_slot, mask, calculate_id_hash, fnv_loop, fnv_step, fold_case, bytes_le,
}
use edge_dns.Records.Cells.{stops_at, find_bucket}
use edge_dns.Records.Ops.{
  get_record, append_record, update_record, delete_record_from_uuid, is_nonempty, filled,
  with_rdata, response_of,
}
use edge_dns.Records.Init.{init}
use edge_dns.Records.Probe.{find_bucket-Finds, Finds, Stops, window}
use edge_dns.Records.Unique.{Finds-unique}
use edge_dns.Records.Valid.{IsUsed, FreeValid, IsValid}
use edge_dns.Records.Push.{pushed, pushed-IsValid}
use edge_dns.Records.Link.{append_record-pushed}
use edge_dns.Records.Append.{append_record-IsValid, Appends, Refuses}
use edge_dns.Records.Fresh.{blank-IsValid, init-FreeValid}
use edge_dns.Records.Get.{get_record-append_record}
use edge_dns.Records.Walk.{answer_of}
use edge_dns.Records.Update.{update_record-IsValid, IsSmall, Stores}
use edge_dns.Records.Capacity.{Used-le_1024}
use edge_dns.Records.ById.{Absent, Holds, delete_record_from_uuid-IsValid}
use edge_dns.Records.Lost.{IsBehind, get_record-delete_record_from_uuid}

abbrev pub blank : DnsRecord
blank = record {
  is_used = false;
  next_index = minus_one;
  prev_index = minus_one;
  ttl = 0;
  priority = 0;
  is_geo = false;
  is_proxy = false;
  rdata_len = 0;
  group_id = zero_uuid;
  id = zero_uuid;
  bucket_idx = 0;
  payload = [];
}

-- Nothing is used, and the free list is the records 0 and 1.
abbrev pub empty_cache : Mmap
empty_cache = record {
  hash_table = λ b. record { name_hash = 0; qtype = pos 0; head_slot_idx = pos 0 };
  id_hash_table = λ i. minus_one;
  data_records = λ i. if i == 0 then record blank { next_index = pos 1 } else blank;
  free_list_head_idx = pos 0;
}

pub empty_cache-IsValid : IsValid empty_cache
empty_cache-IsValid =
    blank-IsValid empty_cache (λ i h. ground arith) (λ b h. refl) (λ i h. refl)
      (record {
        free_pos = λ f e. ground arith;
        free_neg = λ k e. ground arith;
        link_pos = λ s n h u e. ground arith;
        link_neg = λ s k h u e. ground arith;
        link_injective = λ s t n hs ht us ut es et. ground arith;
      })

abbrev pub name_a : List ℕ
name_a = 1 ∷ b'a' ∷ 0 ∷ []

abbrev pub hash_a : ℕ
hash_a = 15065593090998171989

calculate_hash_a : calculate_hash name_a ≡ hash_a
unfolding calculate_hash fnv_loop fnv_step fold_case
calculate_hash_a = refl

pub named_a : calculate_hash name_a ≢ 0
named_a e = ground (arith, calculate_hash_a)

abbrev pub uuid : ℕ → CassUuid
uuid n = record { time_and_version = n; clock_seq_and_node = 0 }

abbrev pub address : RecordData
address = record {
  ttl = 300;
  priority = 0;
  group_id = zero_uuid;
  id = uuid 1;
  is_geo = false;
  is_proxy = false;
  binary_rdata = 10 ∷ 0 ∷ 0 ∷ 1 ∷ [];
}

abbrev pub text : RecordData
text = record address { id = uuid 2; binary_rdata = 1 ∷ b'x' ∷ [] }

id_slot_1 : id_slot (uuid 1) ≡ 1028
unfolding id_slot calculate_id_hash fnv_loop fnv_step fold_case bytes_le
id_slot_1 = refl

id_slot_2 : id_slot (uuid 2) ≡ 99463
unfolding id_slot calculate_id_hash fnv_loop fnv_step fold_case bytes_le
id_slot_2 = refl

mask_a : mask (calculate_hash name_a) ≡ 21
unfolding mask
mask_a = rw calculate_hash_a refl

-- With the A record in bucket 21, then with the TXT record in bucket 22.
abbrev pub one_record : Mmap
one_record = pushed empty_cache 21 (calculate_hash name_a) (pos 1) 0 address

abbrev pub two_records : Mmap
two_records = pushed one_record 22 (calculate_hash name_a) (pos 16) 1 text

pub one_record-IsValid : IsValid one_record
one_record-IsValid =
    pushed-IsValid empty_cache 21 (calculate_hash name_a) (pos 1) 0 address empty_cache-IsValid refl
      (omega arith) named_a refl

pub two_records-IsValid : IsValid two_records
unfolding pushed id_slot calculate_id_hash fnv_loop fnv_step fold_case bytes_le
two_records-IsValid =
    pushed-IsValid one_record 22 (calculate_hash name_a) (pos 16) 1 text one_record-IsValid refl
      (omega arith) named_a refl

append_record-IsValid_example :
    (done : Bool) × (r : Mmap) × (append_record one_record name_a (pos 16) text ≡ some (done, r))
    × IsValid r
    × (done ≡ false → (r ≡ one_record) × Refuses one_record name_a (pos 16) text one_record-IsValid)
    × (done ≡ true → Appends one_record name_a (pos 16) text r)
append_record-IsValid_example =
    append_record-IsValid one_record name_a (pos 16) text one_record-IsValid named_a

find_bucket-Finds_example :
    (r : ℕ) × (find_bucket one_record (calculate_hash name_a) (pos 16) ≡ some r)
    × Finds one_record (calculate_hash name_a) (pos 16) r
find_bucket-Finds_example = find_bucket-Finds one_record (calculate_hash name_a) (pos 16)

passes_21 :
    (m : Mmap)
    → m.hash_table 21 ≡ one_record.hash_table 21
    → (l : ℕ) → l < 1
    → Stops m (calculate_hash name_a) (pos 16) l false
unfolding stops_at pushed mask calculate_hash fnv_loop fnv_step fold_case
passes_21 m e zero h = rw e refl
passes_21 m e (suc l) h = absurd (omega arith)

-- The TXT record goes to bucket 22, since bucket 21 holds the A record.
Finds-22 : Finds one_record (calculate_hash name_a) (pos 16) 22
unfolding stops_at pushed mask calculate_hash fnv_loop fnv_step fold_case
Finds-22 = inl (1, omega arith, refl, refl, passes_21 one_record refl)

pub find_bucket-one_record : find_bucket one_record (calculate_hash name_a) (pos 16) ≡ some 22
find_bucket-one_record =
    let (b, run, found) = find_bucket-Finds one_record (calculate_hash name_a) (pos 16) in
    run ∙ ap some (Finds-unique one_record (calculate_hash name_a) (pos 16) b 22 found Finds-22)

pub append_record-one_record :
    append_record one_record name_a (pos 16) text ≡ some (true, two_records)
unfolding pushed id_slot calculate_id_hash fnv_loop fnv_step fold_case bytes_le
append_record-one_record =
    append_record-pushed one_record name_a (pos 16) text one_record-IsValid 22 1 refl
      find_bucket-one_record (omega arith) (inl refl) refl refl

get_record-append_record_example :
    (b : ℕ) × (before : List DnsResponseData) × (get_record one_record name_a (pos 16)
      ≡ some (is_nonempty before, before))
    × (get_record two_records name_a (pos 16)
        ≡ some (true, take max_data_records (answer_of text b ∷ before)))
get_record-append_record_example =
    get_record-append_record one_record name_a (pos 16) text two_records one_record-IsValid named_a
      append_record-one_record

delete_record_from_uuid-IsValid_example :
    (done : Bool) × (r : Mmap) × (delete_record_from_uuid two_records (uuid 1) ≡ some (done, r))
    × IsValid r
    × Absent r (uuid 1)
    × ((done ≡ false) ↔ Absent two_records (uuid 1))
    × ((s : ℕ)
        → s < max_data_records
        → IsUsed two_records s true
        → (two_records.data_records s).id ≢ uuid 1
        → IsUsed r s true
          × (response_of (r.data_records s) ≡ response_of (two_records.data_records s)))
delete_record_from_uuid-IsValid_example =
    delete_record_from_uuid-IsValid two_records two_records-IsValid (uuid 1)

behind : IsBehind two_records (calculate_hash name_a) (pos 16) 0 0 1
unfolding stops_at pushed filled with_rdata mask calculate_hash fnv_loop fnv_step fold_case
behind = record {
  before = omega arith;
  within = omega arith;
  stops = refl;
  passes = passes_21 two_records refl;
  in_bucket = refl;
  is_head = refl;
  is_last = refl;
}

get_record-delete_record_from_uuid_example :
    (r : Mmap) × (delete_record_from_uuid two_records (uuid 1) ≡ some (true, r))
    × (find_bucket two_records (calculate_hash name_a) (pos 16)
        ≡ some (window (mask (calculate_hash name_a)) 1))
    × (get_record r name_a (pos 16) ≡ some (false, []))
unfolding pushed filled
get_record-delete_record_from_uuid_example =
    get_record-delete_record_from_uuid two_records name_a (pos 16) 0 0 1 (uuid 1)
      two_records-IsValid (omega arith, refl, refl) behind

init-FreeValid_example : FreeValid (init false true two_records).1
init-FreeValid_example = init-FreeValid false two_records

update_record-IsValid_example :
    ((update_record two_records (record text { id = uuid 1 }) ≡ some (false, two_records))
      × (Absent two_records (uuid 1) ⊎ ¬ IsSmall (record text { id = uuid 1 })))
    ⊎ ((i : ℕ) × (r : Mmap) × (update_record two_records (record text { id = uuid 1 })
          ≡ some (true, r))
        × Holds two_records (uuid 1) i
        × IsSmall (record text { id = uuid 1 })
        × IsValid r
        × Stores two_records (record text { id = uuid 1 }) i r)
update_record-IsValid_example =
    update_record-IsValid two_records (record text { id = uuid 1 }) two_records-IsValid

Used-le_1024_example : 2 ≤ 1024
unfolding pushed filled
Used-le_1024_example =
    Used-le_1024 two_records (0 ∷ 1 ∷ []) two_records-IsValid
      ((omega arith, refl), ((omega arith, refl), tt)) ((omega arith, tt), (tt, tt))

-- The TXT record is found.
pub cached_text :
    (rs : List DnsResponseData) × (get_record two_records name_a (pos 16) ≡ some (true, rs))
cached_text =
    let (b, before, was, is_now) =
      get_record-append_record one_record name_a (pos 16) text two_records one_record-IsValid
        named_a append_record-one_record in
    (take max_data_records (answer_of text b ∷ before), is_now)
