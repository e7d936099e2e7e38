-- ===== src/Tests/Sync.antt =====
-- Runs of the sync handler: a request that adds a geo record of the name `a`, one that deletes, and
-- one that has no type.
use edge_dns.Prelude.{
  ℕ, ◌≡◌, ◌≢◌, refl, subst, ◌⊎◌, true, false, List, [], ◌∷◌, ◌++◌, none, some, length, take, ◌-◌,
  arith,
}
use edge_dns.Records.State.{CassUuid, Mmap}
use edge_dns.Records.Hash.{calculate_hash}
use edge_dns.Records.Valid.{IsValid}
use edge_dns.Records.ById.{Absent}
use edge_dns.Wire.Codec.{string_to_wire, label_loop, to_lower, drop_last_dot, before_dot, after_dot}
use edge_dns.Sync.Key
use edge_dns.Sync.Params.{get_param, strstr, starts, value_at, value_of, copy_value, c_string}
use edge_dns.Sync.Request.{RecordParams, read_record_params}
use edge_dns.Sync.Handler.{
  SyncResponse, bad_request, body_0, handle_records, handle_sync, sync_with,
}
use edge_dns.Sync.Found.{get_param-take}
use edge_dns.Sync.Safe.{IsBad, handle_records-IsValid}
use edge_dns.Sync.Refusals.{handle_sync-bad_request, handle_records_delete}
use edge_dns.Tests.Records.{empty_cache, empty_cache-IsValid, named_a}
use edge_dns.Tests.Groups.{one_entry}

abbrev sixty : List ℕ
sixty = b'6' ∷ b'0' ∷ []

-- `a&ttl=60`
abbrev ttl_text : List ℕ
ttl_text = (b'a' ∷ b'&' ∷ []) ++ (Key.ttl ++ b'=' ∷ (sixty ++ []))

apart_first : starts Key.ttl ttl_text ≡ false
unfolding starts
apart_first = refl

apart_second : starts Key.ttl (b'&' ∷ (Key.ttl ++ b'=' ∷ sixty)) ≡ false
unfolding starts
apart_second = refl

ttl_read : get_param ttl_text Key.ttl 32 ≡ some sixty
unfolding get_param strstr starts value_at value_of copy_value
ttl_read = refl

get_param-take_example : get_param ttl_text Key.ttl 32 ≡ some (take (32 - 1) sixty)
get_param-take_example =
    get_param-take (b'a' ∷ b'&' ∷ []) Key.ttl sixty [] 32 (apart_first, (apart_second, tt))
      ((λ e. omega (arith, e)), ((λ e. omega (arith, e)), tt)) tt

abbrev uuid_of : List ℕ → CassUuid
uuid_of s = record { time_and_version = length s; clock_seq_and_node = 0 }

abbrev param : List ℕ → ℕ → List ℕ → List ℕ
param key c rest = key ++ b'=' ∷ c ∷ b'&' ∷ rest

-- A geo record of type 1 and name `a`, whose other parameters have one digit each.
abbrev add_text : List ℕ
add_text = param Key.zone b'z' (
    param Key.rec_type b'1' (
      param Key.ttl b'9' (
        param Key.priority b'1' (
          param Key.name b'a' (
            param Key.db_id b'5'
              (param Key.group_id b'7' (param Key.is_geo b'1' (param Key.is_proxy b'0' []))))))))

abbrev add_params : RecordParams
add_params = record {
  zone = b'z' ∷ [];
  rec_type = b'1' ∷ [];
  ttl = b'9' ∷ [];
  priority = b'1' ∷ [];
  name = b'a' ∷ [];
  db_id = b'5' ∷ [];
  group_id = b'7' ∷ [];
  is_geo = b'1' ∷ [];
  is_proxy = b'0' ∷ [];
}

add_read : read_record_params add_text ≡ some add_params
unfolding read_record_params get_param strstr starts value_at value_of copy_value
add_read = refl

add_named :
    (p : RecordParams)
    → read_record_params add_text ≡ some p
    → calculate_hash (string_to_wire p.name true) ≢ 0
unfolding string_to_wire label_loop to_lower drop_last_dot before_dot after_dot
add_named p read =
    let same : add_params ≡ p = cc (add_read, read) in
    subst (λ (q : RecordParams). calculate_hash (string_to_wire q.name true) ≢ 0) same named_a

handle_records-IsValid_example :
    ((p : RecordParams) × (read_record_params add_text ≡ some p)
      × (handle_records uuid_of add_text b'1' empty_cache ≡ none)
      × IsBad add_text p)
    ⊎ ((response : SyncResponse) × (r : Mmap) × (handle_records uuid_of add_text b'1' empty_cache
          ≡ some (response, r))
        × IsValid r)
handle_records-IsValid_example =
    handle_records-IsValid uuid_of add_text b'1' empty_cache empty_cache-IsValid add_named

abbrev delete_text : List ℕ
delete_text = param Key.db_id b'5' []

handle_records_delete_example :
    ((p : RecordParams)
      → read_record_params delete_text ≡ some p
      → handle_records uuid_of delete_text b'3' empty_cache ≡ some (bad_request, empty_cache))
    × ((db_id : List ℕ)
        → read_record_params delete_text ≡ none
        → get_param delete_text Key.db_id 40 ≡ some db_id
        → (r : Mmap) × (handle_records uuid_of delete_text b'3' empty_cache ≡ some (body_0, r))
          × IsValid r
          × Absent r (uuid_of db_id))
handle_records_delete_example =
    handle_records_delete uuid_of delete_text empty_cache empty_cache-IsValid

no_type_run :
    handle_sync uuid_of (b'x' ∷ 0 ∷ []) empty_cache one_entry
    ≡ some (bad_request, empty_cache, one_entry)
unfolding handle_sync c_string sync_with get_param strstr starts value_at
no_type_run = refl

handle_sync-bad_request_example : (empty_cache ≡ empty_cache) × (one_entry ≡ one_entry)
handle_sync-bad_request_example =
    handle_sync-bad_request uuid_of (b'x' ∷ 0 ∷ []) empty_cache empty_cache one_entry one_entry
      no_type_run
