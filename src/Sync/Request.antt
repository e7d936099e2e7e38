-- ===== src/Sync/Request.antt =====
-- The parameters of a request. Each key is a string, each value a C string in an array of its own.
use edge_dns.Prelude.{ℕ, List, Option, some, ◌>>=◌}
use edge_dns.Sync.Key
use edge_dns.Sync.Params.{get_param}

pub record RecordParams : Type 0 where
  pub zone : List ℕ
  pub rec_type : List ℕ
  pub ttl : List ℕ
  pub priority : List ℕ
  pub name : List ℕ
  pub db_id : List ℕ
  pub group_id : List ℕ
  pub is_geo : List ℕ
  pub is_proxy : List ℕ

pub record EntryParams : Type 0 where
  pub group_id : List ℕ
  pub db_id : List ℕ
  pub location_code : List ℕ
  pub ip_address : List ℕ
  pub priority : List ℕ

unfoldable pub read_record_params : List ℕ → Option RecordParams
read_record_params text = do
  zone ← get_param text Key.zone 32
  rec_type ← get_param text Key.rec_type 32
  ttl ← get_param text Key.ttl 32
  priority ← get_param text Key.priority 32
  name ← get_param text Key.name 32
  db_id ← get_param text Key.db_id 40
  group_id ← get_param text Key.group_id 40
  is_geo ← get_param text Key.is_geo 2
  is_proxy ← get_param text Key.is_proxy 2
  some (record {
    zone = zone;
    rec_type = rec_type;
    ttl = ttl;
    priority = priority;
    name = name;
    db_id = db_id;
    group_id = group_id;
    is_geo = is_geo;
    is_proxy = is_proxy;
  })

unfoldable pub read_entry_params : List ℕ → Option EntryParams
read_entry_params text = do
  group_id ← get_param text Key.group_id 40
  db_id ← get_param text Key.db_id 40
  location_code ← get_param text Key.location_code 32
  ip_address ← get_param text Key.ip_address 16
  priority ← get_param text Key.priority 32
  some (record {
    group_id = group_id;
    db_id = db_id;
    location_code = location_code;
    ip_address = ip_address;
    priority = priority;
  })
