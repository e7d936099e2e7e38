-- ===== src/Database/Settings.antt =====
-- `Proxy::reloadProxyGroup` of src/DNS/Proxy/Proxy.cpp and `Domain::zoneIsExist` of
-- src/Zone/Zone.cpp. What the driver answers is an argument: the rows, or `none` where the query has
-- failed.
use edge_dns.Prelude.{ℕ, Bool, true, false, List, [], ◌∷◌, Option, none, some}
use edge_dns.Records.State.{CassUuid}

-- A row of `settings`; `value` is what is read at the driver's pointer, up to a zero.
pub record SettingsRow : Type 0 where
  pub type : List ℕ
  pub value : List ℕ

-- `uuid_of` stands for `cass_uuid_from_string`: `none` is an error, and the variable is not written.
unfoldable pub store_uuid : Option CassUuid → CassUuid → CassUuid
store_uuid none group_id = group_id
store_uuid (some id) group_id = id

unfoldable pub read_settings :
    (uuid_of : List ℕ → Option CassUuid) → List SettingsRow → CassUuid → CassUuid
unfolding store_uuid
read_settings uuid_of [] group_id = group_id
read_settings uuid_of (row ∷ rows) group_id =
    read_settings uuid_of rows (store_uuid (uuid_of row.value) group_id)

unfoldable pub reload_proxy_group :
    (uuid_of : List ℕ → Option CassUuid) → Option (List SettingsRow) → CassUuid → CassUuid
unfolding read_settings
reload_proxy_group uuid_of none group_id = group_id
reload_proxy_group uuid_of (some rows) group_id = read_settings uuid_of rows group_id

-- The rows themselves are not read.
unfoldable pub zone_is_exist : {A : Type 0} → Option (List A) → Bool
zone_is_exist none = false
zone_is_exist (some []) = false
zone_is_exist (some (row ∷ rows)) = true
