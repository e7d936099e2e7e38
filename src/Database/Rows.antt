-- ===== src/Database/Rows.antt =====
-- `DB::Record` of src/Cassandra/Record.cpp. What the driver answers is an argument: the rows of a
-- result in order, or `none` where the query has failed. The answer `none` is an exception.
use edge_dns.Prelude.{
  ℕ, ◌%◌, ◌^◌, Bool, false, ℤ, pos, negsuc, List, [], ◌∷◌, Option, none, some, ◌>>=◌, ltb,
  if◌then◌else◌,
}
use edge_dns.Records.State.{CassUuid, DnsResponseData}
use edge_dns.Groups.State.{EntryResponse}
use edge_dns.Wire.RData.{generate_rdata}
use edge_dns.Sync.Numbers.{to_unsigned}
use edge_dns.Queue.State.{to_int}

-- A row of `records`. `value` is what is read at the pointer that the driver gives, up to a zero.
pub record RecordRow : Type 0 where
  pub ttl : ℤ
  pub prio : ℕ
  pub value : List ℕ
  pub ip_group : CassUuid
  pub id : CassUuid
  pub is_geo : Bool
  pub is_proxy : Bool

-- A row of `ip_group_entries`.
pub record IpRow : Type 0 where
  pub id : CassUuid
  pub ip : List ℕ
  pub priority : ℕ

-- `unset` is what the fields hold that are not written.
unfoldable pub with_data : DnsResponseData → RecordRow → List ℕ → CassUuid → DnsResponseData
with_data unset row rdata group_id = record {
  ttl = to_unsigned 32 row.ttl;
  priority = row.prio % 2 ^ 16;
  rdata = rdata;
  group_id = group_id;
  id = row.id;
  bucket_idx = unset.bucket_idx;
  is_geo = row.is_geo;
  is_proxy = row.is_proxy;
}

unfoldable pub read_row : DnsResponseData → ℤ → RecordRow → Option DnsResponseData
unfolding with_data
read_row unset type row =
    if row.is_geo
    then some (with_data unset row [] row.ip_group)
    else (do rdata ← generate_rdata row.value type; some (with_data unset row rdata unset.group_id))

unfoldable pub read_rows : DnsResponseData → ℤ → List RecordRow → Option (List DnsResponseData)
unfolding read_row
read_rows unset type [] = some []
read_rows unset type (row ∷ rows) = do
  r ← read_row unset type row
  rs ← read_rows unset type rows
  some (r ∷ rs)

unfoldable pub db_get_record :
    DnsResponseData → ℤ → Option (List RecordRow) → Option (List DnsResponseData)
unfolding read_rows
db_get_record unset type none = some []
db_get_record unset type (some rows) = read_rows unset type rows

unfoldable pub read_ip_rows : List IpRow → Option (List EntryResponse)
read_ip_rows [] = some []
read_ip_rows (row ∷ rows) = do
  ip ← generate_rdata row.ip (pos 1)
  rs ← read_ip_rows rows
  some (record { ip = ip; priority = to_int row.priority; id = row.id } ∷ rs)

-- `count` is `none` where the query has failed, or has no row or no count.
unfoldable pub is_country_based_record_exist : Option ℤ → Bool
is_country_based_record_exist none = false
is_country_based_record_exist (some (pos n)) = ltb 0 n
is_country_based_record_exist (some (negsuc n)) = false

unfoldable pub ip_entries_of : Option (List IpRow) → Option (List EntryResponse)
unfolding read_ip_rows
ip_entries_of none = some []
ip_entries_of (some rows) = read_ip_rows rows

unfoldable pub get_ip_group_entries_country_based :
    Option ℤ → Option (List IpRow) → Option (List EntryResponse)
unfolding is_country_based_record_exist ip_entries_of
get_ip_group_entries_country_based count rows =
    if is_country_based_record_exist count then ip_entries_of rows else some []
