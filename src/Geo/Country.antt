-- ===== src/Geo/Country.antt =====
-- `GeoDNS::getCountry` of src/DNS/Geo/GeoDNS.cpp. What the country library answers is an argument.
use edge_dns.Prelude.{ℕ, not, Bool, List, [], Option, none, some, ◌==◌, if◌then◌else◌}

-- The answer of `MMDB_get_value`: its status, and the data with its size.
pub record EntryData : Type 0 where
  pub status : ℕ
  pub has_data : Bool
  pub utf8_string : List ℕ

-- The answer of `MMDB_lookup_string`, whose errors are 0 where there is none; `entry` is there where
-- `found_entry` is set.
pub record LookupResult : Type 0 where
  pub gai_error : ℕ
  pub mmdb_error : ℕ
  pub entry : Option EntryData

unfoldable pub iso_code : Option EntryData → List ℕ
iso_code none = []
iso_code (some d) = if d.status == 0 then (if d.has_data then d.utf8_string else []) else []

unfoldable pub get_country : LookupResult → List ℕ
unfolding iso_code
get_country l =
    if not (l.gai_error == 0)
    then []
    else (if not (l.mmdb_error == 0) then [] else iso_code l.entry)
