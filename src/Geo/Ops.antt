-- ===== src/Geo/Ops.antt =====
-- The loading of groups and entries, src/DNS/Geo/Group.cpp. What the database answers is an
-- argument: the rows of a result in order, or `none` where the query has failed.
use edge_dns.Prelude.{
  ℕ, ◌-◌, ◌&&◌, ◌||◌, Bool, ℤ, pos, ◌==ℤ◌, List, [], ◌∷◌, ◌++◌, Option, none, some, ltb, ◌==◌,
  if◌then◌else◌, length, set,
}
use mathlib.Core.Logic.{ite}
use edge_dns.Records.State.{CassUuid, zero_uuid}
use edge_dns.Wire.Ipv4.{ipv4_to_wire}
use edge_dns.Geo.State.{IpEntry, Maps, uuid_dec, set_version, put_entry, put_vec}

-- A row of `ip_group_entries`.
pub record EntryRow : Type 0 where
  pub id : CassUuid
  pub group_id : CassUuid
  pub version : CassUuid
  pub location_code : List ℕ
  pub ip : List ℕ
  pub priority : ℤ

-- A row of `ip_group_versions`.
pub record VersionRow : Type 0 where
  pub group_id : CassUuid
  pub version : CassUuid
  pub entry_id : CassUuid
  pub action : ℤ

-- How `initIpEntries` and `fullReload` compare versions, and how `incrementalReload` does.
unfoldable pub older_time : CassUuid → CassUuid → Bool
older_time a b = ltb a.time_and_version b.time_and_version

unfoldable pub older_version : CassUuid → CassUuid → Bool
older_version a b =
    ltb a.time_and_version b.time_and_version
    || ((a.time_and_version == b.time_and_version) && ltb a.clock_seq_and_node b.clock_seq_and_node)

unfoldable pub raise_version : (CassUuid → CassUuid → Bool) → Maps → CassUuid → CassUuid → Maps
raise_version older s g v = set_version s g (if older (s.groups g) v then v else s.groups g)

-- One round of the loops over entries.
unfoldable pub add_entry : (CassUuid → CassUuid → Bool) → Maps → EntryRow → Maps
unfolding raise_version
add_entry older s r =
    let vec = s.group_entries r.group_id r.location_code in
    let s₁ = put_vec s r.group_id r.location_code (vec ++ r.id ∷ []) in
    put_entry (raise_version older s₁ r.group_id r.version) r.group_id r.id (
      some (record {
        country_code = r.location_code;
        ip = ipv4_to_wire r.ip;
        priority = r.priority;
        index_in_vector = length (vec ++ r.id ∷ []) - 1;
      }))

unfoldable pub add_entries : (CassUuid → CassUuid → Bool) → Maps → List EntryRow → Maps
add_entries older s [] = s
add_entries older s (r ∷ rs) = add_entries older (add_entry older s r) rs

-- `initial` is the version that a group begins with.
unfoldable pub add_groups : CassUuid → Maps → List CassUuid → Maps
add_groups initial s [] = s
add_groups initial s (g ∷ gs) = add_groups initial (set_version s g initial) gs

unfoldable pub init_ip_groups : CassUuid → Maps → Option (List CassUuid) → Maps
init_ip_groups initial s none = s
init_ip_groups initial s (some gs) = add_groups initial s gs

unfoldable pub init_ip_entries : Maps → Option (List EntryRow) → Maps
init_ip_entries s none = s
init_ip_entries s (some rows) = add_entries older_time s rows

-- `group_entries[g].clear()` and `entries[g].clear()`
unfoldable pub clear_maps : Maps → CassUuid → Maps
clear_maps s g = record s {
  entries = λ h j. ite (uuid_dec h g) none (s.entries h j);
  group_entries = λ h c. ite (uuid_dec h g) [] (s.group_entries h c);
}

unfoldable pub full_reload : Maps → CassUuid → Option (List EntryRow) → Maps
unfolding clear_maps
full_reload s g none = s
full_reload s g (some rows) = add_entries older_time (clear_maps s g) rows

-- `back()` and `pop_back()`
unfoldable pub back_or : CassUuid → List CassUuid → CassUuid
back_or d [] = d
back_or d (x ∷ xs) = back_or x xs

unfoldable pub pop_back : List CassUuid → List CassUuid
pop_back [] = []
pop_back (x ∷ []) = []
pop_back (x ∷ y ∷ xs) = x ∷ pop_back (y ∷ xs)

-- `entries[g][id].indexInVector = i`, which creates an entry that is missing.
unfoldable pub with_index : Option IpEntry → ℕ → IpEntry
with_index none i = record { country_code = []; ip = []; priority = pos 0; index_in_vector = i }
with_index (some e) i = record e { index_in_vector = i }

unfoldable pub set_index : Maps → CassUuid → CassUuid → ℕ → Maps
unfolding with_index
set_index s g id i = put_entry s g id (some (with_index (s.entries g id) i))

-- The last of the vector takes the place of the removed one.
unfoldable pub fill_gap : Maps → CassUuid → IpEntry → Maps
unfolding set_index
fill_gap s g e =
    let vec = s.group_entries g e.country_code in
    let i = e.index_in_vector in
    let last = back_or zero_uuid vec in
    if ltb i (length vec)
    then (if i == length vec - 1
        then put_vec s g e.country_code (pop_back vec)
        else set_index (put_vec s g e.country_code (pop_back (set vec i last))) g last i)
    else s

-- With the result of `find(entry_id)`.
unfoldable pub remove_found : Maps → CassUuid → CassUuid → Option IpEntry → Maps
unfolding fill_gap
remove_found s g id none = s
remove_found s g id (some e) = put_entry (fill_gap s g e) g id none

unfoldable pub incremental_removed : Maps → CassUuid → CassUuid → Maps
unfolding remove_found
incremental_removed s g id = remove_found s g id (s.entries g id)

-- The loop of `incrementalReload`.
unfoldable pub apply_versions : Maps → CassUuid → List VersionRow → Maps
unfolding incremental_removed raise_version
apply_versions s g [] = s
apply_versions s g (r ∷ rs) =
    let s₁ = if r.action ==ℤ pos 1 then incremental_removed s r.group_id r.entry_id else s in
    apply_versions (raise_version older_version s₁ g r.version) g rs

unfoldable pub incremental_added : Maps → Option (List EntryRow) → Maps
incremental_added s none = s
incremental_added s (some rows) = add_entries older_version s rows

-- `versions` and `rows` are asked for the version `groups[g].version` before the reload.
unfoldable pub incremental_reload :
    (versions : CassUuid → Option (List VersionRow))
    → (rows : CassUuid → Option (List EntryRow)) → Maps
    → CassUuid
    → Maps
unfolding apply_versions incremental_added
incremental_reload versions rows s g =
    let v = s.groups g in
    incremental_added (elim (versions v) [ none ↦ s | some vs ↦ apply_versions s g vs ]) (rows v)
