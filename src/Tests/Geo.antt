-- ===== src/Tests/Geo.antt =====
-- Runs of the IP groups in memory: a full reload with two entries, then an incremental one that
-- takes the first of them out and adds a third.
use edge_dns.Prelude.{
  ℕ, ◌≡◌, ◌≢◌, refl, ap, inl, inr, List, [], ◌∷◌, none, some, Option, pos, arith,
}
use edge_dns.Records.State.{CassUuid, zero_uuid}
use edge_dns.Geo.State.{Maps, uuid_dec, string_dec}
use edge_dns.Geo.Ops.{
  EntryRow, VersionRow, full_reload, incremental_removed, incremental_reload, add_entry,
  add_entries,
}
use edge_dns.Geo.Index.{IsIndexed}
use edge_dns.Geo.Load.{IsDistinct, ids_at, full_reload-IsIndexed, full_reload-group_entries}
use edge_dns.Geo.Reload.{incremental_removed-IsIndexed, incremental_reload-IsIndexed}
use edge_dns.Geo.Version.{Reaches, IsLast, IsPast, incremental_reload_groups}

abbrev uuid : ℕ → CassUuid
uuid n = record { time_and_version = n; clock_seq_and_node = 0 }

abbrev turkey : List ℕ
turkey = b'T' ∷ b'R' ∷ []

abbrev row : ℕ → EntryRow
row n = record {
  id = uuid n;
  group_id = uuid 9;
  version = uuid n;
  location_code = turkey;
  ip = b'1' ∷ b'.' ∷ b'2' ∷ b'.' ∷ b'3' ∷ b'.' ∷ b'4' ∷ [];
  priority = pos 1;
}

abbrev empty_maps : Maps
empty_maps = record { groups = λ g. zero_uuid; entries = λ g id. none; group_entries = λ g c. [] }

empty-IsIndexed : IsIndexed empty_maps
empty-IsIndexed = record { placed = λ g id e at. absurd (cc); owned = λ g c i id at. absurd (cc) }

abbrev two_rows : List EntryRow
two_rows = row 1 ∷ row 2 ∷ []

uuid_ne : (a b : ℕ) → a ≢ b → uuid a ≢ uuid b
uuid_ne a b ne e = ne (ap (λ (u : CassUuid). u.time_and_version) e)

two-IsDistinct : IsDistinct two_rows
two-IsDistinct = ((inr (uuid_ne 2 1 (omega arith)), tt), (tt, tt))

abbrev loaded : Maps
loaded = full_reload empty_maps (uuid 9) (some two_rows)

loaded-IsIndexed : IsIndexed loaded
loaded-IsIndexed =
    (full_reload-IsIndexed empty_maps (uuid 9) two_rows empty-IsIndexed (refl, (refl, tt))
      two-IsDistinct).0

full_reload-group_entries_example :
    (full_reload empty_maps (uuid 9) (some two_rows)).group_entries (uuid 9) turkey
    ≡ ids_at turkey two_rows
full_reload-group_entries_example =
    full_reload-group_entries empty_maps (uuid 9) two_rows turkey (refl, (refl, tt))

two_ids : ids_at turkey two_rows ≡ uuid 1 ∷ uuid 2 ∷ []
unfolding string_dec native.Mathlib.Decide.ℕ_discrete
two_ids = refl

incremental_removed-IsIndexed_example :
    IsIndexed (incremental_removed loaded (uuid 9) (uuid 1))
    × ((incremental_removed loaded (uuid 9) (uuid 1)).entries (uuid 9) (uuid 1) ≡ none)
    × ((h j : CassUuid)
        → loaded.entries h j ≡ none
        → (incremental_removed loaded (uuid 9) (uuid 1)).entries h j ≡ none)
incremental_removed-IsIndexed_example =
    incremental_removed-IsIndexed loaded (uuid 9) (uuid 1) loaded-IsIndexed

abbrev taken : VersionRow
taken = record { group_id = uuid 9; version = uuid 3; entry_id = uuid 1; action = pos 1 }

abbrev versions : CassUuid → Option (List VersionRow)
versions v = some (taken ∷ [])

abbrev third : CassUuid → Option (List EntryRow)
third v = some (row 3 ∷ [])

third_absent : loaded.entries (uuid 9) (uuid 3) ≡ none
unfolding full_reload add_entries add_entry uuid_dec native.Mathlib.Decide.ℕ_discrete
third_absent = refl

incremental_reload-IsIndexed_example : IsIndexed (incremental_reload versions third loaded (uuid 9))
incremental_reload-IsIndexed_example =
    incremental_reload-IsIndexed versions third loaded (uuid 9) (taken ∷ []) (row 3 ∷ [])
      loaded-IsIndexed refl refl (inl third_absent, tt) (tt, tt)

incremental_reload_groups_example :
    Reaches
      ((incremental_reload versions third loaded (uuid 9)).groups (uuid 9))
      (loaded.groups (uuid 9))
    × IsLast ((incremental_reload versions third loaded (uuid 9)).groups (uuid 9)) (taken ∷ [])
    × IsPast (incremental_reload versions third loaded (uuid 9)) (row 3 ∷ [])
incremental_reload_groups_example =
    incremental_reload_groups versions third loaded (uuid 9) (taken ∷ []) (row 3 ∷ []) refl refl
