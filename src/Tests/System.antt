-- ===== src/Tests/System.antt =====
-- Runs of the table of versions, with any contents.
use edge_dns.Prelude.{ℕ, ◌<◌, ◌≡◌, ◌≢◌, ◌↔◌, true, none, some, pos, update}
use edge_dns.Records.State.{CassUuid, zero_uuid}
use edge_dns.System.State.{
  SystemMmap, table_size, row_at, init_system, get_version, append_version, delete_version,
}
use edge_dns.System.Table.{view, view_lem, is_outside_lem}

abbrev old_file : SystemMmap
old_file = record {
  system_metadata = λ i. record { type = i; version = zero_uuid };
  free_head = pos 0;
}

view_lem_example :
    ((j : ℕ) → view (init_system true true old_file).1 j ≡ none)
    × (1 < table_size
        → (get_version old_file (pos 1) ≡ some (view old_file 1))
          × ((v : CassUuid)
              → (r : SystemMmap) × (append_version old_file (pos 1) v ≡ some (true, r))
                × ((j : ℕ) → view r j ≡ update (view old_file) 1 (some v) j))
          × ((r : SystemMmap) × (delete_version old_file (pos 1) ≡ some (true, r))
              × ((j : ℕ) → view r j ≡ update (view old_file) 1 none j)))
view_lem_example = view_lem old_file 1

is_outside_lem_example :
    ((get_version old_file (pos 2) ≡ none) ↔ (pos 2 ≡ pos 2))
    × ((append_version old_file (pos 2) zero_uuid ≡ none) ↔ (row_at (pos 2) ≡ none))
    × ((delete_version old_file (pos 2) ≡ none) ↔ (row_at (pos 2) ≡ none))
    × (row_at (pos 2) ≡ none → pos 2 ≢ pos 2 → get_version old_file (pos 2) ≡ some none)
is_outside_lem_example = is_outside_lem old_file (pos 2) zero_uuid
