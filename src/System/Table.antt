-- ===== src/System/Table.antt =====
-- What `System::Mmap` promises: a finite map from the two types to versions.
use edge_dns.Prelude.{
  ℕ, ◌<◌, ◌≡◌, ◌≢◌, ◌↔◌, refl, ◌&&◌, not, true, ℤ, pos, negsuc, Option, none, some, ltb, lt→ltb,
  if◌then◌else◌, update, arith,
}
use edge_dns.Records.State.{CassUuid}
use edge_dns.System.State.{
  SystemMmap, table_size, row_at, set_row, free_row, init_system, is_outside, get_version,
  append_version, delete_version,
}

-- The abstract state: which version is known for a type.
abbrev pub Versions : Type 0
Versions = ℕ → Option CassUuid

-- The map that the rows stand for.
pub view : SystemMmap → Versions
view m i =
    if ltb i table_size && not (ltb table_size (m.system_metadata i).type)
    then some (m.system_metadata i).version
    else none

-- `System::Mmap` refines a map from 0 and 1 to versions: on a new file `init` gives the empty map,
-- `get_record` looks the type up, `append_record` puts a version in, and `delete_record` takes one
-- out; all three are defined for the two types.
pub view_lem :
    (m : SystemMmap) (i : ℕ)
    → ((j : ℕ) → view (init_system true true m).1 j ≡ none)
      × (i < table_size
          → (get_version m (pos i) ≡ some (view m i))
            × ((v : CassUuid)
                → (r : SystemMmap) × (append_version m (pos i) v ≡ some (true, r))
                  × ((j : ℕ) → view r j ≡ update (view m) i (some v) j))
            × ((r : SystemMmap) × (delete_version m (pos i) ≡ some (true, r))
                × ((j : ℕ) → view r j ≡ update (view m) i none j)))
unfolding view init_system get_version is_outside append_version delete_version
view_lem m i = (
  λ j. ground arith,
  λ h. (
    ground arith,
    (λ v. (
      set_row m i (record { type = i; version = v }),
      rw (lt→ltb _ _ h) refl,
      λ j. ground arith,
    )),
    (set_row m i free_row, rw (lt→ltb _ _ h) refl, λ j. ground arith),
  ),
)

-- `get_record` reads outside its array exactly for the type 2, and for every other type that is not
-- 0 or 1 it answers false; `append_record` and `delete_record` write outside it for all of them.
pub is_outside_lem :
    (m : SystemMmap) (type : ℤ) (v : CassUuid)
    → ((get_version m type ≡ none) ↔ (type ≡ pos 2))
      × ((append_version m type v ≡ none) ↔ (row_at type ≡ none))
      × ((delete_version m type ≡ none) ↔ (row_at type ≡ none))
      × (row_at type ≡ none → type ≢ pos 2 → get_version m type ≡ some none)
unfolding get_version is_outside append_version delete_version
is_outside_lem m (negsuc n) v = ground arith
is_outside_lem m (pos n) v = ground arith
