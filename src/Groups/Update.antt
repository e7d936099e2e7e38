-- ===== src/Groups/Update.antt =====
-- What `update_record` of the IP group cache stores.
use edge_dns.Prelude.{
  ℕ, ◌<◌, ◌≤◌, ◌≡◌, ◌≢◌, refl, ap, ◌∙◌, true, ℤ, none, some, List, [], ◌∷◌, ◌++◌, length, take,
  drop, ltb, take-append-length, false, ◌==◌, arith,
}
use edge_dns.Records.State.{CassUuid}
use edge_dns.Records.Ops.{uuid_eq}
use edge_dns.Groups.State.{GroupMmap, set_entry, ip_size, overwrite, zeroed}
use edge_dns.Groups.Ops.{entry_response, store_ip, lookup_entry, update_entry}

take-length : (xs : List ℕ) → take (length xs) xs ≡ xs
take-length [] = refl
take-length (x ∷ xs) = ap (◌∷◌ x) (take-length xs)

take-overwrite : (val old : List ℕ) → take (length val) (overwrite (length val) val old) ≡ val
unfolding overwrite
take-overwrite val old =
    ap (λ t. take (length val) (t ++ drop (length val) old)) (take-length val)
    ∙ take-append-length val (drop (length val) old)

uuid_eq_refl : (a : CassUuid) → uuid_eq a a ≡ true
unfolding uuid_eq
uuid_eq_refl a = ground arith

-- The cache with what `update_record` stores in entry `i`.
unfoldable pub readdressed : GroupMmap → ℕ → (country val : List ℕ) → ℤ → GroupMmap
unfolding overwrite zeroed
readdressed m i country val priority =
    let e = m.data_entries i in
    set_entry m i (record e {
      ip = overwrite (length val) val (zeroed ip_size e.ip);
      len = length val;
      priority = priority;
      country_code = overwrite 7 country e.country_code;
    })

readdressed_self :
    (m : GroupMmap) (i : ℕ) (country val : List ℕ) (priority : ℤ)
    → (entry_response ((readdressed m i country val priority).data_entries i)
        ≡ record { ip = val; priority = priority; id = (m.data_entries i).id })
      × (((readdressed m i country val priority).data_entries i).next_index
          ≡ (m.data_entries i).next_index)
      × (((readdressed m i country val priority).data_entries i).prev_index
          ≡ (m.data_entries i).prev_index)
      × ((j : ℕ) → j ≢ i → (readdressed m i country val priority).data_entries j ≡ m.data_entries j)
unfolding readdressed entry_response
readdressed_self m i country val priority =
    let here : i == i ≡ true = ground arith in
    rw here (
      ap (λ t. record { ip = t; priority = priority; id = (m.data_entries i).id })
          (take-overwrite val (zeroed ip_size (m.data_entries i).ip)),
      refl,
      refl,
      λ j apart. (let other : j == i ≡ false = ground (arith, apart) in rw other refl),
    )

-- Where the ID table leads to entry `i` of the group: an address of more than 16 bytes is written
-- behind the entry's array, a fault; any other is stored, is what the entry answers from then on,
-- with the priority given and the ID it had, whatever the country given; the entry keeps its links,
-- and every other entry, both tables and the free list are as they were.
pub update_entry-found :
    (m : GroupMmap) (id : CassUuid) (country val : List ℕ) (priority : ℤ) (i : ℕ)
    → lookup_entry m id ≡ some (some i)
    → (ip_size < length val
        → update_entry m (m.data_entries i).group_id id country val priority ≡ none)
      × (length val ≤ ip_size
          → (r : GroupMmap) × (update_entry m (m.data_entries i).group_id id country val priority
              ≡ some (true, r))
            × (entry_response (r.data_entries i)
                ≡ record { ip = val; priority = priority; id = (m.data_entries i).id })
            × (r.group_table ≡ m.group_table)
            × (r.id_table ≡ m.id_table)
            × (r.free_entry_idx ≡ m.free_entry_idx)
            × ((j : ℕ) → j ≢ i → r.data_entries j ≡ m.data_entries j)
            × ((r.data_entries i).next_index ≡ (m.data_entries i).next_index)
            × ((r.data_entries i).prev_index ≡ (m.data_entries i).prev_index))
unfolding update_entry readdressed store_ip
update_entry-found m id country val priority i found =
    let same = uuid_eq_refl (m.data_entries i).group_id in
    (
      λ h. (let big : ltb ip_size (length val) ≡ true = ground arith in rw (found, same, big) refl),
      λ h.
          (let small : ltb ip_size (length val) ≡ false = ground arith in
            let r = readdressed m i country val priority in
            let (answer, next, prev, others) = readdressed_self m i country val priority in
            (r, rw (found, same, small) refl, answer, refl, refl, refl, others, next, prev)),
    )
