-- ===== src/Records/ById.antt =====
-- What `update_record` and `delete_record_from_uuid` do to a well-formed cache.
use edge_dns.Prelude.{
  ℕ, ◌<◌, ◌≡◌, ◌≢◌, ◌↔◌, refl, sym, ap, ◌∙◌, Bool, true, false, ◌⊎◌, inl, inr, ℤ-cases, none, some,
  lt→ltb, Bool-cases, arith,
}
use edge_dns.Records.State.{CassUuid, Mmap, max_data_records}
use edge_dns.Records.Hash.{id_slot}
use edge_dns.Records.Probe.{id_slot-lt}
use edge_dns.Records.Ops.{lookup_id, uuid_eq, response_of, delete_record_from_uuid}
use edge_dns.Records.Valid.{IsUsed, IsValid}
use edge_dns.Records.Remove.{removed, removed-IsValid}
use edge_dns.Records.Delete.{unlink_record-unlinked, freed-removed}

uuid_eq_iff : (a b : CassUuid) → (uuid_eq a b ≡ true) ↔ (a ≡ b)
unfolding uuid_eq
uuid_eq_iff a b = ground arith

-- No used record has the ID.
abbrev pub Absent : Mmap → CassUuid → Type 0
Absent m id = (s : ℕ) → s < max_data_records → IsUsed m s true → (m.data_records s).id ≢ id

-- Record `i` is used and has the ID.
abbrev pub Holds : Mmap → CassUuid → ℕ → Type 0
Holds m id i = (i < max_data_records) × IsUsed m i true × ((m.data_records i).id ≡ id)

module _ (m : Mmap) (v : IsValid m) (id : CassUuid) where
  -- The ID table finds the record with the ID if there is one.
  pub lookup_id_cases :
      ((lookup_id m id ≡ some none) × Absent m id)
      ⊎ ((i : ℕ) × (lookup_id m id ≡ some (some i)) × Holds m id i)
  unfolding lookup_id
  lookup_id_cases = elim (ℤ-cases (m.id_hash_table (id_slot id))) [
    | inr (k, e) ↦ inl (
      rw (e, v.ids.entry_neg _ k (id_slot-lt id) e),
      λ s h u same. cc (v.ids.id_used s h u, e, ap (λ t. m.id_hash_table (id_slot t)) same),
    )
    | inl (i, e) ↦
        let (inside, used, home) = v.ids.entry_pos _ i (id_slot-lt id) e in
        elim (Bool-cases (uuid_eq (m.data_records i).id id)) [
          | inl same ↦ inr (
            i,
            rw (e, lt→ltb i max_data_records inside, used, same),
            (inside, used, (uuid_eq_iff _ _).0 same),
          )
          | inr other ↦ inl (
            rw (e, lt→ltb i max_data_records inside, used, other),
            λ s h u same.
                let at_i : s ≡ i =
                  ground (arith, v.ids.id_used s h u, ap (λ t. m.id_hash_table (id_slot t)) same) in
                absurd (cc (other, (uuid_eq_iff (m.data_records i).id id).1 (rw at_i at same))),
          )
        ]
  ]

  removed-Absent : (i : ℕ) → Holds m id i → Absent (removed m i) id
  unfolding removed
  removed-Absent i (inside, used, same) s h u e = ground (
    arith,
    v.ids.id_used s,
    v.ids.id_used i,
    λ (q : (m.data_records s).id ≡ id). ap (λ t. m.id_hash_table (id_slot t)) (q ∙ sym same),
  )

  removed_others :
      (i : ℕ)
      → Holds m id i
      → (s : ℕ) → s < max_data_records
      → IsUsed m s true
      → (m.data_records s).id ≢ id
      → IsUsed (removed m i) s true
        × (response_of ((removed m i).data_records s) ≡ response_of (m.data_records s))
  unfolding removed response_of
  removed_others i (inside, used, same) s h u ne = ground arith

  -- The deletion of a record that the ID table finds.
  delete_found :
      (i : ℕ)
      → lookup_id m id ≡ some (some i)
      → Holds m id i
      → delete_record_from_uuid m id ≡ some (true, removed m i)
  unfolding delete_record_from_uuid
  delete_found i found (inside, used, same) =
      rw (found, unlink_record-unlinked m v i inside used, ← same)
        (ap (λ r. some (true, r)) (freed-removed m v i inside used))

  pub delete-Holds :
      (i : ℕ) → Holds m id i → delete_record_from_uuid m id ≡ some (true, removed m i)
  delete-Holds i here = elim lookup_id_cases [
    | inl (found, absent) ↦ absurd (absent i here.0 here.1 here.2)
    | inr (j, found, there) ↦
        let same : i ≡ j = ground (
          arith,
          v.ids.id_used i here.0 here.1,
          v.ids.id_used j there.0 there.1,
          ap (λ t. m.id_hash_table (id_slot t)) (here.2 ∙ sym there.2),
        ) in
        rw same (delete_found j found there)
  ]

  -- On a well-formed cache `delete_record_from_uuid` ends without a fault and leaves a well-formed
  -- cache with no record of the ID; it answers true exactly when there was one, and every other
  -- record stays in use with the answer that it gave.
  pub delete_record_from_uuid-IsValid :
      (done : Bool) × (r : Mmap) × (delete_record_from_uuid m id ≡ some (done, r))
      × IsValid r
      × Absent r id
      × ((done ≡ false) ↔ Absent m id)
      × ((s : ℕ)
          → s < max_data_records
          → IsUsed m s true
          → (m.data_records s).id ≢ id
          → IsUsed r s true × (response_of (r.data_records s) ≡ response_of (m.data_records s)))
  unfolding delete_record_from_uuid
  delete_record_from_uuid-IsValid = elim lookup_id_cases [
    | inl (found, absent) ↦
        (false, m, rw found, v, absent, (λ e. absent, λ a. refl), λ s h u ne. (u, refl))
    | inr (i, found, here) ↦ (
      true,
      removed m i,
      delete_found i found here,
      removed-IsValid m i here.0 here.1 v,
      removed-Absent i here,
      (λ e. absurd (cc), λ a. absurd (a i here.0 here.1 here.2)),
      removed_others i here,
    )
  ]
