-- ===== src/Geo/Index.antt =====
-- The vectors and the entries of a group lead to one another.
use edge_dns.Prelude.{
  ℕ, ◌-◌, ◌≡◌, ◌≢◌, sym, ap, ap₂, ◌∙◌, ◌⊎◌, inl, inr, length-append, List, [], ◌∷◌, ◌++◌, some,
  none, length, get_elem?, arith, Bool,
}
use native.Mathlib.Decide.{ℕ_discrete}
use edge_dns.Records.State.{CassUuid}
use edge_dns.Geo.State.{IpEntry, Maps}
use edge_dns.Geo.Ops.{EntryRow, raise_version, add_entry}
use edge_dns.Wire.Ipv4.{ipv4_to_wire}
use edge_dns.Geo.Cases.{put_entry_cases, put_vec_cases}
use edge_dns.Geo.Vectors.{get_elem?-push, lt_of_get_elem?}

-- Each entry stands in the vector of its country at its index, and each place of a vector holds the
-- ID of an entry that stands there.
pub record IsIndexed (s : Maps) : Type 0 where
  pub placed :
      (g id : CassUuid) (e : IpEntry)
      → s.entries g id ≡ some e
      → get_elem? (s.group_entries g e.country_code) e.index_in_vector ≡ some id
  pub owned :
      (g : CassUuid) (c : List ℕ) (i : ℕ) (id : CassUuid)
      → get_elem? (s.group_entries g c) i ≡ some id
      → (e : IpEntry) × (s.entries g id ≡ some e) × (e.country_code ≡ c) × (e.index_in_vector ≡ i)

module _ (older : CassUuid → CassUuid → Bool) (s : Maps) (r : EntryRow) (v : IsIndexed s)
    (fresh : s.entries r.group_id r.id ≡ none) where
  grown : List CassUuid
  grown = s.group_entries r.group_id r.location_code ++ r.id ∷ []

  vec_after :
      (g : CassUuid) (c : List ℕ)
      → ((g ≡ r.group_id)
          × (c ≡ r.location_code)
          × ((add_entry older s r).group_entries g c ≡ grown))
        ⊎ (((g ≢ r.group_id) ⊎ (c ≢ r.location_code))
            × ((add_entry older s r).group_entries g c ≡ s.group_entries g c))
  unfolding add_entry raise_version grown
  vec_after g c = put_vec_cases s r.group_id r.location_code grown g c

  pub added : IpEntry
  added = record {
    country_code = r.location_code;
    ip = ipv4_to_wire r.ip;
    priority = r.priority;
    index_in_vector = length (s.group_entries r.group_id r.location_code);
  }

  entry_after :
      (g id : CassUuid)
      → ((g ≡ r.group_id) × (id ≡ r.id) × ((add_entry older s r).entries g id ≡ some added))
        ⊎ (((g ≢ r.group_id) ⊎ (id ≢ r.id)) × ((add_entry older s r).entries g id ≡ s.entries g id))
  unfolding add_entry raise_version added
  entry_after g id =
      let size : length (s.group_entries r.group_id r.location_code ++ r.id ∷ []) - 1
          ≡ length (s.group_entries r.group_id r.location_code) =
        omega (arith, length-append (s.group_entries r.group_id r.location_code) (r.id ∷ [])) in
      rw size (put_entry_cases s r.group_id r.id (some added) g id)

  add_entry-placed :
      (g id : CassUuid) (e : IpEntry)
      → (add_entry older s r).entries g id ≡ some e
      → get_elem? ((add_entry older s r).group_entries g e.country_code) e.index_in_vector ≡ some id
  unfolding grown added
  add_entry-placed g id e h = ground (
    arith,
    entry_after g id,
    vec_after g e.country_code,
    v.placed g id e,
    lt_of_get_elem? (s.group_entries g e.country_code) e.index_in_vector id,
    get_elem?-push (s.group_entries r.group_id r.location_code) r.id e.index_in_vector,
  )

  -- An old entry is still there.
  add_entry_keeps :
      (g id : CassUuid) (e : IpEntry)
      → s.entries g id ≡ some e
      → (add_entry older s r).entries g id ≡ some e
  add_entry_keeps g id e h = elim (entry_after g id) [
    | inl (same, it, new) ↦ absurd (cc (ap₂ s.entries same it))
    | inr (other, old) ↦ old ∙ h
  ]

  add_entry-owned :
      (g : CassUuid) (c : List ℕ) (i : ℕ) (id : CassUuid)
      → get_elem? ((add_entry older s r).group_entries g c) i ≡ some id
      → (e : IpEntry) × ((add_entry older s r).entries g id ≡ some e)
        × (e.country_code ≡ c)
        × (e.index_in_vector ≡ i)
  unfolding grown added
  add_entry-owned g c i id h = elim (vec_after g c) [
    | inl (same, it, new) ↦
        elim (ℕ_discrete i (length (s.group_entries r.group_id r.location_code))) [
          | yes last ↦
              let push = get_elem?-push (s.group_entries r.group_id r.location_code) r.id i in
              (added, ground (arith, entry_after g id, push, h, new), sym it, sym last)
          | no more ↦
              let push = get_elem?-push (s.group_entries r.group_id r.location_code) r.id i in
              let was : get_elem? (s.group_entries r.group_id r.location_code) i ≡ some id =
                ground (arith, push, h, new) in
              let (e, at, country, index) = v.owned r.group_id r.location_code i id was in
              (
                e,
                add_entry_keeps g id e (ap (λ k. s.entries k id) same ∙ at),
                country ∙ sym it,
                index,
              )
        ]
    | inr (other, old) ↦
        let (e, at, country, index) = v.owned g c i id (ap (λ t. get_elem? t i) (sym old) ∙ h) in
        (e, add_entry_keeps g id e at, country, index)
  ]

  pub add_entry-IsIndexed : IsIndexed (add_entry older s r)
  add_entry-IsIndexed = record { placed = add_entry-placed; owned = add_entry-owned }

  pub add_entry_self : (add_entry older s r).entries r.group_id r.id ≡ some added
  add_entry_self = ground (arith, entry_after r.group_id r.id)

  pub add_entry_absent :
      (g id : CassUuid)
      → (g ≢ r.group_id) ⊎ (id ≢ r.id)
      → s.entries g id ≡ none
      → (add_entry older s r).entries g id ≡ none
  add_entry_absent g id other h = ground (arith, entry_after g id)
