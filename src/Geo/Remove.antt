-- ===== src/Geo/Remove.antt =====
-- `incrementalRemoved` on maps whose vectors and entries lead to one another.
use native.Mathlib.Decide.{ℕ_discrete}
use edge_dns.Prelude.{
  ℕ, suc, ◌-◌, ◌<◌, ◌≡◌, ◌≢◌, refl, sym, ap, ap₂, ◌∙◌, ◌⊎◌, inl, inr, true, false, List, some, none,
  Option, ltb, lt→ltb, ◌==◌, if◌then◌else◌, length, get_elem?, arith,
}
use edge_dns.Records.State.{CassUuid, zero_uuid}
use edge_dns.Geo.State.{IpEntry, Maps, uuid_dec, put_entry, put_vec}
use edge_dns.Geo.Ops.{pop_back, incremental_removed}
use edge_dns.Geo.Vectors.{get_elem?-pop_back, get_elem?-back, lt_of_get_elem?}
use edge_dns.Geo.Cases.{put_entry_cases, put_vec_cases}
use edge_dns.Geo.Index.{IsIndexed}
use edge_dns.Geo.Gap.{vec, last, shrunk, get-shrunk, same_index}

module _ (s : Maps) (v : IsIndexed s) (g id : CassUuid) (e : IpEntry)
    (found : s.entries g id ≡ some e) where
  inside : e.index_in_vector < length (vec s g id e)
  unfolding vec
  inside = lt_of_get_elem? _ _ _ (v.placed g id e found)

  at_index : get_elem? (vec s g id e) e.index_in_vector ≡ some id
  unfolding vec
  at_index = v.placed g id e found

  at_end : get_elem? (vec s g id e) (length (vec s g id e) - 1) ≡ some (last s g id e)
  unfolding last
  at_end = get_elem?-back zero_uuid (vec s g id e) (omega (arith, inside))

  -- The entry of the last ID.
  last_entry :
      (l : IpEntry) × (s.entries g (last s g id e) ≡ some l)
      × (l.country_code ≡ e.country_code)
      × (l.index_in_vector ≡ length (vec s g id e) - 1)
  unfolding vec
  last_entry = v.owned g e.country_code (length (vec s g id e) - 1) (last s g id e) at_end

  moved : IpEntry
  moved = record last_entry.0 { index_in_vector = e.index_in_vector }

  -- The removed ID is the last one exactly when its place is the last one.
  last_iff : (e.index_in_vector ≡ length (vec s g id e) - 1) → last s g id e ≡ id
  last_iff h = ground (arith, at_index, at_end, h)

  last_eq : last s g id e ≡ id → e.index_in_vector ≡ length (vec s g id e) - 1
  last_eq h =
      let (l, at, country, index) = last_entry in
      let same : l ≡ e = cc (at, found, ap (s.entries g) h) in
      ap (λ (t : IpEntry). t.index_in_vector) (sym same) ∙ index

  abbrev left : Maps
  left = incremental_removed s g id

  left_tail :
      e.index_in_vector ≡ length (vec s g id e) - 1
      → left ≡ put_entry (put_vec s g e.country_code (pop_back (vec s g id e))) g id none
  unfolding vec incremental_removed uuid_dec
  left_tail h =
      let test : (e.index_in_vector == length (vec s g id e) - 1) ≡ true = ground arith in
      rw (found, lt→ltb _ _ inside, test) refl

  left_inner :
      e.index_in_vector ≢ length (vec s g id e) - 1
      → left
        ≡ put_entry
            (put_entry
              (put_vec s g e.country_code (shrunk s g id e))
              g
              (last s g id e)
              (some moved))
            g
            id
            none
  unfolding vec shrunk last moved incremental_removed uuid_dec
  left_inner h =
      let test : (e.index_in_vector == length (vec s g id e) - 1) ≡ false = ground arith in
      let (l, at, country, index) = last_entry in rw (found, lt→ltb _ _ inside, test, at) refl

  -- What stands at place `i` of the vector once the gap is filled.
  kept : ℕ → Option CassUuid
  kept i =
      if ltb (suc i) (length (vec s g id e))
      then (if i == e.index_in_vector then some (last s g id e) else get_elem? (vec s g id e) i)
      else none

  vec_after :
      (h : CassUuid) (c : List ℕ)
      → ((h ≡ g) × (c ≡ e.country_code) × ((i : ℕ) → get_elem? (left.group_entries h c) i ≡ kept i))
        ⊎ (((h ≢ g) ⊎ (c ≢ e.country_code)) × (left.group_entries h c ≡ s.group_entries h c))
  unfolding kept
  vec_after h c = elim (ℕ_discrete e.index_in_vector (length (vec s g id e) - 1)) [
    | yes tail ↦ elim (put_vec_cases s g e.country_code (pop_back (vec s g id e)) h c) [
      | inl (same, it, new) ↦ inl (
        same,
        it,
        λ i. rw (left_tail tail, new) (ground (arith, get_elem?-pop_back (vec s g id e) i, tail)),
      )
      | inr (other, old) ↦ inr (other, rw (left_tail tail) old)
    ]
    | no inner ↦ elim (put_vec_cases s g e.country_code (shrunk s g id e) h c) [
      | inl (same, it, new) ↦
          inl (same, it, λ i. rw (left_inner inner, new) (get-shrunk s g id e i inside))
      | inr (other, old) ↦ inr (other, rw (left_inner inner) old)
    ]
  ]

  entry_after :
      (h j : CassUuid)
      → ((h ≡ g) × (j ≡ id) × (left.entries h j ≡ none))
        ⊎ ((h ≡ g) × (j ≢ id) × (j ≡ last s g id e) × (left.entries h j ≡ some moved))
        ⊎ (((h ≢ g) ⊎ ((j ≢ id) × (j ≢ last s g id e))) × (left.entries h j ≡ s.entries h j))
  entry_after h j = elim (ℕ_discrete e.index_in_vector (length (vec s g id e) - 1)) [
    | yes tail ↦
        let t = put_vec s g e.country_code (pop_back (vec s g id e)) in
        rw (left_tail tail) (ground (arith, put_entry_cases t g id none h j, last_iff tail))
    | no inner ↦
        let t = put_vec s g e.country_code (shrunk s g id e) in
        let u = put_entry t g (last s g id e) (some moved) in
        rw (left_inner inner) (
          ground (
            arith,
            put_entry_cases u g id none h j,
            put_entry_cases t g (last s g id e) (some moved) h j,
          ))
  ]

  moved_place : (moved.country_code ≡ e.country_code) × (moved.index_in_vector ≡ e.index_in_vector)
  unfolding moved
  moved_place = (last_entry.2, refl)

  left-placed :
      (h j : CassUuid) (f : IpEntry)
      → left.entries h j ≡ some f
      → get_elem? (left.group_entries h f.country_code) f.index_in_vector ≡ some j
  unfolding kept vec
  left-placed h j f at = elim (entry_after h j) [
    | inl (_, _, gone) ↦ absurd (cc (gone, at))
    | inr (inl (same, other, it, new)) ↦
        let f_is : f ≡ moved = cc (new, at) in
        elim (vec_after h f.country_code) [
          | inl (_, _, places) ↦
              ground (arith, places f.index_in_vector, moved_place, f_is, inside, last_iff)
          | inr (elsewhere, _) ↦ absurd (ground (arith, moved_place, f_is, elsewhere))
        ]
    | inr (inr (other, old)) ↦
        let was = v.placed h j f (sym old ∙ at) in
        elim (vec_after h f.country_code) [
          | inr (elsewhere, stays) ↦ ap (λ t. get_elem? t f.index_in_vector) stays ∙ was
          | inl (same, country, places) ↦
              let there : get_elem? (vec s g id e) f.index_in_vector ≡ some j =
                ap₂ (λ k c. get_elem? (s.group_entries k c) f.index_in_vector) (sym same)
                  (sym country)
                ∙ was in
              ground (
                arith,
                places f.index_in_vector,
                there,
                lt_of_get_elem? (vec s g id e) f.index_in_vector j,
                at_index,
                at_end,
              )
        ]
  ]

  -- An entry that is neither the removed one nor the moved one is still there.
  entry_kept :
      (j : CassUuid) (f : IpEntry)
      → s.entries g j ≡ some f
      → j ≢ id
      → j ≢ last s g id e
      → left.entries g j ≡ some f
  entry_kept j f at p q = ground (arith, entry_after g j)

  left-owned :
      (h : CassUuid) (c : List ℕ) (i : ℕ) (j : CassUuid)
      → get_elem? (left.group_entries h c) i ≡ some j
      → (f : IpEntry) × (left.entries h j ≡ some f) × (f.country_code ≡ c) × (f.index_in_vector ≡ i)
  unfolding kept vec
  left-owned h c i j at = elim (vec_after h c) [
    | inr (other, stays) ↦
        let (f, there, country, index) =
          v.owned h c i j (ap (λ t. get_elem? t i) (sym stays) ∙ at) in
        let (l, l_there, l_country, l_index) = last_entry in
        (
          f,
          ground (arith, entry_after h j, there, country, found, l_there, l_country, other),
          country,
          index,
        )
    | inl (same, it, places) ↦ elim (ℕ_discrete i e.index_in_vector) [
      | yes here ↦
          let j_is : j ≡ last s g id e = ground (arith, places i, at, here) in
          (
            moved,
            ground (arith, entry_after h j, j_is, places i, at, here, last_eq),
            moved_place.0 ∙ sym it,
            moved_place.1 ∙ sym here,
          )
      | no away ↦
          let was : get_elem? (vec s g id e) i ≡ some j = ground (arith, places i, at) in
          let (f, there, country, index) = v.owned g e.country_code i j was in
          let (l, l_there, l_country, l_index) = last_entry in
          let not_id : j ≢ id = λ q. away (sym index ∙ same_index s g j id f e there found q) in
          let not_last : j ≢ last s g id e = λ q.
            let end : i ≡ length (vec s g id e) - 1 =
              sym index ∙ same_index s g j (last s g id e) f l there l_there q ∙ l_index in
            absurd (ground (arith, places i, at, end)) in
          (
            f,
            ap (λ k. left.entries k j) same ∙ entry_kept j f there not_id not_last,
            country ∙ sym it,
            index,
          )
    ]
  ]

  pub removed-IsIndexed : IsIndexed left
  removed-IsIndexed = record { placed = left-placed; owned = left-owned }

  pub removed_gone : left.entries g id ≡ none
  removed_gone = ground (arith, entry_after g id)

  -- What was not there is not there.
  pub removed_stays : (h j : CassUuid) → s.entries h j ≡ none → left.entries h j ≡ none
  removed_stays h j gone =
      let (l, there, country, index) = last_entry in ground (arith, entry_after h j, gone, there)
