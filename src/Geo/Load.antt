-- ===== src/Geo/Load.antt =====
-- The loops over the rows of entries, and `fullReload`, which is made of one.
use edge_dns.Prelude.{
  ℕ, ◌≡◌, ◌≢◌, refl, sym, ap, ap₂, ◌∙◌, ◌⊎◌, inl, inr, Bool, List, [], ◌∷◌, ◌++◌, some, none,
  get_elem?, arith,
}
use mathlib.Core.List.{append_assoc, append-nil}
use mathlib.Core.Logic.{ite, if_pos, if_neg}
use edge_dns.Records.State.{CassUuid}
use edge_dns.Geo.State.{Maps, uuid_dec, string_dec}
use edge_dns.Geo.Ops.{
  EntryRow, raise_version, older_time, add_entry, add_entries, clear_maps, full_reload,
}
use edge_dns.Geo.Cases.{put_vec_cases}
use edge_dns.Geo.Index.{IsIndexed, add_entry-IsIndexed, add_entry_absent}

-- A row is of none of the entries of other rows, no two rows are of one entry, and the entries of
-- the rows are not there.
abbrev pub IsNew : EntryRow → List EntryRow → Type 0
IsNew r [] = Unit
IsNew r (q ∷ rs) = ((q.group_id ≢ r.group_id) ⊎ (q.id ≢ r.id)) × IsNew r rs

abbrev pub IsDistinct : List EntryRow → Type 0
IsDistinct [] = Unit
IsDistinct (r ∷ rs) = IsNew r rs × IsDistinct rs

abbrev pub IsFresh : Maps → List EntryRow → Type 0
IsFresh s [] = Unit
IsFresh s (r ∷ rs) = (s.entries r.group_id r.id ≡ none) × IsFresh s rs

-- All rows are of the group `g`.
abbrev pub IsOf : CassUuid → List EntryRow → Type 0
IsOf g [] = Unit
IsOf g (r ∷ rs) = (r.group_id ≡ g) × IsOf g rs

add_entry-IsFresh :
    (older : CassUuid → CassUuid → Bool) (s : Maps) (r : EntryRow) (v : IsIndexed s)
    (fresh : s.entries r.group_id r.id ≡ none) (rs : List EntryRow)
    → IsNew r rs
    → IsFresh s rs
    → IsFresh (add_entry older s r) rs
add_entry-IsFresh older s r v fresh [] new h = tt
add_entry-IsFresh older s r v fresh (q ∷ rs) new h = (
  add_entry_absent older s r v fresh q.group_id q.id new.0 h.0,
  add_entry-IsFresh older s r v fresh rs new.1 h.1,
)

-- Rows of distinct entries that are not there keep the vectors and the entries in step.
pub add_entries-IsIndexed :
    (older : CassUuid → CassUuid → Bool) (s : Maps) (rows : List EntryRow)
    → IsIndexed s
    → IsFresh s rows
    → IsDistinct rows
    → IsIndexed (add_entries older s rows)
unfolding add_entries
add_entries-IsIndexed older s [] v fresh distinct = v
add_entries-IsIndexed older s (r ∷ rs) v fresh distinct =
    add_entries-IsIndexed older (add_entry older s r) rs (add_entry-IsIndexed older s r v fresh.0)
      (add_entry-IsFresh older s r v fresh.0 rs distinct.0 fresh.1) distinct.1

clear_entries :
    (s : Maps) (g h id : CassUuid)
    → ((h ≡ g) × ((clear_maps s g).entries h id ≡ none))
      ⊎ ((h ≢ g) × ((clear_maps s g).entries h id ≡ s.entries h id))
unfolding clear_maps
clear_entries s g h id = elim (uuid_dec h g) [
  | yes p ↦ inl (p, rw (if_pos _ p) refl)
  | no p ↦ inr (p, rw (if_neg _ p) refl)
]

clear_vectors :
    (s : Maps) (g h : CassUuid) (c : List ℕ)
    → ((h ≡ g) × ((clear_maps s g).group_entries h c ≡ []))
      ⊎ ((h ≢ g) × ((clear_maps s g).group_entries h c ≡ s.group_entries h c))
unfolding clear_maps
clear_vectors s g h c = elim (uuid_dec h g) [
  | yes p ↦ inl (p, rw (if_pos _ p) refl)
  | no p ↦ inr (p, rw (if_neg _ p) refl)
]

clear_maps-IsIndexed : (s : Maps) (g : CassUuid) → IsIndexed s → IsIndexed (clear_maps s g)
clear_maps-IsIndexed s g v = record {
  placed = λ h id e at. elim (clear_entries s g h id) [
    | inl (_, gone) ↦ absurd (cc (gone, at))
    | inr (other, old) ↦ elim (clear_vectors s g h e.country_code) [
      | inl (same, _) ↦ absurd (other same)
      | inr (_, stays) ↦
          ap (λ t. get_elem? t e.index_in_vector) stays ∙ v.placed h id e (sym old ∙ at)
    ]
  ];
  owned = λ h c i id at. elim (clear_vectors s g h c) [
    | inl (_, empty) ↦ absurd (cc (ap (λ t. get_elem? t i) empty, at))
    | inr (other, stays) ↦
        let (e, there, country, index) =
          v.owned h c i id (ap (λ t. get_elem? t i) (sym stays) ∙ at) in
        elim (clear_entries s g h id) [
          | inl (same, _) ↦ absurd (other same)
          | inr (_, old) ↦ (e, old ∙ there, country, index)
        ]
  ];
}

cleared-IsFresh :
    (s : Maps) (g : CassUuid) (rows : List EntryRow) → IsOf g rows → IsFresh (clear_maps s g) rows
cleared-IsFresh s g [] h = tt
cleared-IsFresh s g (r ∷ rs) h =
    (ground (arith, clear_entries s g r.group_id r.id, h.0), cleared-IsFresh s g rs h.1)

-- Where the vectors and the entries of all groups are in step and the rows are of distinct entries
-- of the group, they are in step after `fullReload`, also where the query has failed.
pub full_reload-IsIndexed :
    (s : Maps) (g : CassUuid) (rows : List EntryRow)
    → IsIndexed s
    → IsOf g rows
    → IsDistinct rows
    → IsIndexed (full_reload s g (some rows)) × IsIndexed (full_reload s g none)
unfolding full_reload
full_reload-IsIndexed s g rows v of distinct = (
  add_entries-IsIndexed older_time (clear_maps s g) rows (clear_maps-IsIndexed s g v)
      (cleared-IsFresh s g rows of) distinct,
  v,
)

-- The IDs of the rows of the country `c`, in their order.
abbrev pub ids_at : List ℕ → List EntryRow → List CassUuid
ids_at c [] = []
ids_at c (r ∷ rs) = ite (string_dec c r.location_code) (r.id ∷ ids_at c rs) (ids_at c rs)

vec_of_entry :
    (older : CassUuid → CassUuid → Bool) (s : Maps) (r : EntryRow) (h : CassUuid) (c : List ℕ)
    → ((h ≡ r.group_id)
        × (c ≡ r.location_code)
        × ((add_entry older s r).group_entries h c
            ≡ s.group_entries r.group_id r.location_code ++ r.id ∷ []))
      ⊎ (((h ≢ r.group_id) ⊎ (c ≢ r.location_code))
          × ((add_entry older s r).group_entries h c ≡ s.group_entries h c))
unfolding add_entry raise_version
vec_of_entry older s r h c =
    put_vec_cases s r.group_id r.location_code
      (s.group_entries r.group_id r.location_code ++ r.id ∷ []) h c

add_entries-vector :
    (older : CassUuid → CassUuid → Bool) (s : Maps) (g : CassUuid) (rows : List EntryRow)
    (c : List ℕ)
    → IsOf g rows
    → (add_entries older s rows).group_entries g c ≡ s.group_entries g c ++ ids_at c rows
unfolding add_entries
add_entries-vector older s g [] c of = sym (append-nil (s.group_entries g c))
add_entries-vector older s g (r ∷ rs) c of =
    let rest = add_entries-vector older (add_entry older s r) g rs c of.1 in
    elim (string_dec c r.location_code) [
      | yes p ↦ elim (vec_of_entry older s r g c) [
        | inl (same, it, new) ↦ rw (if_pos _ p) (
            rest
            ∙ ap (λ t. t ++ ids_at c rs)
                (new ∙ ap₂ (λ k d. s.group_entries k d ++ r.id ∷ []) (sym same) (sym it))
            ∙ append_assoc (s.group_entries g c) (r.id ∷ []) (ids_at c rs))
        | inr (other, _) ↦ absurd (ground (arith, other, of.0, p))
      ]
      | no p ↦ elim (vec_of_entry older s r g c) [
        | inl (_, it, _) ↦ absurd (p it)
        | inr (_, stays) ↦ rw (if_neg _ p) (rest ∙ ap (λ t. t ++ ids_at c rs) stays)
      ]
    ]

-- After `fullReload` the vector of a country holds the IDs of its rows and no other, in their order.
pub full_reload-group_entries :
    (s : Maps) (g : CassUuid) (rows : List EntryRow) (c : List ℕ)
    → IsOf g rows
    → (full_reload s g (some rows)).group_entries g c ≡ ids_at c rows
unfolding full_reload
full_reload-group_entries s g rows c of =
    let empty : (clear_maps s g).group_entries g c ≡ [] = ground (arith, clear_vectors s g g c) in
    add_entries-vector older_time (clear_maps s g) g rows c of ∙ ap (λ t. t ++ ids_at c rows) empty
