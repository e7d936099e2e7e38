-- ===== src/Geo/Reload.antt =====
-- `incrementalReload`: the entries that it takes out, those that it adds, and the version.
use edge_dns.Prelude.{
  ◌≡◌, refl, sym, ap₂, ◌∙◌, ◌⊎◌, inl, inr, Bool, Bool-cases, Option-cases, List, [], ◌∷◌, some,
  none, Option, arith, pos, ◌==ℤ◌, if◌then◌else◌,
}
use edge_dns.Records.State.{CassUuid}
use edge_dns.Geo.State.{Maps}
use edge_dns.Geo.Ops.{
  EntryRow, VersionRow, raise_version, older_version, apply_versions, incremental_removed,
  incremental_added, incremental_reload,
}
use edge_dns.Geo.Index.{IsIndexed}
use edge_dns.Geo.Load.{IsDistinct, IsFresh, add_entries-IsIndexed}
use edge_dns.Geo.Remove.{removed-IsIndexed, removed_gone, removed_stays}

raised-IsIndexed :
    (older : CassUuid → CassUuid → Bool) (s : Maps) (g v : CassUuid)
    → IsIndexed s
    → IsIndexed (raise_version older s g v)
unfolding raise_version
raised-IsIndexed older s g v h = record { placed = h.placed; owned = h.owned }

raised_entries :
    (older : CassUuid → CassUuid → Bool) (s : Maps) (g v : CassUuid)
    → (raise_version older s g v).entries ≡ s.entries
unfolding raise_version
raised_entries older s g v = refl

removed_none : (s : Maps) (g id : CassUuid) → s.entries g id ≡ none → incremental_removed s g id ≡ s
unfolding incremental_removed
removed_none s g id h = rw h refl

-- Where the vectors and the entries of all groups are in step, `incrementalRemoved` leaves them so,
-- the removed entry is gone, and an entry that is left was there before.
pub incremental_removed-IsIndexed :
    (s : Maps) (g id : CassUuid)
    → IsIndexed s
    → IsIndexed (incremental_removed s g id)
      × ((incremental_removed s g id).entries g id ≡ none)
      × ((h j : CassUuid) → s.entries h j ≡ none → (incremental_removed s g id).entries h j ≡ none)
incremental_removed-IsIndexed s g id v = elim (Option-cases (s.entries g id)) [
  | inl gone ↦ rw (removed_none s g id gone) (v, gone, λ h j p. p)
  | inr (e, there) ↦ (
    removed-IsIndexed s v g id e there,
    removed_gone s v g id e there,
    removed_stays s v g id e there,
  )
]

-- Some version takes the entry `id` of `h` out.
pub data IsTaken (h id : CassUuid) : List VersionRow → Type 0 where
  here :
      (r : VersionRow) (rs : List VersionRow)
      → r.action ≡ pos 1
      → r.group_id ≡ h
      → r.entry_id ≡ id
      → IsTaken h id (r ∷ rs)
  there : (r : VersionRow) (rs : List VersionRow) → IsTaken h id rs → IsTaken h id (r ∷ rs)

-- One round of the loop over the versions.
unfoldable pub round : Maps → CassUuid → VersionRow → Maps
round s g r =
    raise_version older_version
      (if r.action ==ℤ pos 1 then incremental_removed s r.group_id r.entry_id else s) g r.version

round-IsIndexed : (s : Maps) (g : CassUuid) (r : VersionRow) → IsIndexed s → IsIndexed (round s g r)
unfolding round
round-IsIndexed s g r v =
    let (kept, _, _) = incremental_removed-IsIndexed s r.group_id r.entry_id v in
    elim (Bool-cases (r.action ==ℤ pos 1)) [
      | inl act ↦ rw act (
          raised-IsIndexed older_version (incremental_removed s r.group_id r.entry_id) g r.version
            kept)
      | inr skip ↦ rw skip (raised-IsIndexed older_version s g r.version v)
    ]

-- A round takes out what its version names, and brings nothing back.
round_gone :
    (s : Maps) (g : CassUuid) (r : VersionRow) (h id : CassUuid)
    → IsIndexed s
    → (s.entries h id ≡ none) ⊎ ((r.action ≡ pos 1) × (r.group_id ≡ h) × (r.entry_id ≡ id))
    → (round s g r).entries h id ≡ none
unfolding round raise_version
round_gone s g r h id v gone =
    let (_, taken, stays) = incremental_removed-IsIndexed s r.group_id r.entry_id v in
    elim gone [
      | inl p ↦ ground (arith, stays h id)
      | inr (act, same, it) ↦
          rw (act)
            (ap₂ (incremental_removed s r.group_id r.entry_id).entries (sym same) (sym it) ∙ taken)
    ]

pub apply_versions-IsIndexed :
    (s : Maps) (g : CassUuid) (rs : List VersionRow)
    → IsIndexed s
    → IsIndexed (apply_versions s g rs)
unfolding apply_versions round
apply_versions-IsIndexed s g [] v = v
apply_versions-IsIndexed s g (r ∷ rs) v =
    apply_versions-IsIndexed (round s g r) g rs (round-IsIndexed s g r v)

apply_versions_gone :
    (s : Maps) (g : CassUuid) (rs : List VersionRow) (h id : CassUuid)
    → IsIndexed s
    → s.entries h id ≡ none
    → (apply_versions s g rs).entries h id ≡ none
unfolding apply_versions round
apply_versions_gone s g [] h id v gone = gone
apply_versions_gone s g (r ∷ rs) h id v gone =
    apply_versions_gone (round s g r) g rs h id (round-IsIndexed s g r v)
      (round_gone s g r h id v (inl gone))

apply_versions_taken :
    (s : Maps) (g : CassUuid) (rs : List VersionRow) (h id : CassUuid)
    → IsIndexed s
    → IsTaken h id rs
    → (apply_versions s g rs).entries h id ≡ none
unfolding apply_versions round
apply_versions_taken s g [] h id v taken = elim taken [ ]
apply_versions_taken s g (r ∷ rs) h id v (here _ _ act same it) =
    apply_versions_gone (round s g r) g rs h id (round-IsIndexed s g r v)
      (round_gone s g r h id v (inr (act, same, it)))
apply_versions_taken s g (r ∷ rs) h id v (there _ _ taken) =
    apply_versions_taken (round s g r) g rs h id (round-IsIndexed s g r v) taken

-- The entry of each row is not there, or some version takes it out.
abbrev pub IsReplaced : Maps → List VersionRow → List EntryRow → Type 0
IsReplaced s vs [] = Unit
IsReplaced s vs (r ∷ rs) =
    ((s.entries r.group_id r.id ≡ none) ⊎ IsTaken r.group_id r.id vs) × IsReplaced s vs rs

replaced-IsFresh :
    (s : Maps) (g : CassUuid) (vs : List VersionRow) (rows : List EntryRow)
    → IsIndexed s
    → IsReplaced s vs rows
    → IsFresh (apply_versions s g vs) rows
replaced-IsFresh s g vs [] v h = tt
replaced-IsFresh s g vs (r ∷ rs) v h = (
  elim (h.0) [
    | inl gone ↦ apply_versions_gone s g vs r.group_id r.id v gone
    | inr taken ↦ apply_versions_taken s g vs r.group_id r.id v taken
  ],
  replaced-IsFresh s g vs rs v h.1,
)

-- Where the vectors and the entries of all groups are in step, and the rows that the database
-- answers to the version of the group are of distinct entries, each of them new or taken out by one
-- of the versions that it answers, they are in step after `incrementalReload`.
pub incremental_reload-IsIndexed :
    (versions : CassUuid → Option (List VersionRow)) (rows : CassUuid → Option (List EntryRow))
    (s : Maps) (g : CassUuid) (vs : List VersionRow) (rs : List EntryRow)
    → IsIndexed s
    → versions (s.groups g) ≡ some vs
    → rows (s.groups g) ≡ some rs
    → IsReplaced s vs rs
    → IsDistinct rs
    → IsIndexed (incremental_reload versions rows s g)
unfolding incremental_reload incremental_added
incremental_reload-IsIndexed versions rows s g vs rs v p q replaced distinct =
    rw (p, q)
      (add_entries-IsIndexed older_version (apply_versions s g vs) rs
        (apply_versions-IsIndexed s g vs v) (replaced-IsFresh s g vs rs v replaced) distinct)
