-- ===== src/Geo/Version.antt =====
-- The version of a group, by which a reload asks the database for what is new.
use edge_dns.Prelude.{
  ◌≤◌, ◌≡◌, ◌≢◌, refl, ◌⊎◌, inl, inr, subst, Bool-cases, Option-cases, List, [], ◌∷◌, some, Option,
  arith, pos, ◌==ℤ◌, if◌then◌else◌,
}
use edge_dns.Geo.Reload.{round}
use mathlib.Core.Logic.{if_pos, if_neg}
use edge_dns.Records.State.{CassUuid}
use edge_dns.Geo.State.{IpEntry, Maps, uuid_dec}
use edge_dns.Geo.Ops.{
  EntryRow, VersionRow, raise_version, older_version, add_entry, add_entries, apply_versions,
  incremental_removed, incremental_added, incremental_reload, fill_gap, remove_found,
}

-- The version `a` is not before `b`: its time is not, and at the same time its clock is not.
abbrev pub Reaches : CassUuid → CassUuid → Type 0
Reaches a b =
    (b.time_and_version ≤ a.time_and_version)
    × (b.time_and_version ≡ a.time_and_version → b.clock_seq_and_node ≤ a.clock_seq_and_node)

Reaches-refl : (a : CassUuid) → Reaches a a
unfolding older_version
Reaches-refl a = ground arith

Reaches-trans : (a b c : CassUuid) → Reaches a b → Reaches b c → Reaches a c
unfolding older_version
Reaches-trans a b c p q = ground arith

later : CassUuid → CassUuid → CassUuid
later a b = if older_version a b then b else a

later-Reaches : (a b : CassUuid) → Reaches (later a b) b × Reaches (later a b) a
unfolding later older_version
later-Reaches a b = (ground arith, ground arith)

raise_cases :
    (s : Maps) (g v h : CassUuid)
    → ((h ≢ g) × ((raise_version older_version s g v).groups h ≡ s.groups h))
      ⊎ ((h ≡ g)
          × Reaches ((raise_version older_version s g v).groups h) v
          × Reaches ((raise_version older_version s g v).groups h) (s.groups h))
unfolding raise_version later
raise_cases s g v h = elim (uuid_dec h g) [
  | no p ↦ inl (p, rw (if_neg _ p) refl)
  | yes p ↦
      let new : (raise_version older_version s g v).groups h ≡ later (s.groups g) v =
        rw (if_pos _ p) refl in
      let (up, keeps) = later-Reaches (s.groups g) v in inr (p, rw new up, rw (new, p) keeps)
]

raise_keeps :
    (s : Maps) (g v h : CassUuid)
    → Reaches ((raise_version older_version s g v).groups h) (s.groups h)
raise_keeps s g v h = elim (raise_cases s g v h) [
  | inl (_, same) ↦ rw same (Reaches-refl (s.groups h))
  | inr (_, _, old) ↦ old
]

raise-Reaches :
    (s : Maps) (g v : CassUuid) → Reaches ((raise_version older_version s g v).groups g) v
raise-Reaches s g v = elim (raise_cases s g v g) [
  | inl (other, _) ↦ absurd (other refl)
  | inr (_, new, _) ↦ new
]

filled_groups : (s : Maps) (g : CassUuid) (e : IpEntry) → (fill_gap s g e).groups ≡ s.groups
unfolding fill_gap
filled_groups s g e = ground arith

removed_groups : (s : Maps) (g id : CassUuid) → (incremental_removed s g id).groups ≡ s.groups
unfolding incremental_removed remove_found
removed_groups s g id = elim (Option-cases (s.entries g id)) [
  | inl gone ↦ rw gone refl
  | inr (e, there) ↦ rw there (filled_groups s g e)
]

-- The version of an added row.
added_groups :
    (s : Maps) (r : EntryRow) (h : CassUuid)
    → (add_entry older_version s r).groups h
      ≡ (raise_version older_version s r.group_id r.version).groups h
unfolding add_entry raise_version
added_groups s r h = refl

added_keeps :
    (s : Maps) (rows : List EntryRow) (h : CassUuid)
    → Reaches ((add_entries older_version s rows).groups h) (s.groups h)
unfolding add_entries
added_keeps s [] h = Reaches-refl (s.groups h)
added_keeps s (r ∷ rs) h =
    Reaches-trans ((add_entries older_version (add_entry older_version s r) rs).groups h)
      ((add_entry older_version s r).groups h) (s.groups h)
      (added_keeps (add_entry older_version s r) rs h)
      (rw (added_groups s r h) (raise_keeps s r.group_id r.version h))

-- The version of the group of each row is reached.
abbrev pub IsPast : Maps → List EntryRow → Type 0
IsPast s [] = Unit
IsPast s (r ∷ rs) = Reaches (s.groups r.group_id) r.version × IsPast s rs

added-IsPast : (s : Maps) (rows : List EntryRow) → IsPast (add_entries older_version s rows) rows
unfolding add_entries
added-IsPast s [] = tt
added-IsPast s (r ∷ rs) = (
  Reaches-trans ((add_entries older_version (add_entry older_version s r) rs).groups r.group_id)
      ((add_entry older_version s r).groups r.group_id) r.version
      (added_keeps (add_entry older_version s r) rs r.group_id)
      (rw (added_groups s r r.group_id) (raise-Reaches s r.group_id r.version)),
  added-IsPast (add_entry older_version s r) rs,
)

-- The version `v` reaches that of each row.
abbrev pub IsLast : CassUuid → List VersionRow → Type 0
IsLast v [] = Unit
IsLast v (r ∷ rs) = Reaches v r.version × IsLast v rs

IsLast-trans : (v w : CassUuid) (rs : List VersionRow) → Reaches v w → IsLast w rs → IsLast v rs
IsLast-trans v w [] p h = tt
IsLast-trans v w (r ∷ rs) p h = (Reaches-trans v w r.version p h.0, IsLast-trans v w rs p h.1)

round_groups :
    (s : Maps) (g : CassUuid) (r : VersionRow)
    → Reaches ((round s g r).groups g) (s.groups g) × Reaches ((round s g r).groups g) r.version
unfolding round
round_groups s g r =
    let removed = incremental_removed s r.group_id r.entry_id in
    let kept : (t : Maps)
        → t.groups ≡ s.groups
        → Reaches ((raise_version older_version t g r.version).groups g) (s.groups g)
          × Reaches ((raise_version older_version t g r.version).groups g) r.version =
      λ t p. (
        subst (λ m. Reaches ((raise_version older_version t g r.version).groups g) (m g)) p
            (raise_keeps t g r.version g),
        raise-Reaches t g r.version,
      ) in
    elim (Bool-cases (r.action ==ℤ pos 1)) [
      | inl act ↦ rw act (kept removed (removed_groups s r.group_id r.entry_id))
      | inr skip ↦ rw skip (kept s refl)
    ]

applied_groups :
    (s : Maps) (g : CassUuid) (rs : List VersionRow)
    → Reaches ((apply_versions s g rs).groups g) (s.groups g)
      × IsLast ((apply_versions s g rs).groups g) rs
unfolding apply_versions round
applied_groups s g [] = (Reaches-refl (s.groups g), tt)
applied_groups s g (r ∷ rs) =
    let (old, new) = round_groups s g r in
    let (keeps, last) = applied_groups (round s g r) g rs in
    let after = (apply_versions (round s g r) g rs).groups g in
    (
      Reaches-trans after ((round s g r).groups g) (s.groups g) keeps old,
      (Reaches-trans after ((round s g r).groups g) r.version keeps new, last),
    )

-- After `incrementalReload`, with the versions and the rows that the database answers, the version
-- of the group is not older than before, nor than that of any of the versions; and no row has a
-- later version than its group.
pub incremental_reload_groups :
    (versions : CassUuid → Option (List VersionRow)) (rows : CassUuid → Option (List EntryRow))
    (s : Maps) (g : CassUuid) (vs : List VersionRow) (rs : List EntryRow)
    → versions (s.groups g) ≡ some vs
    → rows (s.groups g) ≡ some rs
    → Reaches ((incremental_reload versions rows s g).groups g) (s.groups g)
      × IsLast ((incremental_reload versions rows s g).groups g) vs
      × IsPast (incremental_reload versions rows s g) rs
unfolding incremental_reload incremental_added
incremental_reload_groups versions rows s g vs rs p q =
    let (old, last) = applied_groups s g vs in
    let before = (apply_versions s g vs).groups g in
    let after = (add_entries older_version (apply_versions s g vs) rs).groups g in
    let keeps = added_keeps (apply_versions s g vs) rs g in
    rw (p, q)
      (
        Reaches-trans after before (s.groups g) keeps old,
        IsLast-trans after before vs keeps last,
        added-IsPast (apply_versions s g vs) rs,
      )
