-- ===== src/Geo/State.antt =====
-- The maps `groups`, `entries` and `group_entries`, as functions. A key that is missing from
-- `groups` or from `group_entries` has what `operator[]` creates: a zero version, an empty vector.
use edge_dns.Prelude.{ℕ, ℤ, List, [], ◌∷◌, Option, ap, ap₂, refl}
use mathlib.Core.Logic.{ite}
use native.Mathlib.Decide.{ℕ_discrete}
use edge_dns.Records.State.{CassUuid}

-- `operator==` of `CassUuid`, and that of `std::string`
unfoldable pub uuid_dec : Discrete CassUuid
uuid_dec a b = elim (ℕ_discrete a.time_and_version b.time_and_version) [
  | no p ↦ no (λ e. p (ap (λ (u : CassUuid). u.time_and_version) e))
  | yes p ↦ elim (ℕ_discrete a.clock_seq_and_node b.clock_seq_and_node) [
    | no q ↦ no (λ e. q (ap (λ (u : CassUuid). u.clock_seq_and_node) e))
    | yes q ↦ yes (λ i. record { time_and_version = p i; clock_seq_and_node = q i })
  ]
]

unfoldable pub string_dec : Discrete (List ℕ)
string_dec [] [] = yes refl
string_dec [] (d ∷ ds) = no (λ e. cc)
string_dec (c ∷ cs) [] = no (λ e. cc)
string_dec (c ∷ cs) (d ∷ ds) = elim (ℕ_discrete c d) [
  | no p ↦ no (λ e. p (cc))
  | yes p ↦ elim (string_dec cs ds) [ no q ↦ no (λ e. q (cc)) | yes q ↦ yes (ap₂ ◌∷◌ p q) ]
]

pub record IpEntry : Type 0 where
  pub country_code : List ℕ
  pub ip : List ℕ
  pub priority : ℤ
  pub index_in_vector : ℕ

pub record Maps : Type 0 where
  pub groups : CassUuid → CassUuid
  pub entries : CassUuid → CassUuid → Option IpEntry
  pub group_entries : CassUuid → List ℕ → List CassUuid

-- `groups[g].version = v`
abbrev pub set_version : Maps → CassUuid → CassUuid → Maps
set_version s g v = record s { groups = λ h. ite (uuid_dec h g) v (s.groups h) }

-- `entries[g][id] = e`, or `entries[g].erase(id)`
abbrev pub put_entry : Maps → CassUuid → CassUuid → Option IpEntry → Maps
put_entry s g id e = record s {
  entries = λ h j. ite (uuid_dec h g) (ite (uuid_dec j id) e (s.entries h j)) (s.entries h j);
}

-- `group_entries[g][c] = vec`
abbrev pub put_vec : Maps → CassUuid → List ℕ → List CassUuid → Maps
put_vec s g c vec = record s {
  group_entries = λ h d.
      ite (uuid_dec h g) (ite (string_dec d c) vec (s.group_entries h d)) (s.group_entries h d);
}
