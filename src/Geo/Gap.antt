-- ===== src/Geo/Gap.antt =====
-- The vector that `incrementalRemoved` shrinks.
use edge_dns.Prelude.{
  ℕ, suc, ◌<◌, ◌≡◌, ap, List, some, none, ltb, ◌==◌, if◌then◌else◌, length, get_elem?, set, arith,
}
use edge_dns.Records.State.{CassUuid, zero_uuid}
use edge_dns.Geo.State.{IpEntry, Maps}
use edge_dns.Geo.Ops.{back_or, pop_back}
use edge_dns.Geo.Vectors.{get_elem?-set, get_elem?-pop_back, length-set}

-- What `incrementalRemoved` leaves when the entry `e` of `id` is there: the vector without its place
-- `e.index_in_vector`, and the entry of the ID that was last moved there.
module _ (s : Maps) (g id : CassUuid) (e : IpEntry) where
  unfoldable pub vec : List CassUuid
  vec = s.group_entries g e.country_code

  unfoldable pub last : CassUuid
  unfolding vec
  last = back_or zero_uuid vec

  unfoldable pub shrunk : List CassUuid
  unfolding vec last
  shrunk = pop_back (set vec e.index_in_vector last)

  pub get-shrunk :
      (i : ℕ)
      → e.index_in_vector < length vec
      → get_elem? shrunk i ≡ (
          if ltb (suc i) (length vec)
          then (if i == e.index_in_vector then some last else get_elem? vec i)
          else none)
  unfolding shrunk
  get-shrunk i h = ground (
    arith,
    get_elem?-pop_back (set vec e.index_in_vector last) i,
    get_elem?-set vec e.index_in_vector i last,
    length-set vec e.index_in_vector last,
  )

pub same_index :
    (s : Maps) (g i j : CassUuid) (e f : IpEntry)
    → s.entries g i ≡ some e
    → s.entries g j ≡ some f
    → i ≡ j
    → e.index_in_vector ≡ f.index_in_vector
same_index s g i j e f p q h =
    let same : e ≡ f = cc (p, q, ap (s.entries g) h) in ap (λ (t : IpEntry). t.index_in_vector) same
