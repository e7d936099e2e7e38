-- ===== src/Sync/Key.antt =====
-- The keys of the parameters that the sync requests carry, byte by byte.
use edge_dns.Prelude.{ℕ, List, [], ◌∷◌}

abbrev pub type : List ℕ
type = b't' ∷ b'y' ∷ b'p' ∷ b'e' ∷ []

abbrev pub zone : List ℕ
zone = b'z' ∷ b'o' ∷ b'n' ∷ b'e' ∷ []

abbrev pub rec_type : List ℕ
rec_type = b'r' ∷ b'e' ∷ b'c' ∷ b'_' ∷ type

abbrev pub ttl : List ℕ
ttl = b't' ∷ b't' ∷ b'l' ∷ []

abbrev pub priority : List ℕ
priority = b'p' ∷ b'r' ∷ b'i' ∷ b'o' ∷ b'r' ∷ b'i' ∷ b't' ∷ b'y' ∷ []

abbrev pub name : List ℕ
name = b'n' ∷ b'a' ∷ b'm' ∷ b'e' ∷ []

abbrev pub db_id : List ℕ
db_id = b'd' ∷ b'b' ∷ b'_' ∷ b'i' ∷ b'd' ∷ []

abbrev pub group_id : List ℕ
group_id = b'g' ∷ b'r' ∷ b'o' ∷ b'u' ∷ b'p' ∷ b'_' ∷ b'i' ∷ b'd' ∷ []

abbrev pub is_geo : List ℕ
is_geo = b'i' ∷ b's' ∷ b'_' ∷ b'g' ∷ b'e' ∷ b'o' ∷ []

abbrev pub is_proxy : List ℕ
is_proxy = b'i' ∷ b's' ∷ b'_' ∷ b'p' ∷ b'r' ∷ b'o' ∷ b'x' ∷ b'y' ∷ []

abbrev pub value : List ℕ
value = b'v' ∷ b'a' ∷ b'l' ∷ b'u' ∷ b'e' ∷ []

abbrev pub location_code : List ℕ
location_code =
    b'l' ∷ b'o' ∷ b'c' ∷ b'a' ∷ b't' ∷ b'i' ∷ b'o' ∷ b'n' ∷ b'_' ∷ b'c' ∷ b'o' ∷ b'd' ∷ b'e' ∷ []

abbrev pub ip_address : List ℕ
ip_address = b'i' ∷ b'p' ∷ b'_' ∷ b'a' ∷ b'd' ∷ b'd' ∷ b'r' ∷ b'e' ∷ b's' ∷ b's' ∷ []
