-- ===== src/Database/Session.antt =====
-- `Cassandra` of src/Cassandra/Cassandra.cpp. What the driver answers is an argument.
use edge_dns.Prelude.{
  ℕ, zero, suc, ◌+◌, ◌/◌, ◌%◌, Bool, true, ℤ, pos, negsuc, List, [], ◌∷◌, ◌++◌, Option, none, some,
  ltb, if◌then◌else◌,
}
use edge_dns.Records.State.{CassUuid}

-- What the driver reads out of a value, by its type; a double is the text that `to_string` makes of it.
pub data CassValue : Type 0 where
  text : List ℕ → CassValue
  varchar : List ℕ → CassValue
  uuid : CassUuid → CassValue
  int : ℤ → CassValue
  bigint : ℤ → CassValue
  boolean : Bool → CassValue
  double : List ℕ → CassValue
  unsupported : CassValue

-- The decimal digits of `std::to_string`, with fuel: the number itself is enough.
unfoldable pub decimal_digits : (fuel n : ℕ) → List ℕ
decimal_digits zero n = (b'0' + n % 10) ∷ []
decimal_digits (suc fuel) n =
    let higher = decimal_digits fuel (n / 10) in
    if ltb n 10 then (b'0' + n) ∷ [] else higher ++ (b'0' + n % 10) ∷ []

unfoldable pub to_string : ℤ → List ℕ
unfolding decimal_digits
to_string (pos n) = decimal_digits n n
to_string (negsuc n) = b'-' ∷ decimal_digits (suc n) (suc n)

abbrev pub true_text : List ℕ
true_text = b't' ∷ b'r' ∷ b'u' ∷ b'e' ∷ []

abbrev pub false_text : List ℕ
false_text = b'f' ∷ b'a' ∷ b'l' ∷ b's' ∷ b'e' ∷ []

abbrev pub unsupported_text : List ℕ
unsupported_text =
    b'[' ∷ b'U' ∷ b'N' ∷ b'S' ∷ b'U' ∷ b'P' ∷ b'P' ∷ b'O' ∷ b'R' ∷ b'T' ∷ b'E' ∷ b'D' ∷ b' ' ∷ b'T'
    ∷ b'Y' ∷ b'P' ∷ b'E' ∷ b']' ∷ []

-- `uuid_text` stands for `cass_uuid_string`.
unfoldable pub get_value : (uuid_text : CassUuid → List ℕ) → CassValue → List ℕ
unfolding to_string
get_value uuid_text (CassValue.text s) = s
get_value uuid_text (CassValue.varchar s) = s
get_value uuid_text (CassValue.uuid id) = uuid_text id
get_value uuid_text (CassValue.int v) = to_string v
get_value uuid_text (CassValue.bigint v) = to_string v
get_value uuid_text (CassValue.boolean v) = if v then true_text else false_text
get_value uuid_text (CassValue.double s) = s
get_value uuid_text CassValue.unsupported = unsupported_text

-- `ok` says whether the future's code is CASS_OK. The answer is the same on both branches.
unfoldable pub connect : (ok : Bool) → Bool
connect ok = if ok then true else true

-- `result` is what the future has, where its code is CASS_OK.
unfoldable pub execute : {A : Type 0} (ok : List ℕ → Bool) (result : List ℕ → A) → List ℕ → Option A
execute ok result query = if ok query then some (result query) else none
