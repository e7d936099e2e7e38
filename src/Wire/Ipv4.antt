-- ===== src/Wire/Ipv4.antt =====
-- `ipv4ToWire` of include/Utils/Vector.hpp.
use edge_dns.Prelude.{
  ℕ, zero, suc, List, [], ◌∷◌, ◌++◌, Option, none, some, ℤ, pos, negsuc, ltb, ◌==◌, if◌then◌else◌,
  length,
}
use edge_dns.Wire.Codec.{before_dot, after_dot}
use edge_dns.Wire.Parse.{stoi}

-- One part: a value outside a byte and an exception of `stoi` make the function return {}.
unfoldable pub byte_of : Option ℤ → Option ℕ
byte_of none = none
byte_of (some (negsuc k)) = none
byte_of (some (pos n)) = if ltb 255 n then none else some n

-- The `getline` loop on what is left of the address, with fuel.
unfoldable pub part_loop : ℕ → (rest wire : List ℕ) → List ℕ
unfolding byte_of
part_loop zero rest wire = []
part_loop (suc fuel) [] wire = if length wire == 4 then wire else []
part_loop (suc fuel) (c ∷ cs) wire = elim (byte_of (stoi (before_dot (c ∷ cs)))) [
  | none ↦ []
  | some byte ↦ part_loop fuel (after_dot (c ∷ cs)) (wire ++ byte ∷ [])
]

unfoldable pub ipv4_to_wire : List ℕ → List ℕ
ipv4_to_wire ip = part_loop (suc (length ip)) ip []
