-- ===== src/Wire/RData.antt =====
-- `RData::generateRData` of src/Core/RData/RData.cpp, and `splitBySpace` of include/Utils/String.hpp.
use edge_dns.Prelude.{
  ℕ, suc, ◌%◌, ◌^◌, true, List, [], ◌∷◌, ◌++◌, Option, some, ◌>>=◌, ℤ, pos, ◌==ℤ◌, leb,
  if◌then◌else◌, length,
}
use edge_dns.Wire.Codec.{string_to_wire, txt_to_wire, to_be32}
use edge_dns.Wire.Parse.{stoul, skip_space, word_loop}
use edge_dns.Wire.Ipv4.{ipv4_to_wire}

unfoldable pub split_by_space : List ℕ → List (List ℕ)
unfolding skip_space word_loop
split_by_space str = word_loop (length str) (skip_space str)

-- The loop over the fields of an SOA record; `none` is an exception of `stoul`.
unfoldable pub soa_loop : ℕ → List (List ℕ) → Option (List ℕ)
soa_loop sindex [] = some []
soa_loop sindex (p ∷ ps) =
    if leb sindex 1
    then (do rest ← soa_loop (suc sindex) ps; some (string_to_wire p true ++ rest))
    else (do val ← stoul p; rest ← soa_loop (suc sindex) ps; some (to_be32 (val % 2 ^ 32) ++ rest))

unfoldable pub generate_rdata : List ℕ → ℤ → Option (List ℕ)
unfolding soa_loop split_by_space
generate_rdata bytes type =
    if type ==ℤ pos 6
    then soa_loop 0 (split_by_space bytes)
    else (if type ==ℤ pos 1
        then some (ipv4_to_wire bytes)
        else (if type ==ℤ pos 16
            then some (txt_to_wire bytes)
            else some (string_to_wire bytes true)))
