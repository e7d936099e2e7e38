-- ===== src/Tests/Wire.antt =====
-- Runs of the wire encodings, at `www.example.com`.
use edge_dns.Prelude.{ℕ, ◌+◌, ◌≡◌, true, List, [], ◌∷◌, some, length, arith}
use edge_dns.Wire.Codec.{to_lower, string_to_wire, wire_to_domain, txt_to_wire}
use edge_dns.Wire.Labels.{AllLabels, dotted}
use edge_dns.Wire.Names.{wire_to_domain-string_to_wire}
use edge_dns.Wire.Texts.{character_strings, character_strings-txt_to_wire}

abbrev labels : List (List ℕ)
labels = (b'w' ∷ b'w' ∷ []) ∷ (b'a' ∷ b'-' ∷ b'1' ∷ []) ∷ (b'i' ∷ b'o' ∷ []) ∷ []

labels_fit : AllLabels labels
unfolding to_lower
labels_fit = ground arith

wire_to_domain-string_to_wire_example :
    wire_to_domain
      (string_to_wire (dotted labels) true)
      (length (string_to_wire (dotted labels) true))
    ≡ some (dotted labels)
wire_to_domain-string_to_wire_example = wire_to_domain-string_to_wire labels labels_fit

abbrev spf : List ℕ
spf = b'v' ∷ b'=' ∷ b'1' ∷ []

character_strings-txt_to_wire_example :
    character_strings (length spf + 2) (txt_to_wire spf) ≡ some spf
character_strings-txt_to_wire_example = character_strings-txt_to_wire spf
