-- ===== src/Core/Octets.antt =====
-- The bytes of a response, one by one, as RFC 1035 and RFC 6891 give them.
use edge_dns.Prelude.{
  ℕ, ◌+◌, ◌*◌, ◌/◌, ◌%◌, ◌^◌, ◌≡◌, ◌⊎◌, inl, inr, refl, ap, ap₂, Bool, true, false, Bool-cases,
  List, [], ◌∷◌, ◌++◌, ◌==◌, if◌then◌else◌, length, bit_and, arith,
}
use edge_dns.Prelude.Bits.{bit_and-odd, bit_and-even, bit_and-zero}
use edge_dns.Wire.Codec.{to_be32}
use edge_dns.Core.State.{Question}
use edge_dns.Core.Answer.{be16, resource_record}
use edge_dns.Core.Respond.{response_flags}
use edge_dns.Core.Sections.{Resource, section_bytes}
use edge_dns.Core.Whole.{header, final_flags}

-- The size of the data in two bytes, and the data, in front of which an MX record has its preference.
abbrev pub data_octets : (qtype : ℕ) → Resource → List ℕ
data_octets qtype x =
    if qtype == 15
    then (length x.rdata + 2) / 256 % 256
      ∷ (length x.rdata + 2) % 256
      ∷ x.priority / 256 % 256
      ∷ x.priority % 256
      ∷ x.rdata
    else length x.rdata / 256 % 256 ∷ length x.rdata % 256 ∷ x.rdata

-- A pointer to the name of the question, the type, the class IN, the TTL in four bytes, and the data.
abbrev pub record_octets : (qtype : ℕ) → Resource → List ℕ
record_octets qtype x =
    192
    ∷ 12
    ∷ qtype / 256 % 256
    ∷ qtype % 256
    ∷ 0
    ∷ 1
    ∷ x.ttl / 16777216 % 256
    ∷ x.ttl / 65536 % 256
    ∷ x.ttl / 256 % 256
    ∷ x.ttl % 256
    ∷ data_octets qtype x

abbrev pub section_octets : (qtype : ℕ) → List Resource → List ℕ
section_octets qtype [] = []
section_octets qtype (x ∷ xs) = record_octets qtype x ++ section_octets qtype xs

-- The ID; QR and AA, with RD as the query has it and with TC, and no error; one question, `n` answers,
-- and one additional record.
abbrev pub header_octets : (id flags : ℕ) → (truncated : Bool) → (n : ℕ) → List ℕ
header_octets id flags truncated n =
    id / 256 % 256
    ∷ id % 256
    ∷ (132 + flags / 256 % 2 + (if truncated then 2 else 0))
    ∷ 0
    ∷ 0
    ∷ 1
    ∷ n / 256 % 256
    ∷ n % 256
    ∷ 0
    ∷ 0
    ∷ 0
    ∷ 1
    ∷ []

size_octets : (a n : ℕ) → a % 2 ^ 16 ≡ n % 2 ^ 16 → be16 (a % 2 ^ 16) ≡ n / 256 % 256 ∷ n % 256 ∷ []
unfolding be16
size_octets a n h =
    let high : a % 2 ^ 16 / 256 % 256 ≡ n / 256 % 256 = omega (arith, h) in
    let low : a % 2 ^ 16 % 256 ≡ n % 256 = omega (arith, h) in ap₂ (λ x y. x ∷ y ∷ []) high low

data_octets_lem :
    (qtype : ℕ) (x : Resource)
    → (if qtype == 15
        then be16 ((2 + length x.rdata) % 2 ^ 16) ++ be16 x.priority ++ x.rdata
        else be16 (length x.rdata % 2 ^ 16) ++ x.rdata)
      ≡ data_octets qtype x
unfolding be16
data_octets_lem qtype x = elim (Bool-cases (qtype == 15)) [
  | inl mx ↦ rw mx (
      ap (λ t. t ++ be16 x.priority ++ x.rdata)
        (size_octets (2 + length x.rdata) (length x.rdata + 2) (omega arith)))
  | inr other ↦
      rw other (ap (λ t. t ++ x.rdata) (size_octets (length x.rdata) (length x.rdata) refl))
]

resource_record-octets :
    (qtype : ℕ) (x : Resource)
    → resource_record qtype x.ttl x.priority x.rdata ≡ record_octets qtype x
unfolding resource_record be16 to_be32
resource_record-octets qtype x =
    ap (λ t. be16 49164 ++ be16 qtype ++ be16 1 ++ to_be32 x.ttl ++ t) (data_octets_lem qtype x)

pub section_bytes-octets :
    (qtype : ℕ) (xs : List Resource) → section_bytes qtype xs ≡ section_octets qtype xs
unfolding section_bytes
section_bytes-octets qtype [] = refl
section_bytes-octets qtype (x ∷ xs) =
    ap₂ (λ r rs. r ++ rs) (resource_record-octets qtype x) (section_bytes-octets qtype xs)

desired : (x : ℕ) → bit_and x 256 ≡ x / 256 % 2 * 256
desired x = omega (
  arith,
  bit_and-even x (x / 2) 128 (omega arith),
  bit_and-even (x / 2) (x / 4) 64 (omega arith),
  bit_and-even (x / 4) (x / 8) 32 (omega arith),
  bit_and-even (x / 8) (x / 16) 16 (omega arith),
  bit_and-even (x / 16) (x / 32) 8 (omega arith),
  bit_and-even (x / 32) (x / 64) 4 (omega arith),
  bit_and-even (x / 64) (x / 128) 2 (omega arith),
  bit_and-even (x / 128) (x / 256) 1 (omega arith),
  bit_and-odd (x / 256) (x / 512) 0 (omega arith),
  bit_and-zero (x / 512),
)

either : (x : ℕ) → (x % 2 ≡ 0) ⊎ (x % 2 ≡ 1)
either x = elim (Bool-cases (x % 2 == 0)) [
  | inl even ↦ inl (ground (arith, even))
  | inr odd ↦ inr (ground (arith, odd))
]

pub header-octets :
    (q : Question) (truncated : Bool) (n : ℕ)
    → q.qclass ≡ 1
    → q.qdcount ≡ 1
    → header q.transaction_id (final_flags q truncated) n
      ≡ header_octets q.transaction_id q.flags truncated n
unfolding header final_flags response_flags be16
header-octets q true n c d = elim (either (q.flags / 256)) [
  | inl none_desired ↦ rw (c, d, desired q.flags, none_desired) refl
  | inr is_desired ↦ rw (c, d, desired q.flags, is_desired) refl
]
header-octets q false n c d = elim (either (q.flags / 256)) [
  | inl none_desired ↦ rw (c, d, desired q.flags, none_desired) refl
  | inr is_desired ↦ rw (c, d, desired q.flags, is_desired) refl
]
