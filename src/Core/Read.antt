-- ===== src/Core/Read.antt =====
-- What is read of a well-formed query.
use edge_dns.Prelude.{
  ℕ, zero, suc, ◌+◌, ◌*◌, ◌/◌, ◌%◌, ◌^◌, ◌<◌, ◌≤◌, ◌≡◌, refl, sym, ap, ap₂, ◌∙◌, false, List, [],
  ◌∷◌, ◌++◌, map, some, ◌==◌, length, length-append, take, drop, take-append-length,
  drop-append-length, arith,
}
use mathlib.Core.List.{append_assoc}
use edge_dns.Wire.Codec.{to_lower}
use edge_dns.Wire.Labels.{AllLabels, AllChars, wired}
use edge_dns.Core.State.{Question}
use edge_dns.Core.Answer.{be16}
use edge_dns.Core.Query.{read16, skip_name, name_of, read_query, lower_byte}

skip_name-wired :
    (fuel : ℕ) (ls : List (List ℕ)) (rest : List ℕ)
    → AllLabels ls
    → length (wired ls) < fuel
    → skip_name fuel (wired ls ++ 0 ∷ rest) ≡ some (wired ls ++ 0 ∷ [], rest)
unfolding skip_name wired
skip_name-wired zero ls rest h f = absurd (omega arith)
skip_name-wired (suc fuel) [] rest h f = refl
skip_name-wired (suc fuel) (l ∷ ls) rest h f =
    let tail = wired ls ++ 0 ∷ rest in
    let taken : take (length l) ((l ++ wired ls) ++ 0 ∷ rest) ≡ l =
      rw (append_assoc l (wired ls) (0 ∷ rest), take-append-length l tail) refl in
    let dropped : drop (length l) ((l ++ wired ls) ++ 0 ∷ rest) ≡ tail =
      rw (append_assoc l (wired ls) (0 ∷ rest), drop-append-length l tail) refl in
    let long : 0 < length l = h.0.0 in
    let nonempty : (length l == 0) ≡ false = ground (arith, long) in
    let again = skip_name-wired fuel ls rest h.1 (omega (arith, length-append l (wired ls), f)) in
    rw (nonempty, taken, dropped, again)
      (ap (λ t. some (length l ∷ t, rest)) (sym (append_assoc l (wired ls) (0 ∷ []))))

-- Labels of the length that RFC 1035 allows.
abbrev pub AllShort : List (List ℕ) → Type 0
AllShort [] = Unit
AllShort (l ∷ ls) = (length l ≤ 63) × AllShort ls

pub take-all : (n : ℕ) (xs : List ℕ) → length xs ≤ n → take n xs ≡ xs
take-all zero [] h = refl
take-all zero (x ∷ xs) h = absurd (omega arith)
take-all (suc n) [] h = refl
take-all (suc n) (x ∷ xs) h = ap (◌∷◌ x) (take-all n xs (omega arith))

map-lower_byte :
    (l rest : List ℕ) → AllChars l → map lower_byte (l ++ rest) ≡ l ++ map lower_byte rest
unfolding lower_byte to_lower
map-lower_byte [] rest h = refl
map-lower_byte (c ∷ cs) rest h = ap₂ ◌∷◌ h.0.1 (map-lower_byte cs rest h.1)

map-lower_byte-wired :
    (ls : List (List ℕ))
    → AllLabels ls
    → AllShort ls
    → map lower_byte (wired ls ++ 0 ∷ []) ≡ wired ls ++ 0 ∷ []
unfolding wired lower_byte
map-lower_byte-wired [] h s = refl
map-lower_byte-wired (l ∷ ls) h s =
    let kept : lower_byte (length l) ≡ length l = ground (arith, s.0) in
    rw (append_assoc l (wired ls) (0 ∷ [])) (
      ap₂ ◌∷◌ kept (
        map-lower_byte l (wired ls ++ 0 ∷ []) h.0.2
        ∙ ap (◌++◌ l) (map-lower_byte-wired ls h.1 s.1)))

name_of-wired :
    (ls : List (List ℕ))
    → AllLabels ls
    → AllShort ls
    → length (wired ls) < 256
    → name_of (wired ls ++ 0 ∷ []) ≡ wired ls ++ 0 ∷ []
unfolding name_of
name_of-wired ls h s f =
    let size = length-append (wired ls) (0 ∷ []) in
    ap (map lower_byte) (take-all 256 (wired ls ++ 0 ∷ []) (omega (arith, size, f)))
    ∙ map-lower_byte-wired ls h s

pub record Fields : Type 0 where
  pub id : ℕ
  pub flags : ℕ
  pub ancount : ℕ
  pub nscount : ℕ
  pub arcount : ℕ
  pub qtype : ℕ
  pub qclass : ℕ
  pub payload : ℕ
  pub ttl_hi : ℕ
  pub ttl_lo : ℕ

abbrev pub AllFit : Fields → Type 0
AllFit f =
    (f.id < 2 ^ 16)
    × (f.flags < 2 ^ 16)
    × (f.qtype < 2 ^ 16)
    × (f.qclass < 2 ^ 16)
    × (f.payload < 2 ^ 16)

-- The type, the class and the OPT record.
unfoldable pub behind_name : Fields → List ℕ → List ℕ
unfolding be16
behind_name f tail =
    be16 f.qtype
    ++ be16 f.qclass
    ++ 0 ∷ (be16 41 ++ be16 f.payload ++ be16 f.ttl_hi ++ be16 f.ttl_lo ++ be16 0 ++ tail)

-- A query of one question with an OPT record.
unfoldable pub query_bytes : Fields → List (List ℕ) → List ℕ → List ℕ
unfolding be16 behind_name
query_bytes f ls tail =
    be16 f.id
    ++ be16 f.flags
    ++ be16 1
    ++ be16 f.ancount
    ++ be16 f.nscount
    ++ be16 f.arcount
    ++ wired ls
    ++ 0 ∷ behind_name f tail

join : (v : ℕ) → v < 2 ^ 16 → v / 256 % 256 * 256 + v % 256 ≡ v
join v h = omega arith

-- What such a query says.
unfoldable pub question_of : Fields → List (List ℕ) → Question
question_of f ls = record {
  transaction_id = f.id;
  flags = f.flags;
  qdcount = 1;
  name_wire = wired ls ++ 0 ∷ [];
  qtype = f.qtype;
  qclass = f.qclass;
  edns_class = f.payload;
  question = wired ls ++ 0 ∷ (be16 f.qtype ++ be16 f.qclass);
}

-- A query over UDP with one question and an OPT record, whatever follows it, of nonempty lower-case
-- labels of at most 63 bytes that take less than 256 bytes on the wire, is read as what it says, and
-- never behind its end.
pub read_query-query_bytes :
    (f : Fields) (ls : List (List ℕ)) (tail : List ℕ)
    → AllFit f
    → AllLabels ls
    → AllShort ls
    → length (wired ls) < 256
    → read_query false (query_bytes f ls tail) ≡ some (question_of f ls)
unfolding read_query read16 query_bytes behind_name be16 question_of
read_query-query_bytes f ls tail (i, g, t, c, y) h s n =
    let rest = behind_name f tail in
    let long = length-append (wired ls) (0 ∷ rest) in
    let name =
      skip_name-wired (suc (length (query_bytes f ls tail))) ls rest h (omega (arith, long)) in
    rw
      (
        name,
        name_of-wired ls h s n,
        join f.id i,
        join f.flags g,
        join f.qtype t,
        join f.qclass c,
        join f.payload y,
      )
      (ap (λ q. some (record (question_of f ls) { question = q }))
        (append_assoc (wired ls) (0 ∷ []) (be16 f.qtype ++ be16 f.qclass)))
