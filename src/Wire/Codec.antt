-- ===== src/Wire/Codec.antt =====
-- Names, texts and integers on the wire: `Utils::Vector` of include/Utils/Vector.hpp.
use edge_dns.Prelude.{
  ℕ, zero, suc, ◌+◌, ◌-◌, ◌*◌, ◌/◌, ◌%◌, ◌^◌, ◌&&◌, ◌||◌, Bool, List, [], ◌∷◌, ◌++◌, map, Option,
  none, some, ltb, leb, ◌==◌, if◌then◌else◌, length, take, drop, get_or, min,
}

abbrev pub dot : ℕ
dot = b'.'

-- `std::tolower` in the C locale
unfoldable pub to_lower : ℕ → ℕ
to_lower c = if leb b'A' c && leb c b'Z' then c + 32 else c

-- The bytes before the first dot, and those behind it.
unfoldable pub before_dot : List ℕ → List ℕ
before_dot [] = []
before_dot (c ∷ cs) = if c == dot then [] else c ∷ before_dot cs

unfoldable pub after_dot : List ℕ → List ℕ
after_dot [] = []
after_dot (c ∷ cs) = if c == dot then cs else after_dot cs

-- `if (!domain.empty() && domain.back() == '.') domain.pop_back();`
unfoldable pub drop_last_dot : List ℕ → List ℕ
drop_last_dot [] = []
drop_last_dot (c ∷ []) = if c == dot then [] else c ∷ []
drop_last_dot (c ∷ d ∷ cs) = c ∷ drop_last_dot (d ∷ cs)

-- The `while (pos < domain.size())` loop on what is left of the domain, with fuel.
unfoldable pub label_loop : ℕ → List ℕ → List ℕ
label_loop zero rest = []
label_loop (suc fuel) [] = []
label_loop (suc fuel) (c ∷ cs) =
    let label = before_dot (c ∷ cs) in
    (length label % 256) ∷ (label ++ label_loop fuel (after_dot (c ∷ cs)))

unfoldable pub string_to_wire : List ℕ → Bool → List ℕ
unfolding to_lower drop_last_dot
string_to_wire input zero_end =
    let domain = drop_last_dot (map to_lower input) in
    label_loop (length domain) domain ++ (if zero_end then 0 ∷ [] else [])

-- The loop of `txtToWire` on what is left of the text, with fuel.
unfoldable pub chunk_loop : ℕ → List ℕ → List ℕ
chunk_loop zero rest = []
chunk_loop (suc fuel) [] = []
chunk_loop (suc fuel) (c ∷ cs) =
    let chunk_len = min 255 (length (c ∷ cs)) in
    chunk_len ∷ (take chunk_len (c ∷ cs) ++ chunk_loop fuel (drop chunk_len (c ∷ cs)))

unfoldable pub txt_to_wire : List ℕ → List ℕ
txt_to_wire [] = 0 ∷ []
txt_to_wire (c ∷ cs) = chunk_loop (length (c ∷ cs)) (c ∷ cs)

-- The loop of `wireToDomain`: `rest` is the buffer from index `i` on and `left` is `len - i`. A read
-- behind the buffer is a fault.
unfoldable pub domain_loop : ℕ → (rest : List ℕ) (left : ℕ) (result : List ℕ) → Option (List ℕ)
domain_loop zero rest left result = none
domain_loop (suc fuel) rest zero result = some result
domain_loop (suc fuel) [] (suc left) result = none
domain_loop (suc fuel) (label_len ∷ rest) (suc left) result =
    let separator : List ℕ = if ltb 0 (length result) then dot ∷ [] else [] in
    let next =
      domain_loop fuel (drop label_len rest) (left - label_len)
        (result ++ (separator ++ take label_len rest)) in
    if label_len == 0 then some result else (if ltb (length rest) label_len then none else next)

-- `buffer` is the array that `data` points into.
unfoldable pub wire_to_domain : (buffer : List ℕ) (len : ℕ) → Option (List ℕ)
wire_to_domain buffer len = domain_loop (len + 1) buffer len []

-- The indices at which the labels begin, at most `room` of them, for the bytes from index `i` on.
unfoldable pub index_loop : (fuel room i : ℕ) → List ℕ → List ℕ
index_loop zero room i rest = []
index_loop (suc fuel) zero i rest = []
index_loop (suc fuel) (suc room) i [] = []
index_loop (suc fuel) (suc room) i (c ∷ rest) =
    let later = index_loop fuel room (i + c + 1) (drop c rest) in if c == 0 then [] else i ∷ later

-- `label_count > 2 ? label_indices[label_count - 2] : 0`
unfoldable pub start_index : List ℕ → ℕ
start_index indices = if ltb 2 (length indices) then get_or indices (length indices - 2) 0 else 0

-- What `getHostWireFromWireNoAlloc` copies to `out`.
unfoldable pub host_wire_no_alloc : (wire : List ℕ) (out_cap : ℕ) → List ℕ
unfolding start_index
host_wire_no_alloc wire out_cap =
    if (length wire == 0) || (get_or wire 0 0 == 0)
    then []
    else take out_cap (drop (start_index (index_loop (length wire) 16 0 wire)) wire)

unfoldable pub get_host_wire : List ℕ → List ℕ
unfolding start_index
get_host_wire wire =
    if (length wire == 0) || (get_or wire 0 0 == 0)
    then []
    else drop (start_index (index_loop (length wire) 16 0 wire)) wire

unfoldable pub to_be32 : ℕ → List ℕ
to_be32 val = (val / 2 ^ 24 % 256) ∷ (val / 2 ^ 16 % 256) ∷ (val / 2 ^ 8 % 256) ∷ (val % 256) ∷ []

-- The loop `for (int i = 7; i >= 0; --i)`; `n` is `i + 1`.
unfoldable pub be_loop : ℕ → ℕ → List ℕ
be_loop zero value = []
be_loop (suc i) value = (value / 2 ^ (i * 8) % 256) ∷ be_loop i value

unfoldable pub u64_to_vector_be : ℕ → List ℕ
unfolding be_loop
u64_to_vector_be value = be_loop 8 value
