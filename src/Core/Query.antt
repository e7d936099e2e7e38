-- ===== src/Core/Query.antt =====
-- How `Core::handle` reads a query, lines 685 to 733 of src/Core/Core.cpp, and the handler as a
-- whole. A position in the buffer is what the buffer holds from there on, and `none` is a read
-- behind its end.
use edge_dns.Prelude.{
  ℕ, zero, suc, ◌+◌, ◌*◌, ◌&&◌, Bool, true, false, pos, List, [], ◌∷◌, ◌++◌, map, Option, none,
  some, ◌>>=◌, leb, ◌==◌, if◌then◌else◌, length, take, drop,
}
use edge_dns.Records.State.{Mmap, DnsResponseData}
use edge_dns.Records.Ops.{get_record}
use edge_dns.Wire.Codec.{wire_to_domain, host_wire_no_alloc}
use edge_dns.Core.State.{Question, Job, RrlBucket, Surroundings}
use edge_dns.Core.Respond.{begin_reply, fix_header, add_opt, frame, answer_section}

-- `read16`
unfoldable pub read16 : List ℕ → Option (ℕ × List ℕ)
read16 [] = none
read16 (hi ∷ []) = none
read16 (hi ∷ lo ∷ rest) = some (hi * 256 + lo, rest)

-- The `while (buffer[offset] != 0)` loop, with fuel: the bytes up to the zero, with it, and the rest.
unfoldable pub skip_name : ℕ → List ℕ → Option (List ℕ × List ℕ)
skip_name zero rest = none
skip_name (suc fuel) [] = none
skip_name (suc fuel) (len ∷ rest) =
    let later = skip_name fuel (drop len rest) in
    if len == 0
    then some (0 ∷ [], rest)
    else (do (name, after) ← later; some (len ∷ (take len rest ++ name), after))

unfoldable pub lower_byte : ℕ → ℕ
lower_byte c = if leb b'A' c && leb c b'Z' then c + 32 else c

-- `nameWire`, cut at its 256 bytes
unfoldable pub name_of : List ℕ → List ℕ
unfolding lower_byte
name_of name = map lower_byte (take 256 name)

unfoldable pub read_query : (is_tcp : Bool) → List ℕ → Option Question
unfolding read16 skip_name name_of
read_query is_tcp buffer = do
  let start = if is_tcp then drop 2 buffer else buffer
  (transaction_id, r₁) ← read16 start
  (flags, r₂) ← read16 r₁
  (qdcount, r₃) ← read16 r₂
  (_, r₄) ← read16 r₃
  (_, r₅) ← read16 r₄
  (_, r₆) ← read16 r₅
  (name, r₇) ← skip_name (suc (length buffer)) r₆
  (qtype, r₈) ← read16 r₇
  (qclass, r₉) ← read16 r₈
  (_, e₁) ← read16 (drop 1 r₉)
  (edns_class, e₂) ← read16 e₁
  (_, e₃) ← read16 e₂
  (_, e₄) ← read16 e₃
  (_, e₅) ← read16 e₄
  some (record {
    transaction_id = transaction_id;
    flags = flags;
    qdcount = qdcount;
    name_wire = name_of name;
    qtype = qtype;
    qclass = qclass;
    edns_class = edns_class;
    question = name ++ take 4 r₇;
  })

-- What the cache answers, or else the database, which is asked for the zone, the name and the type.
unfoldable pub find_records :
    (database : List ℕ → List ℕ → ℕ → List DnsResponseData)
    → Mmap
    → Question
    → Option (Bool × List DnsResponseData)
find_records database m q = do
  (cache_hit, records) ← get_record m q.name_wire (pos q.qtype)
  if cache_hit then some (true, records) else (do
    name ← wire_to_domain q.name_wire (length q.name_wire)
    let zone_wire = host_wire_no_alloc q.name_wire 256
    zone ← wire_to_domain zone_wire (length zone_wire)
    some (false, database zone name q.qtype))

-- The response, with the cache writes that are queued and the client's rate limit bucket.
unfoldable pub handle :
    Surroundings
    → (database : List ℕ → List ℕ → ℕ → List DnsResponseData) → Mmap
    → (is_tcp : Bool) → RrlBucket
    → List ℕ
    → Option (List ℕ × List Job × RrlBucket)
unfolding read_query find_records begin_reply fix_header add_opt frame answer_section
handle w database m is_tcp bucket buffer = do
  q ← read_query is_tcp buffer
  (cache_hit, records) ← find_records database m q
  let p = answer_section w q is_tcp cache_hit records (begin_reply q bucket)
  some (frame is_tcp (add_opt (fix_header q p)), p.jobs, p.bucket)
