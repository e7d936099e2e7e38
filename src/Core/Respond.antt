-- ===== src/Core/Respond.antt =====
-- The rest of the response: lines 772 to 795 and 1035 to 1065 of src/Core/Core.cpp.
use edge_dns.Prelude.{
  ℕ, zero, suc, ◌+◌, ◌-◌, ◌/◌, ◌%◌, ◌&&◌, bit_and, bit_or, Bool, false, List, [], ◌∷◌, ◌++◌, ltb,
  ◌==◌, if◌then◌else◌, length, take,
}
use edge_dns.Records.State.{DnsResponseData}
use edge_dns.Wire.Codec.{to_be32}
use edge_dns.Core.State.{Question, RrlBucket, Surroundings, Reply, out_size}
use edge_dns.Core.Answer.{be16, put_records}

unfoldable pub response_flags : Question → ℕ
response_flags q =
    let mirrored = bit_or (bit_or 0x8000 (bit_and q.flags 0x0100)) 0x0400 in
    let class_checked = if q.qclass == 1 then mirrored else bit_or mirrored 0x0004 in
    if q.qdcount == 1 then class_checked else bit_or class_checked 0x0001

-- `out[i] = v`
unfoldable pub set_byte : List ℕ → ℕ → ℕ → List ℕ
set_byte [] i v = []
set_byte (b ∷ bs) zero v = v ∷ bs
set_byte (b ∷ bs) (suc i) v = b ∷ set_byte bs i v

-- The header, with its counts not yet known, and the question.
unfoldable pub begin_reply : Question → RrlBucket → Reply
unfolding be16 response_flags
begin_reply q bucket = record {
  written =
      be16 q.transaction_id
      ++ be16 (response_flags q)
      ++ be16 1
      ++ be16 0
      ++ be16 0
      ++ be16 0
      ++ q.question;
  anc = 0;
  truncated = false;
  jobs = [];
  bucket = bucket;
}

unfoldable pub fix_header : Question → Reply → List ℕ
unfolding set_byte response_flags
fix_header q p =
    let flags = if p.truncated then bit_or (response_flags q) 0x0200 else response_flags q in
    let counted = set_byte (set_byte p.written 6 (p.anc / 256 % 256)) 7 (p.anc % 256) in
    let flagged = set_byte (set_byte counted 2 (flags / 256 % 256)) 3 (flags % 256) in
    set_byte (set_byte flagged 10 0) 11 1

unfoldable pub add_opt : List ℕ → List ℕ
unfolding be16 to_be32
add_opt out =
    let kept = if ltb out_size (length out + 11) then take (out_size - 11) out else out in
    kept ++ 0 ∷ (be16 41 ++ be16 4096 ++ to_be32 0 ++ be16 0)

unfoldable pub frame : (is_tcp : Bool) → List ℕ → List ℕ
unfolding be16
frame is_tcp out = if is_tcp then be16 (length out) ++ out else out

unfoldable pub answer_section :
    Surroundings → Question → (is_tcp cache_hit : Bool) → List DnsResponseData → Reply → Reply
answer_section w q is_tcp cache_hit records p =
    if (q.qclass == 1) && (q.qdcount == 1) then put_records w q is_tcp cache_hit 0 records p else p

-- The response for a query that was read, and the records that were found for it. The result is
-- `out` up to `rlen`.
unfoldable pub respond :
    Surroundings → Question → (is_tcp cache_hit : Bool) → List DnsResponseData → RrlBucket → List ℕ
unfolding begin_reply fix_header add_opt frame answer_section
respond w q is_tcp cache_hit records bucket =
    frame is_tcp
      (add_opt (fix_header q (answer_section w q is_tcp cache_hit records (begin_reply q bucket))))
