-- ===== src/Core/Whole.antt =====
-- The response as a whole, byte for byte.
use edge_dns.Prelude.{
  ℕ, ◌*◌, ◌/◌, ◌%◌, ◌^◌, ◌<◌, ◌≤◌, ◌≡◌, ap, ap₂, ◌∙◌, Bool, true, bit_or, ◌==◌, ◌&&◌, List, [], ◌∷◌,
  ◌++◌, if◌then◌else◌, length, length-append, length-take, take, arith,
}
use edge_dns.Records.State.{DnsResponseData}
use edge_dns.Core.State.{Question, RrlBucket, Surroundings, Reply}
use edge_dns.Core.Answer.{be16, resource_record}
use edge_dns.Core.Respond.{
  set_byte, begin_reply, fix_header, answer_section, response_flags, frame, respond,
}
use edge_dns.Core.Sections.{Resource, section_bytes, Grows}
use edge_dns.Core.Count.{resources, put_records-Grows}
use edge_dns.Core.Fits.{
  answered, opt_record, respond-Roomy, answered-Roomy, length-resource_record, Roomy,
}

-- The header of a response: one question, `n` answers, and the OPT record.
unfoldable pub header : (id flags n : ℕ) → List ℕ
unfolding be16
header id flags n = be16 id ++ be16 flags ++ be16 1 ++ be16 n ++ be16 0 ++ be16 1

unfoldable pub final_flags : Question → Bool → ℕ
final_flags q truncated = if truncated then bit_or (response_flags q) 0x0200 else response_flags q

be16_mod : (a n : ℕ) → a % 2 ^ 16 ≡ n % 2 ^ 16 → be16 a ≡ be16 n
unfolding be16
be16_mod a n h =
    let high : a / 256 % 256 ≡ n / 256 % 256 = omega (arith, h) in
    let low : a % 256 ≡ n % 256 = omega (arith, h) in ap₂ (λ x y. x ∷ y ∷ []) high low

pub fix_header-begun :
    (q : Question) (bucket : RrlBucket) (p : Reply) (rest : List ℕ) (n : ℕ)
    → p.written ≡ (begin_reply q bucket).written ++ rest
    → p.anc % 2 ^ 16 ≡ n % 2 ^ 16
    → fix_header q p ≡ header q.transaction_id (final_flags q p.truncated) n ++ q.question ++ rest
unfolding fix_header begin_reply header final_flags set_byte be16
fix_header-begun q bucket p rest n e h =
    ap (λ t. fix_header q (record p { written = t })) e
    ∙ ap
        (λ l.
          be16 q.transaction_id
          ++ be16 (final_flags q p.truncated)
          ++ be16 1
          ++ l
          ++ be16 0
          ++ be16 1
          ++ q.question
          ++ rest)
        (be16_mod p.anc n h)

length-section_bytes :
    (qtype : ℕ) (xs : List Resource) → length xs * 12 ≤ length (section_bytes qtype xs)
unfolding section_bytes
length-section_bytes qtype [] = omega arith
length-section_bytes qtype (x ∷ xs) =
    let rr = resource_record qtype x.ttl x.priority x.rdata in
    ground (
      arith,
      length-resource_record qtype x.ttl x.priority x.rdata,
      length-append rr (section_bytes qtype xs),
      length-section_bytes qtype xs,
    )

-- What fits in an answer is fewer than 340 records.
few : {qtype : ℕ} {xs : List Resource} {p r : Reply} (g : Grows qtype xs p r) → Roomy r → g.n < 340
few {qtype} {xs} {p} {r} g small = omega (
  arith,
  ap length g.bytes,
  length-append p.written (section_bytes qtype (take g.n xs)),
  length-section_bytes qtype (take g.n xs),
  length-take g.n xs,
  g.within,
  small,
)

module _ (w : Surroundings) (q : Question) (is_tcp cache_hit : Bool) (rs : List DnsResponseData)
    (bucket : RrlBucket) where
  -- The answer to a query of class IN with one question.
  pub answered-Grows :
      q.qclass ≡ 1
      → q.qdcount ≡ 1
      → Grows q.qtype
          (resources w rs)
          (begin_reply q bucket)
          (answered w q is_tcp cache_hit rs bucket)
  unfolding answered answer_section
  answered-Grows c d =
      let asked : ((q.qclass == 1) && (q.qdcount == 1)) ≡ true = ground arith in
      rw asked (put_records-Grows w q is_tcp cache_hit 0 rs (begin_reply q bucket))

  -- A response to a query of class IN with one question, of a question section of at most 4054
  -- bytes, is, byte for byte: the header with the query's ID, one question and `n` answers; the
  -- question as it came; the first `n` of the resource records that the records found stand for;
  -- and the OPT record. There are fewer than 340 of them, so the count is `n` itself. Where they are not all there, the flag TC is set.
  pub respond-sections :
      q.qclass ≡ 1
      → q.qdcount ≡ 1
      → length q.question ≤ 4054
      → (n : ℕ) × (truncated : Bool) × (respond w q is_tcp cache_hit rs bucket
          ≡ frame is_tcp (
              header q.transaction_id (final_flags q truncated) n
              ++ q.question
              ++ section_bytes q.qtype (take n (resources w rs))
              ++ opt_record))
        × (n ≤ length (resources w rs))
        × (n < 340)
        × (n < length (resources w rs) → truncated ≡ true)
  unfolding begin_reply be16 answered
  respond-sections c d h =
      let p = answered w q is_tcp cache_hit rs bucket in
      let g = answered-Grows c d in
      let sections = section_bytes q.qtype (take g.n (resources w rs)) in
      let small = answered-Roomy w q is_tcp cache_hit rs bucket h in
      let front = header q.transaction_id (final_flags q p.truncated) g.n in
      (
        g.n,
        p.truncated,
        (respond-Roomy w q is_tcp cache_hit rs bucket h).0
            ∙ ap (λ t. frame is_tcp (t ++ opt_record))
                (fix_header-begun q bucket p sections g.n g.bytes (omega (arith, g.count))),
        g.within,
        few g small,
        g.cut,
      )
