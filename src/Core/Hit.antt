-- ===== src/Core/Hit.antt =====
-- The handler as a whole, for a name that is in the cache.
use edge_dns.Prelude.{
  ℕ, ◌<◌, ◌≤◌, ◌≡◌, refl, ap, ap₂, ◌∙◌, ◌/◌, ◌%◌, Bool, true, false, List, [], ◌∷◌, ◌++◌, some, pos,
  length, length-append, take, arith,
}
use edge_dns.Records.State.{Mmap, DnsResponseData}
use edge_dns.Records.Ops.{get_record}
use edge_dns.Wire.Labels.{AllLabels, wired}
use edge_dns.Core.State.{Job, RrlBucket, Surroundings}
use edge_dns.Core.Answer.{be16}
use edge_dns.Core.Respond.{begin_reply, respond, answer_section, frame}
use edge_dns.Core.Query.{find_records, handle}
use edge_dns.Core.Read.{Fields, AllFit, AllShort, query_bytes, question_of, read_query-query_bytes}
use edge_dns.Core.Count.{resources}
use edge_dns.Core.Fits.{opt_record}
use edge_dns.Core.Whole.{respond-sections}
use edge_dns.Core.Octets.{header_octets, section_octets, header-octets, section_bytes-octets}

module _ (w : Surroundings) (database : List ℕ → List ℕ → ℕ → List DnsResponseData) (m : Mmap)
    (bucket : RrlBucket) (f : Fields) (ls : List (List ℕ)) (tail : List ℕ)
    (rs : List DnsResponseData) where
  find_records-hit :
      get_record m (wired ls ++ 0 ∷ []) (pos f.qtype) ≡ some (true, rs)
      → find_records database m (question_of f ls) ≡ some (true, rs)
  unfolding find_records question_of
  find_records-hit e = rw e refl

  -- A query over UDP of class IN with one question and an OPT record, of nonempty lower-case labels of
  -- at most 63 bytes that take less than 256 bytes on the wire, for a name and type that the cache has
  -- records for: the handler ends without a fault, and its response is, byte for byte: the header (the
  -- query's ID; QR, AA, the RD of the query, no error; one question, `n` answers and one additional
  -- record); the question; the first `n` of the resource records that the cached records stand for,
  -- each with a pointer to the name, the type, the class IN, its TTL in four bytes and its data behind
  -- their size; and the OPT record. Where they are not all there, TC is set.
  pub handle-get_record :
      AllFit f
      → AllLabels ls
      → AllShort ls
      → length (wired ls) < 256
      → f.qclass ≡ 1
      → get_record m (wired ls ++ 0 ∷ []) (pos f.qtype) ≡ some (true, rs)
      → (n : ℕ) × (truncated : Bool) × (jobs : List Job) × (bucket' : RrlBucket) × (handle w
            database m false bucket
            (query_bytes f ls tail)
          ≡ some (
            header_octets f.id f.flags truncated n
                ++ (wired ls ++ 0 ∷ f.qtype / 256 % 256 ∷ f.qtype % 256 ∷ 0 ∷ 1 ∷ [])
                ++ section_octets f.qtype (take n (resources w rs))
                ++ (0 ∷ 0 ∷ 41 ∷ 16 ∷ 0 ∷ 0 ∷ 0 ∷ 0 ∷ 0 ∷ 0 ∷ 0 ∷ []),
            jobs,
            bucket',
          ))
        × (n ≤ length (resources w rs))
        × (n < 340)
        × (n < length (resources w rs) → truncated ≡ true)
  unfolding handle respond question_of frame be16
  handle-get_record fit h s size in_class hit =
      let q = question_of f ls in
      let question_size : length q.question ≤ 4054 =
        omega (arith, size, length-append (wired ls) (0 ∷ (be16 f.qtype ++ be16 f.qclass))) in
      let (n, truncated, bytes, within, few, cut) =
        respond-sections w q false true rs bucket in_class refl question_size in
      let p = answer_section w q false true rs (begin_reply q bucket) in
      let asked : be16 f.qclass ≡ 0 ∷ 1 ∷ [] = rw in_class refl in
      let octets =
        bytes
        ∙ ap₂ (λ a b. a ++ q.question ++ b ++ opt_record)
            (header-octets q truncated n in_class refl)
            (section_bytes-octets f.qtype (take n (resources w rs)))
        ∙ ap
            (λ c.
              header_octets f.id f.flags truncated n
              ++ (wired ls ++ 0 ∷ (be16 f.qtype ++ c))
              ++ section_octets f.qtype (take n (resources w rs))
              ++ opt_record)
            asked in
      (
        n,
        truncated,
        p.jobs,
        p.bucket,
        rw (read_query-query_bytes f ls tail fit h s size, find_records-hit hit)
            (ap (λ (t : List ℕ). some (t, p.jobs, p.bucket)) octets),
        within,
        few,
        cut,
      )
