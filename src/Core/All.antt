-- ===== src/Core/All.antt =====
-- The response over TCP when everything fits.
use edge_dns.Prelude.{
  ℕ, zero, suc, ◌+◌, ◌≤◌, ◌≡◌, refl, ap, ◌∙◌, Bool, true, false, ◌==◌, ◌&&◌, List, [], ◌∷◌, ◌++◌,
  length, take, arith,
}
use native.Mathlib.Decide.{dec_lt}
use edge_dns.Records.State.{DnsResponseData}
use edge_dns.Core.State.{Question, RrlBucket, Surroundings, out_size}
use edge_dns.Core.Respond.{begin_reply, answer_section, frame, respond, response_flags}
use edge_dns.Core.Sections.{Resource, section_bytes}
use edge_dns.Core.Count.{resources}
use edge_dns.Core.Complete.{Spare, put_records-Spare}
use edge_dns.Core.Fits.{answered, opt_record, respond-Roomy, length-begin_reply}
use edge_dns.Core.Whole.{header, final_flags, fix_header-begun, answered-Grows}

take_whole : (n : ℕ) (xs : List Resource) → n ≡ length xs → take n xs ≡ xs
take_whole zero [] h = refl
take_whole zero (x ∷ xs) h = absurd (omega arith)
take_whole (suc n) [] h = refl
take_whole (suc n) (x ∷ xs) h = ap (◌∷◌ x) (take_whole n xs (omega arith))

begun_clear : (q : Question) (bucket : RrlBucket) → (begin_reply q bucket).truncated ≡ false
unfolding begin_reply
begun_clear q bucket = refl

module _ (w : Surroundings) (q : Question) (cache_hit : Bool) (rs : List DnsResponseData)
    (bucket : RrlBucket) (in_class : q.qclass ≡ 1) (alone : q.qdcount ≡ 1)
    (room : 12 + length q.question + length (section_bytes q.qtype (resources w rs)) + 32
      ≤ out_size) where
  answered-Spare : Spare (answered w q true cache_hit rs bucket) 0
  unfolding answered answer_section
  answered-Spare =
      let asked : ((q.qclass == 1) && (q.qdcount == 1)) ≡ true = ground arith in
      let clear : (begin_reply q bucket).truncated ≡ false = begun_clear q bucket in
      rw asked (
        put_records-Spare w q cache_hit 0 rs (begin_reply q bucket)
          (clear, omega (arith, room, length-begin_reply q bucket)))

  -- A response over TCP to a query of class IN with one question, of which header, question and all
  -- the resource records that the records found stand for leave 32 bytes of `out`, holds every one
  -- of them, and TC is not set.
  pub respond-resources :
      respond w q true cache_hit rs bucket
      ≡ frame true (
          header q.transaction_id (response_flags q) (length (resources w rs))
          ++ q.question
          ++ section_bytes q.qtype (resources w rs)
          ++ opt_record)
  unfolding answered begin_reply final_flags
  respond-resources =
      let p = answered w q true cache_hit rs bucket in
      let g = answered-Grows w q true cache_hit rs bucket in_class alone in
      let all : g.n ≡ length (resources w rs) = elim (dec_lt g.n (length (resources w rs))) [
        | yes l ↦ absurd (cc (g.cut l, answered-Spare.0))
        | no l ↦ omega (arith, l, g.within)
      ] in
      let sections = section_bytes q.qtype (resources w rs) in
      let bytes : p.written ≡ (begin_reply q bucket).written ++ sections =
        g.bytes
        ∙ ap (λ t. (begin_reply q bucket).written ++ section_bytes q.qtype t)
            (take_whole g.n (resources w rs) all) in
      let fixed =
        fix_header-begun q bucket p sections (length (resources w rs)) bytes
          (omega (arith, g.count, all)) in
      (respond-Roomy w q true cache_hit rs bucket (omega (arith, room))).0
      ∙ ap (λ t. frame true (t ++ opt_record)) fixed
      ∙ ap
          (λ (t : Bool). frame true (
            header q.transaction_id (final_flags q t) (length (resources w rs))
            ++ q.question
            ++ sections
            ++ opt_record))
          answered-Spare.0
