-- ===== src/Tests/Core.antt =====
-- A response: the A record of the name `a` to a query over UDP.
use edge_dns.Prelude.{
  inl, ℕ, ◌+◌, ◌<◌, ◌≤◌, ◌≡◌, refl, true, false, Bool, List, [], ◌∷◌, ◌++◌, some, length, take,
  arith, ◌==◌, if◌then◌else◌,
}
use edge_dns.Records.State.{DnsResponseData, zero_uuid}
use edge_dns.Core.State.{Question, Job, RrlBucket, Surroundings, out_size}
use edge_dns.Core.Answer.{be16, source_of, starts_with, resource_record}
use edge_dns.Core.Respond.{respond, response_flags, frame, fix_header}
use edge_dns.Core.Fits.{answered, opt_record, respond-Roomy, respond-udp_limit}
use edge_dns.Core.Sections.{section_bytes}
use edge_dns.Core.Count.{resources, source_resources}
use edge_dns.Wire.Codec.{to_lower, to_be32}
use edge_dns.Wire.Labels.{AllLabels, wired}
use edge_dns.Core.Query.{read_query, handle}
use edge_dns.Core.Read.{Fields, AllFit, query_bytes, question_of, read_query-query_bytes}
use edge_dns.Core.All.{respond-resources}
use edge_dns.Core.Octets.{header_octets, section_octets}
use edge_dns.Core.Hit.{handle-get_record}
use edge_dns.Tests.Records.{two_records, cached_text}
use edge_dns.Core.Whole.{header, final_flags, respond-sections}

abbrev quiet : Surroundings
quiet = record {
  rate_limiting = true;
  threshold = 200;
  proxy_id = zero_uuid;
  ip_str = b'1' ∷ b'.' ∷ b'2' ∷ [];
  country = [];
  cached_entries = λ g c. [];
  stored_entries = λ g c. [];
  current = λ n. 7;
}

abbrev query : Question
query = record {
  transaction_id = 4660;
  flags = 0x0100;
  qdcount = 1;
  name_wire = 1 ∷ b'a' ∷ 0 ∷ [];
  qtype = 1;
  qclass = 1;
  edns_class = 1232;
  question = 1 ∷ b'a' ∷ 0 ∷ 0 ∷ 1 ∷ 0 ∷ 1 ∷ [];
}

abbrev found : List DnsResponseData
found =
    record {
      ttl = 300;
      priority = 0;
      rdata = 10 ∷ 0 ∷ 0 ∷ 1 ∷ [];
      group_id = zero_uuid;
      id = zero_uuid;
      bucket_idx = 21;
      is_geo = false;
      is_proxy = false;
    }
    ∷ []

abbrev untouched : RrlBucket
untouched = record { window_start = 0; responses = 0 }

respond-Roomy_example :
    (respond quiet query true false found untouched
      ≡ frame true
          (fix_header query (answered quiet query true false found untouched) ++ opt_record))
    × (length (respond quiet query true false found untouched) ≤ out_size)
respond-Roomy_example = respond-Roomy quiet query true false found untouched (omega arith)

respond-udp_limit_example :
    length (respond quiet query false true found untouched)
    ≤ 1232 + (if query.qtype == 15 then 2 else 0) + 11
respond-udp_limit_example =
    respond-udp_limit quiet query true found untouched 1232 (inl (refl, λ e. omega (arith, e)))
      (omega arith) (omega arith)

respond-sections_example :
    (n : ℕ) × (truncated : Bool) × (respond quiet query false true found untouched
      ≡ frame false (
          header 4660 (final_flags query truncated) n
          ++ query.question
          ++ section_bytes 1 (take n (resources quiet found))
          ++ opt_record))
    × (n ≤ length (resources quiet found))
    × (n < 340)
    × (n < length (resources quiet found) → truncated ≡ true)
respond-sections_example =
    respond-sections quiet query false true found untouched refl refl (omega arith)

abbrev pub txt_query : Fields
txt_query = record {
  id = 4660;
  flags = 0x0100;
  ancount = 0;
  nscount = 0;
  arcount = 1;
  qtype = 16;
  qclass = 1;
  payload = 1232;
  ttl_hi = 0;
  ttl_lo = 0;
}

pub txt_query-AllFit : AllFit txt_query
txt_query-AllFit = (omega arith, omega arith, omega arith, omega arith, omega arith)

abbrev pub label_a : List (List ℕ)
label_a = (b'a' ∷ []) ∷ []

pub label_a-AllLabels : AllLabels label_a
unfolding to_lower
label_a-AllLabels = ground arith

read_query-query_bytes_example :
    read_query false (query_bytes txt_query label_a (0 ∷ [])) ≡ some (question_of txt_query label_a)
unfolding wired
read_query-query_bytes_example =
    read_query-query_bytes txt_query label_a (0 ∷ []) txt_query-AllFit label_a-AllLabels
      (omega arith, tt) (omega arith)

handle-get_record_example :
    (n : ℕ) × (truncated : Bool) × (jobs : List Job) × (bucket' : RrlBucket) × (handle quiet
        (λ zone name qtype. [])
        two_records
        false
        untouched
        (query_bytes txt_query label_a [])
      ≡ some (
        header_octets 4660 256 truncated n
            ++ (1 ∷ 97 ∷ 0 ∷ 0 ∷ 16 ∷ 0 ∷ 1 ∷ [])
            ++ section_octets 16 (take n (resources quiet cached_text.0))
            ++ (0 ∷ 0 ∷ 41 ∷ 16 ∷ 0 ∷ 0 ∷ 0 ∷ 0 ∷ 0 ∷ 0 ∷ 0 ∷ []),
        jobs,
        bucket',
      ))
    × (n ≤ length (resources quiet cached_text.0))
    × (n < 340)
    × (n < length (resources quiet cached_text.0) → truncated ≡ true)
unfolding wired
handle-get_record_example =
    handle-get_record quiet (λ zone name qtype. []) two_records untouched txt_query label_a []
      cached_text.0 txt_query-AllFit label_a-AllLabels (omega arith, tt) (omega arith) refl
      cached_text.1

respond-resources_example :
    respond quiet query true false found untouched
    ≡ frame true (
        header 4660 (response_flags query) (length (resources quiet found))
        ++ query.question
        ++ section_bytes 1 (resources quiet found)
        ++ opt_record)
unfolding resources source_resources source_of starts_with section_bytes resource_record be16
    to_be32
respond-resources_example =
    respond-resources quiet query false found untouched refl refl (omega arith)
