-- ===== src/Tests/Learned.antt =====
-- A query for the TXT record of the name `a`, of which the cache has only the A record.
use edge_dns.Prelude.{ℕ, ◌≡◌, refl, true, false, pos, List, [], ◌∷◌, some, arith}
use edge_dns.Records.Ops.{get_record}
use edge_dns.Records.Push.{pushed}
use edge_dns.Wire.Labels.{wired}
use edge_dns.Wire.Codec.{wire_to_domain, domain_loop, host_wire_no_alloc, index_loop}
use edge_dns.Core.Answer.{own, source_of}
use edge_dns.Core.Query.{find_records}
use edge_dns.Core.Respond.{respond}
use edge_dns.Core.Read.{query_bytes, question_of, read_query-query_bytes}
use edge_dns.Queue.State.{Server}
use edge_dns.Queue.Worker.{worker_round}
use edge_dns.Loop.State.{Environment, Thread}
use edge_dns.Loop.Queries.{surroundings, answer_query}
use edge_dns.Loop.Learned.{answer_query-worker_round}
use edge_dns.Tests.Records.{
  name_a, named_a, one_record, two_records, one_record-IsValid, find_bucket-one_record,
}
use edge_dns.Tests.Queue.{idle, answer, answer-IsAnswer, stored_text}
use edge_dns.Tests.Core.{txt_query, txt_query-AllFit, label_a, label_a-AllLabels}
use edge_dns.Tests.Loop.{env, thread, peer}

abbrev learner : Environment
learner = record env { database = λ zone name qtype. answer ∷ [] }

abbrev idle_thread : Thread
idle_thread = record thread { server = idle }

bucket_22 : (one_record.hash_table 22).name_hash ≡ 0
unfolding pushed
bucket_22 = refl

missing : get_record one_record name_a (pos 16) ≡ some (false, [])
unfolding get_record
missing = rw (find_bucket-one_record, bucket_22) refl

found :
    find_records learner.database one_record (question_of txt_query label_a)
    ≡ some (false, answer ∷ [])
unfolding find_records question_of wired wire_to_domain domain_loop host_wire_no_alloc index_loop
found = rw missing refl

plain : source_of (surroundings learner idle peer (λ k. 7)) answer ≡ own
unfolding source_of
plain = refl

answer_query-worker_round_example :
    (out : List ℕ) × (u : Thread) × (s : Server) × (b : ℕ) × (answer_query learner
        (λ k. 7)
        idle_thread
        false
        peer
        (query_bytes txt_query label_a [])
      ≡ some (out, u))
    × (out
        ≡ respond
            (surroundings learner idle peer (λ k. 7))
            (question_of txt_query label_a)
            false
            false
            (answer ∷ [])
            (record { window_start = 0; responses = 0 }))
    × (worker_round u.server ≡ some s)
    × (s.record_queue ≡ [])
    × (find_records learner.database s.records (question_of txt_query label_a)
        ≡ some (true, record answer { bucket_idx = b } ∷ []))
unfolding question_of wired
answer_query-worker_round_example =
    answer_query-worker_round learner (λ k. 7) idle_thread false peer
      (query_bytes txt_query label_a []) (question_of txt_query label_a) answer two_records
      one_record-IsValid refl refl named_a answer-IsAnswer plain
      (read_query-query_bytes txt_query label_a [] txt_query-AllFit label_a-AllLabels
        (omega arith, tt) (omega arith))
      refl refl missing found stored_text
