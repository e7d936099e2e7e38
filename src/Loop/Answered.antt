-- ===== src/Loop/Answered.antt =====
-- Messages that are served to the end.
use edge_dns.Prelude.{
  ℕ, ◌≡◌, refl, inl, inr, ◌&&◌, not, Bool, Bool-cases, true, false, ℤ, pos, List, [], ◌||◌, ==_iff,
  Option, Option-cases, some, ◌==◌, length,
}
use edge_dns.Records.State.{CassUuid, DnsResponseData, Mmap, max_data_records, no_bucket}
use edge_dns.Records.Hash.{calculate_hash}
use edge_dns.Records.Probe.{find_bucket-Finds}
use edge_dns.Records.Ops.{collect, is_nonempty, get_record}
use edge_dns.Records.Valid.{IsValid}
use edge_dns.Groups.State.{GroupMmap}
use edge_dns.Wire.Codec.{wire_to_domain, host_wire_no_alloc}
use edge_dns.Core.State.{Question}
use edge_dns.Core.Respond.{begin_reply, answer_section, respond}
use edge_dns.Core.Query.{read_query, find_records, handle}
use edge_dns.Sync.Key
use edge_dns.Sync.Params.{c_string, get_param}
use edge_dns.Sync.Request.{RecordParams, read_record_params}
use edge_dns.Sync.Response.{response_text}
use edge_dns.Sync.Handler.{SyncResponse, char_at, is_op, dispatch, sync_with, handle_sync}
use edge_dns.Sync.Safe.{IsBad, handle_records-IsValid}
use edge_dns.Sync.Whole.{IsNamedRequest}
use edge_dns.Uring.Pipeline.{
  Connection, udp_type, tcp_type, sync_type, queue_write_udp, queue_write_tcp,
}
use edge_dns.Loop.State.{Peer, Message, Event, Environment, Thread, put_connection, submit}
use edge_dns.Loop.Queries.{queue_jobs, surroundings, zone_key, set_rrl, answer_query}
use edge_dns.Loop.Served.{IsNamedMessage}
use edge_dns.Loop.Events.{query_buf_of, serve_sync, serve_tcp, send_context, serve_udp, serve}

-- The query can be read, and so can its name and its zone.
pub record IsReadable (is_tcp : Bool) (query_buf : List ℕ) : Type 0 where
  pub question : Question
  pub name : List ℕ
  pub zone : List ℕ
  pub read : read_query is_tcp query_buf ≡ some question
  pub name_read : wire_to_domain question.name_wire (length question.name_wire) ≡ some name
  pub zone_read :
      wire_to_domain
        (host_wire_no_alloc question.name_wire 256)
        (length (host_wire_no_alloc question.name_wire 256))
      ≡ some zone

-- The request is a text, not one on the entries of groups, and its numbers and its value are good.
pub record IsRecordRequest (query_buf : List ℕ) : Type 0 where
  pub text : List ℕ
  pub ended : c_string query_buf ≡ some text
  pub of_records :
      (kind : List ℕ)
      → get_param text Key.type 32 ≡ some kind
      → ((char_at kind 0 == b'1') && (char_at kind 1 == b'-')) ≡ false
  pub good : (p : RecordParams) → read_record_params text ≡ some p → ¬ IsBad text p

-- What a connection of each type asks of a message.
pub record IsServable (type : ℕ) (message : Message) : Type 0 where
  pub by_sync : type ≡ sync_type → IsRecordRequest (query_buf_of message.payload)
  pub by_tcp : type ≡ tcp_type → IsReadable true (query_buf_of message.payload)
  pub by_udp : type ≡ udp_type → IsReadable false (query_buf_of message.payload)

get_record_returns :
    (m : Mmap) (name : List ℕ) (qtype : ℤ)
    → (hit : Bool) × (rs : List DnsResponseData) × (get_record m name qtype ≡ some (hit, rs))
unfolding get_record
get_record_returns m name qtype =
    let (b, run, _) = find_bucket-Finds m (calculate_hash name) qtype in
    elim (Bool-cases ((b == no_bucket) || ((m.hash_table b).name_hash == 0))) [
      | inl missing ↦ (false, [], rw (run, missing) refl)
      | inr there ↦
          let out = collect max_data_records m (m.hash_table b).head_slot_idx in
          (is_nonempty out, out, rw (run, there) refl)
    ]

find_records_returns :
    (database : List ℕ → List ℕ → ℕ → List DnsResponseData) (m : Mmap) (is_tcp : Bool)
    (query_buf : List ℕ) (r : IsReadable is_tcp query_buf)
    → (hit : Bool) × (rs : List DnsResponseData) × (find_records database m r.question
        ≡ some (hit, rs))
unfolding find_records
find_records_returns database m is_tcp query_buf r =
    let (hit, rs, run) = get_record_returns m r.question.name_wire (pos r.question.qtype) in
    elim (Bool-cases hit) [
      | inl there ↦ (true, rs, rw (run, there) refl)
      | inr missing ↦ (
        false,
        database r.zone r.name r.question.qtype,
        rw (run, missing, r.name_read, r.zone_read) refl,
      )
    ]

answer_query_returns :
    (env : Environment) (current : ℕ → ℕ) (t : Thread) (is_tcp : Bool) (peer : Peer)
    (query_buf : List ℕ)
    → IsReadable is_tcp query_buf
    → (out : List ℕ) × (u : Thread) × (answer_query env current t is_tcp peer query_buf
        ≡ some (out, u))
unfolding answer_query set_rrl handle respond
answer_query_returns env current t is_tcp peer query_buf r =
    let (hit, rs, found) = find_records_returns env.database t.server.records is_tcp query_buf r in
    let q = r.question in
    let w = surroundings env t.server peer current in
    let bucket = t.rrl_buckets peer.ip (zone_key q) in
    let p = answer_section w q is_tcp hit rs (begin_reply q bucket) in
    (
      respond w q is_tcp hit rs bucket,
      set_rrl (record t { server = queue_jobs q.name_wire (pos q.qtype) p.jobs t.server }) peer.ip
          (zone_key q) p.bucket,
      rw (r.read, found) refl,
    )

module _ (uuid_of : List ℕ → CassUuid) (m : Mmap) (g : GroupMmap) (v : IsValid m) where
  IsEnded : Option (SyncResponse × Mmap × GroupMmap) → Type 0
  IsEnded o = (response : SyncResponse) × (r : Mmap) × (t : GroupMmap) × (o ≡ some (response, r, t))

  handle_sync_returns :
      (query_buf : List ℕ)
      → IsNamedRequest query_buf
      → IsRecordRequest query_buf
      → IsEnded (handle_sync uuid_of query_buf m g)
  unfolding IsEnded handle_sync sync_with dispatch
  handle_sync_returns query_buf named request =
      let text = request.text in
      elim (Option-cases (get_param text Key.type 32)) [
        | inl missing ↦ (SyncResponse.bad_request, m, g, rw (request.ended, missing) refl)
        | inr (kind, given) ↦ elim (Bool-cases (not (is_op uuid_of (char_at kind 2)))) [
          | inl wrong ↦ (SyncResponse.bad_request, m, g, rw (request.ended, given, wrong) refl)
          | inr right ↦ elim (Bool-cases ((char_at kind 0 == b'0') && (char_at kind 1 == b'-'))) [
            | inr other ↦ (
              SyncResponse.bad_request,
              m,
              g,
              rw (request.ended, given, right, other, request.of_records kind given) refl,
            )
            | inl of_record ↦
                elim (handle_records-IsValid uuid_of text (char_at kind 2) m v
                  (λ p read. named text p request.ended read)) [
                    | inl (p, read, fault, bad) ↦ absurd (request.good p read bad)
                    | inr (response, r, run, valid) ↦
                        (response, r, g, rw (request.ended, given, right, of_record, run) refl)
                  ]
          ]
        ]
      ]

-- A message that its connection can serve is served to the end.
pub serve_returns :
    (env : Environment) (ev : Event) (key : ℕ) (conn : Connection) (message : Message) (t : Thread)
    → IsValid t.server.records
    → IsNamedMessage message
    → IsServable conn.type message
    → (u : Thread) × (serve env ev key conn message t ≡ some u)
unfolding serve serve_sync serve_tcp serve_udp IsEnded
serve_returns env ev key conn message t valid named able =
    let query_buf = query_buf_of message.payload in
    elim (Bool-cases (conn.type == sync_type)) [
      | inl sync ↦
          let (response, r, g, run) =
            handle_sync_returns env.uuid_of t.server.records t.server.groups valid query_buf
              named.request (able.by_sync ((==_iff _ _).0 sync)) in
          let after : Connection = record conn { write_buffer = response_text response } in
          (
            submit
                (record (put_connection t key (some after)) {
                  server = record t.server { records = r; groups = g };
                })
                (queue_write_tcp ev.ring after),
            rw (sync, run) refl,
          )
      | inr not_sync ↦ elim (Bool-cases (conn.type == tcp_type)) [
        | inl tcp ↦
            let (out, u, run) =
              answer_query_returns env ev.current t true
                (record { ip = conn.ip; ip_str = ev.stale_ip_str }) query_buf
                (able.by_tcp ((==_iff _ _).0 tcp)) in
            let after : Connection = record conn { write_buffer = out } in
            (
              submit (put_connection u key (some after)) (queue_write_tcp ev.ring after),
              rw (not_sync, tcp, run) refl,
            )
        | inr not_tcp ↦ elim (Bool-cases (conn.type == udp_type)) [
          | inl udp ↦
              let (out, u, run) =
                answer_query_returns env ev.current t false message.peer query_buf
                  (able.by_udp ((==_iff _ _).0 udp)) in
              (
                send_context u
                    (record {
                      address = ev.new_context;
                      fd = conn.fd;
                      written = out;
                      peer = message.peer;
                    })
                    (queue_write_udp ev.ring ev.new_context conn.fd),
                rw (not_sync, not_tcp, udp, run) refl,
              )
          | inr other ↦ (t, rw (not_sync, not_tcp, other) refl)
        ]
      ]
    ]
