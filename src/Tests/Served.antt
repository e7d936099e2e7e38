-- ===== src/Tests/Served.antt =====
-- Runs of the event loop that serve a query and a sync request.
use edge_dns.Prelude.{
  ℕ, ◌+◌, ◌*◌, ◌%◌, ◌^◌, ◌<◌, ◌≤◌, ◌≡◌, ◌≢◌, refl, Bool, true, false, pos, [], ◌∷◌, ◌++◌, none,
  some, length, take, arith,
}
use edge_dns.Wire.Labels.{wired}
use edge_dns.Core.Answer.{be16}
use edge_dns.Core.Query.{find_records}
use edge_dns.Core.Respond.{respond}
use edge_dns.Core.Read.{query_bytes, behind_name, question_of, read_query-query_bytes}
use edge_dns.Core.Count.{resources}
use edge_dns.Core.Fits.{opt_record}
use edge_dns.Core.Octets.{header_octets, section_octets}
use edge_dns.Sync.Params.{c_string, get_param, strstr, starts, value_at}
use edge_dns.Sync.Handler.{bad_request, handle_sync, sync_with}
use edge_dns.Sync.Response.{response_text}
use edge_dns.Queue.State.{Server, queued_record}
use edge_dns.Uring.Pool.{Provided, get_buffer_address, release_buffer, slot_of, buffer_at}
use edge_dns.Uring.Setup.{total, Grants}
use edge_dns.Uring.Pipeline.{
  Connection, QueueEntry, sendmsg, send, accept_multishot, recvmsg_multishot, udp_type, sync_type,
  of_fd, has_context, context_data, read_completion,
}
use edge_dns.Loop.State.{Message, Context, Event, Thread}
use edge_dns.Loop.Queries.{surroundings, answer_query}
use edge_dns.Loop.Steady.{IsSteady}
use edge_dns.Loop.Start.{Startup, group_limit, worker_start}
use edge_dns.Loop.Begun.{worker_start-IsSteady}
use edge_dns.Queue.Safe.{IsSound}
use edge_dns.Queue.Worker.{record_part}
use edge_dns.Main.Start.{start, Steps}
use edge_dns.Loop.Life.{Life}
use edge_dns.Loop.Whole.{start-IsSteady}
use edge_dns.Loop.Reply.{handle_event-get_record}
use edge_dns.Loop.Misses.{answer_query-queued_of}
use edge_dns.Loop.Requests.{read_entry, handle_event_twice}
use edge_dns.Loop.Buffers.{taken_by, handle_event-taken_by}
use edge_dns.Loop.Events.{
  query_buf_of, give_back, read_message, on_read, on_connection, on_result, on_completion,
  handle_event,
}
use edge_dns.Records.Ops.{get_record}
use edge_dns.Records.Cells.{find_bucket, probe, stops_at}
use edge_dns.Records.Hash.{calculate_hash, mask}
use edge_dns.Wire.Codec.{wire_to_domain, domain_loop, host_wire_no_alloc, index_loop}
use edge_dns.Tests.Records.{one_record, empty_cache, cached_text}
use edge_dns.Tests.Groups.{one_entry}
use edge_dns.Tests.Uring.{alloc, granted, ring, ring_free}
use edge_dns.Tests.Queue.{waiting, waiting-IsSound}
use edge_dns.Tests.Core.{txt_query, txt_query-AllFit, label_a, label_a-AllLabels}
use edge_dns.Tests.Loop.{env, thread, peer, own, event, udp_read, udp_read_is, third, fresh_answer}

abbrev buffer_3 : Provided
buffer_3 = record { addr = 65536 + 3 * 2048; len = 2048; bid = 3 }

garbled_run :
    handle_event env (event udp_read (pos 20) none) thread
    ≡ some (record thread { given_back = (1, buffer_3) ∷ [] })
unfolding handle_event read_completion has_context on_completion on_result on_connection on_read
    read_message give_back get_buffer_address release_buffer slot_of buffer_at
garbled_run = refl

handle_event-taken_by_example :
    (1, buffer_3) ∷ []
    ≡ taken_by (event udp_read (pos 20) none) thread (read_completion udp_read) (pos 20)
handle_event-taken_by_example =
    handle_event-taken_by env (event udp_read (pos 20) none) thread
      (record thread { given_back = (1, buffer_3) ∷ [] }) garbled_run

abbrev query_message : Message
query_message = record { payload = query_bytes txt_query label_a []; peer = peer }

short_query : length (query_bytes txt_query label_a []) ≤ 4096
unfolding query_bytes behind_name be16 wired
short_query = omega arith

abbrev arrived : Event
arrived = event udp_read (pos 20) (some query_message)

handle_event-get_record_example :
    (u : Thread) × (ctx : Context) × (entry : QueueEntry) × (n : ℕ) × (truncated : Bool)
    × (handle_event env arrived thread ≡ some u)
    × (u.given_back ≡ (1, third.provided) ∷ [])
    × (u.submitted ≡ entry ∷ [])
    × (u.contexts ≡ ctx ∷ [])
    × (u.connections ≡ thread.connections)
    × (entry.operation ≡ sendmsg)
    × (entry.fd ≡ 5)
    × (entry.user_data ≡ context_data ctx.address)
    × (ctx.peer ≡ peer)
    × (ctx.written
        ≡ header_octets 4660 256 truncated n
          ++ (1 ∷ 97 ∷ 0 ∷ 0 ∷ 16 ∷ 0 ∷ 1 ∷ [])
          ++ section_octets 16
              (take n (resources (surroundings env thread.server peer (λ k. 7)) cached_text.0))
          ++ opt_record)
    × (n ≤ length (resources (surroundings env thread.server peer (λ k. 7)) cached_text.0))
    × (n < length (resources (surroundings env thread.server peer (λ k. 7)) cached_text.0)
        → truncated ≡ true)
unfolding wired
handle_event-get_record_example =
    handle_event-get_record env arrived thread 5 (own 5 udp_type) peer 20 txt_query label_a []
      cached_text.0 udp_read_is refl refl refl ring_free refl refl third short_query
      txt_query-AllFit label_a-AllLabels (omega arith, tt) (omega arith) refl cached_text.1

abbrev empty_thread : Thread
empty_thread = record thread { server = record thread.server { records = empty_cache } }

missed :
    find_records env.database empty_cache (question_of txt_query label_a)
    ≡ some (false, fresh_answer ∷ [])
unfolding find_records question_of wired get_record find_bucket probe stops_at mask calculate_hash
    wire_to_domain domain_loop host_wire_no_alloc index_loop
missed = refl

answer_query-queued_of_example :
    (u : Thread) × (answer_query env
        (λ k. 7)
        empty_thread
        false
        peer
        (query_bytes txt_query label_a [])
      ≡ some (
        respond
            (surroundings env empty_thread.server peer (λ k. 7))
            (question_of txt_query label_a)
            false
            false
            (fresh_answer ∷ [])
            (record { window_start = 0; responses = 0 }),
        u,
      ))
    × (u.server.record_queue ≡ queued_record (wired label_a ++ 0 ∷ []) (pos 16) fresh_answer ∷ [])
    × (u.server.records ≡ empty_cache)
    × (u.server.groups ≡ one_entry)
unfolding question_of wired
answer_query-queued_of_example =
    answer_query-queued_of env (λ k. 7) empty_thread false peer (query_bytes txt_query label_a [])
      (question_of txt_query label_a) false (fresh_answer ∷ [])
      (read_query-query_bytes txt_query label_a [] txt_query-AllFit label_a-AllLabels
        (omega arith, tt) (omega arith))
      missed refl refl

abbrev startup : Startup
startup = record {
  udp = 5;
  tcp = 6;
  sync = 7;
  alloc = alloc;
  ring_alloc = granted;
  register = granted;
  accept_tcp = ring;
  accept_sync = ring;
  read_udp = ring;
}

startup-Grants : Grants alloc granted granted
startup-Grants = record { memory = λ g size e. cc e; rings = λ g. refl; registration = λ g. refl }

worker_start-IsSteady_example :
    (t : Thread) × (conn : Connection) × (a : QueueEntry) × (b : QueueEntry) × (c : QueueEntry)
    × (worker_start startup waiting ≡ some t)
    × IsSteady group_limit t
    × (t.server ≡ waiting)
    × (total t.pool.rings ≡ 2 ^ 20)
    × (t.connections 5 ≡ some conn)
    × (conn.type ≡ udp_type)
    × (t.submitted ≡ a ∷ b ∷ c ∷ [])
    × ((a.operation ≡ accept_multishot) × (a.fd ≡ 6))
    × ((b.operation ≡ accept_multishot) × (b.fd ≡ 7))
    × ((c.operation ≡ recvmsg_multishot)
        × (c.fd ≡ 5)
        × (c.buf_group ≡ some (conn.buf_group % 2 ^ 16)))
worker_start-IsSteady_example =
    worker_start-IsSteady startup waiting waiting-IsSound startup-Grants (λ e. omega (arith, e))
      ring_free ring_free ring_free

start-IsSteady_example :
    (s : Server) × (t : Thread) × (start true true true one_record one_entry ≡ some s)
    × (worker_start startup s ≡ some t)
    × ((v : Thread)
        → Life env t v
        → IsSteady group_limit v
          × Steps s v.server
          × ((u : Server) × (record_part v.server v.server.record_queue ≡ some u) × IsSound u))
start-IsSteady_example =
    start-IsSteady one_record one_entry startup env startup-Grants (λ e. omega (arith, e)) ring_free
      ring_free ring_free

-- A sync request without a parameter, its read, and the completion of its response.
abbrev sync_read : ℕ
sync_read = 4294967305

abbrev sync_write : ℕ
sync_write = 8589934601

sync_read_is : read_completion sync_read ≡ of_fd 1 9
unfolding read_completion has_context
sync_read_is = refl

sync_write_is : read_completion sync_write ≡ of_fd 2 9
unfolding read_completion has_context
sync_write_is = refl

abbrev no_type : Message
no_type = record { payload = b'x' ∷ []; peer = peer }

no_type_handled :
    handle_sync env.uuid_of
      (query_buf_of no_type.payload)
      thread.server.records
      thread.server.groups
    ≡ some (bad_request, thread.server.records, one_entry)
unfolding handle_sync c_string sync_with get_param strstr starts value_at query_buf_of
no_type_handled = refl

handle_event_twice_example :
    (u : Thread) × (v : Thread) × (after : Connection) × (answer : QueueEntry) × (first : ℕ)
    × (second : QueueEntry) × (handle_event env
          (record (event sync_read (pos 1) (some no_type)) { has_more = false })
          thread
        ≡ some u)
    × (handle_event env (event sync_write (pos 90) none) u ≡ some v)
    × (v.server ≡ thread.server)
    × (v.given_back ≡ (1, third.provided) ∷ [])
    × (v.submitted ≡ answer ∷ read_entry 9 first ∷ second ∷ [])
    × ((answer.operation ≡ send) × (answer.fd ≡ 9))
    × (v.connections 9 ≡ some after)
    × (after.write_buffer ≡ response_text bad_request)
    × (second ≡ read_entry 9 after.buf_group)
    × (first ≢ after.buf_group)
handle_event_twice_example =
    handle_event_twice env (record (event sync_read (pos 1) (some no_type)) { has_more = false })
      (event sync_write (pos 90) none) thread 9 1 90 (own 9 sync_type) no_type bad_request
      thread.server.records one_entry third sync_read_is refl refl refl ring_free sync_write_is refl
      ring_free refl refl (omega arith) (omega arith) no_type_handled
