-- ===== src/Loop/Events.antt =====
-- The handling of a completion. The answer `none` is a fault of what it calls, or a failed assertion.
use edge_dns.Prelude.{
  ℕ, ◌-◌, ◌&&◌, true, false, ℤ, pos, negsuc, List, [], ◌∷◌, ◌++◌, Option, none, some, ◌>>=◌, ◌==◌,
  if◌then◌else◌, take, replicate, length,
}
use edge_dns.Sync.Handler.{handle_sync}
use edge_dns.Sync.Response.{response_text}
use edge_dns.Uring.Pool.{get_buffer_address, release_buffer}
use edge_dns.Uring.Pipeline.{
  Connection, QueueEntry, Operation, recvmsg, recvmsg_multishot, Ring, Completion, context_sent,
  of_fd, udp_type, tcp_type, sync_type, queue_multishot_accept, queue_read_by, queue_write_udp,
  queue_write_tcp, read_completion,
}
use edge_dns.Loop.State.{Peer, Message, Context, Event, Environment, Thread, put_connection, submit}
use edge_dns.Loop.Queries.{answer_query}

-- `queueRead` or `queueReadForSync` of the connection at `key`.
unfoldable pub rearm : Operation → Ring → ℕ → Connection → Thread → Option Thread
rearm operation ring key conn t = do
  (entry, pool, after) ← queue_read_by operation ring t.pool conn
  some (submit (record (put_connection t key (some after)) { pool = pool }) entry)

-- What a connection is read by.
unfoldable pub read_operation : Connection → Operation
read_operation conn = if conn.type == sync_type then recvmsg else recvmsg_multishot

unfoldable pub accept_again : Ring → (type fd : ℕ) → Thread → Thread
accept_again ring type fd t = if type == 0 then submit t (queue_multishot_accept ring fd) else t

unfoldable pub failed_read : Ring → ℕ → Option Connection → Thread → Option Thread
unfolding rearm
failed_read ring fd none t = some t
failed_read ring fd (some conn) t =
    if (conn.type == udp_type) && (fd == t.udp_fd)
    then rearm recvmsg_multishot ring fd conn t
    else some (record (put_connection t fd none) { closed = t.closed ++ fd ∷ [] })

-- `res < 0`
unfoldable pub on_error : Event → (type fd : ℕ) → Thread → Option Thread
unfolding failed_read accept_again
on_error ev type fd t = do
  u ← failed_read ev.ring fd (t.connections fd) t
  some (accept_again ev.ring type fd u)

unfoldable pub on_accept : Event → (fd client : ℕ) → Thread → Option Thread
unfolding rearm read_operation
on_accept ev fd client t =
    let conn : Connection = record {
      fd = client;
      type = if fd == t.tcp_fd then tcp_type else sync_type;
      ip = ev.accepted_ip;
      write_buffer = [];
      buf_group = 1;
    } in
    rearm (read_operation conn) ev.ring client conn (put_connection t client (some conn))

-- `releaseBuffer`
unfoldable pub give_back : (group_id buf_id : ℕ) → Thread → Option Thread
give_back group_id buf_id t = do
  p ← release_buffer t.pool group_id buf_id
  some (record t { given_back = t.given_back ++ (group_id, p) ∷ [] })

-- `queryBuf`
unfoldable pub query_buf_of : List ℕ → List ℕ
query_buf_of payload = take 4096 payload ++ replicate (4096 - length payload) 0

unfoldable pub serve_sync : Environment → Event → ℕ → Connection → List ℕ → Thread → Option Thread
unfolding response_text
serve_sync env ev key conn query_buf t = do
  (response, m, g) ← handle_sync env.uuid_of query_buf t.server.records t.server.groups
  let after : Connection = record conn { write_buffer = response_text response }
  some (
      submit
        (record (put_connection t key (some after)) {
          server = record t.server { records = m; groups = g };
        })
        (queue_write_tcp ev.ring after))

unfoldable pub serve_tcp : Environment → Event → ℕ → Connection → List ℕ → Thread → Option Thread
unfolding answer_query
serve_tcp env ev key conn query_buf t = do
  (out, u) ←
      answer_query env ev.current t true (record { ip = conn.ip; ip_str = ev.stale_ip_str })
        query_buf
  let after : Connection = record conn { write_buffer = out }
  some (submit (put_connection u key (some after)) (queue_write_tcp ev.ring after))

-- The context is deleted where there is no entry.
unfoldable pub send_context : Thread → Context → Option QueueEntry → Thread
send_context t ctx none = t
send_context t ctx (some entry) =
    submit (record t { contexts = t.contexts ++ ctx ∷ [] }) (some entry)

unfoldable pub serve_udp : Environment → Event → Connection → Peer → List ℕ → Thread → Option Thread
unfolding answer_query send_context
serve_udp env ev conn peer query_buf t = do
  (out, u) ← answer_query env ev.current t false peer query_buf
  let ctx : Context = record { address = ev.new_context; fd = conn.fd; written = out; peer = peer }
  some (send_context u ctx (queue_write_udp ev.ring ev.new_context conn.fd))

unfoldable pub serve : Environment → Event → ℕ → Connection → Message → Thread → Option Thread
unfolding serve_sync serve_tcp serve_udp query_buf_of
serve env ev key conn message t =
    let query_buf = query_buf_of message.payload in
    if conn.type == sync_type
    then serve_sync env ev key conn query_buf t
    else (if conn.type == tcp_type
        then serve_tcp env ev key conn query_buf t
        else (if conn.type == udp_type
            then serve_udp env ev conn message.peer query_buf t
            else some t))

-- `if (!hasMore)`, with the connection as it is then
unfoldable pub read_more : Event → ℕ → Option Connection → Thread → Option Thread
unfolding rearm read_operation
read_more ev key none t = some t
read_more ev key (some conn) t =
    if ev.has_more then some t else rearm (read_operation conn) ev.ring key conn t

unfoldable pub read_message :
    Environment → Event → ℕ → Connection → Option Message → Thread → Option Thread
unfolding give_back serve read_more
read_message env ev key conn none t = give_back conn.buf_group ev.buf_id t
read_message env ev key conn (some message) t = do
  u ← give_back conn.buf_group ev.buf_id t
  v ← serve env ev key conn message u
  read_more ev key (v.connections key) v

unfoldable pub on_read : Environment → Event → ℕ → Connection → Thread → Option Thread
unfolding read_message
on_read env ev key conn t = do
  raw ← get_buffer_address t.pool conn.buf_group ev.buf_id
  read_message env ev key conn ev.message t

unfoldable pub on_write : Event → ℕ → Connection → Thread → Option Thread
unfolding rearm
on_write ev key conn t = if conn.type == sync_type then rearm recvmsg ev.ring key conn t else some t

-- The connection of the descriptor, for a completion of another type than an accept.
unfoldable pub on_connection :
    Environment → Event → (type fd : ℕ) → Option Connection → Thread → Option Thread
unfolding on_read on_write
on_connection env ev type fd none t = some t
on_connection env ev type fd (some conn) t =
    if type == 1
    then on_read env ev fd conn t
    else (if type == 2 then on_write ev fd conn t else some t)

unfoldable pub on_result : Environment → Event → (type fd : ℕ) → ℤ → Thread → Option Thread
unfolding on_error on_accept on_connection
on_result env ev type fd (negsuc n) t = on_error ev type fd t
on_result env ev type fd (pos res) t =
    if type == 0 then on_accept ev fd res t else on_connection env ev type fd (t.connections fd) t

unfoldable pub delete_context : ℕ → List Context → List Context
delete_context address [] = []
delete_context address (c ∷ cs) =
    let rest = delete_context address cs in if c.address == address then cs else c ∷ rest

unfoldable pub on_completion : Environment → Event → Completion → Thread → Option Thread
unfolding on_result delete_context
on_completion env ev (context_sent ctx) t =
    some (record t { contexts = delete_context ctx t.contexts })
on_completion env ev (of_fd type fd) t = on_result env ev type fd ev.res t

-- One round of the loop.
unfoldable pub handle_event : Environment → Event → Thread → Option Thread
unfolding on_completion
handle_event env ev t = on_completion env ev (read_completion ev.user_data) t

unfoldable pub handle_events : Environment → List Event → Thread → Option Thread
unfolding handle_event
handle_events env [] t = some t
handle_events env (ev ∷ evs) t = do u ← handle_event env ev t; handle_events env evs u
