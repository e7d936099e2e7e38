-- ===== src/Loop/Requests.antt =====
-- What becomes of a sync request, up to the completion of its response.
use edge_dns.Prelude.{
  ℕ, suc, ◌+◌, ◌%◌, ◌^◌, ◌<◌, ◌≡◌, ◌≢◌, refl, ap, ◌∙◌, true, false, pos, List, [], ◌∷◌, ◌++◌, none,
  some, ◌==◌, length, arith,
}
use mathlib.Core.List.{append_assoc}
use native.Mathlib.Decide.{dec_lt}
use native.Mathlib.Nat.{mod-lt, suc-mod, mod_self, mod-eq_of_lt}
use edge_dns.Records.State.{Mmap}
use edge_dns.Groups.State.{GroupMmap}
use edge_dns.Sync.Handler.{SyncResponse, handle_sync}
use edge_dns.Sync.Response.{response_text}
use edge_dns.Uring.Pool.{BufferPool, pick_group}
use edge_dns.Uring.Pipeline.{
  Connection, QueueEntry, Operation, send, recvmsg, of_fd, read, write, sync_type, fd_data, get_sqe,
  queue_read_by, queue_write_tcp, read_completion,
}
use edge_dns.Loop.State.{Message, Event, Environment, Thread, put_connection, submit}
use edge_dns.Loop.Lent.{IsLent}
use edge_dns.Loop.Events.{
  rearm, read_operation, give_back, query_buf_of, serve_sync, serve, read_more, read_message,
  on_read, on_write, on_connection, on_result, on_completion, handle_event,
}

-- The next number has another remainder.
suc-mod-≢ : (k n : ℕ) → 1 < n → k % n ≢ suc k % n
suc-mod-≢ k n h same = elim (dec_lt (suc (k % n)) n) [
  | yes below ↦
      let next : suc k % n ≡ suc (k % n) = suc-mod k n ∙ mod-eq_of_lt below in
      absurd (omega (arith, next, same))
  | no above ↦
      let top : suc (k % n) ≡ n = omega (arith, above, mod-lt k {m = n} (omega arith)) in
      let next : suc k % n ≡ 0 = suc-mod k n ∙ ap (λ j. j % n) top ∙ mod_self n in
      absurd (omega (arith, next, same, top, h))
]

abbrev pub picked : BufferPool → ℕ
picked pool = pool.base_group_id + pool.rr_counter % length pool.rings

abbrev pub moved : BufferPool → BufferPool
moved pool = record pool { rr_counter = (pool.rr_counter + 1) % 2 ^ 64 }

abbrev pub read_entry : (fd group : ℕ) → QueueEntry
read_entry fd group = record {
  operation = recvmsg;
  fd = fd;
  buf_group = some (group % 2 ^ 16);
  user_data = fd_data read fd;
}

-- The thread after a read is queued.
abbrev rearmed : ℕ → Connection → Thread → Thread
rearmed key conn t =
    let after : Connection = record conn { buf_group = picked t.pool } in
    submit (record (put_connection t key (some after)) { pool = moved t.pool })
      (some (read_entry conn.fd (picked t.pool)))

rearm-free :
    (operation : Operation) (ev : Event) (key : ℕ) (conn : Connection) (t : Thread)
    → operation ≡ recvmsg
    → get_sqe ev.ring ≡ true
    → 0 < length t.pool.rings
    → rearm operation ev.ring key conn t ≡ some (rearmed key conn t)
unfolding rearm queue_read_by pick_group
rearm-free operation ev key conn t is free h =
    let some_rings : (length t.pool.rings == 0) ≡ false = ground (arith, h) in
    rw (is, free, some_rings) refl

sync_operation : (conn : Connection) → conn.type ≡ sync_type → read_operation conn ≡ recvmsg
unfolding read_operation
sync_operation conn sync = rw sync refl

module _ (env : Environment) (ev : Event) (t : Thread) (fd received : ℕ) (conn : Connection)
    (message : Message) (response : SyncResponse) (m : Mmap) (g : GroupMmap)
    (lent : IsLent t.pool conn.buf_group ev.buf_id) where
  -- The thread after the request.
  abbrev served : Thread
  served =
      let after : Connection = record conn { write_buffer = response_text response } in
      let v : Thread = put_connection t fd (some after) in
      record v {
        server = record t.server { records = m; groups = g };
        given_back = t.given_back ++ (conn.buf_group, lent.provided) ∷ [];
        submitted =
            t.submitted
            ++ record {
              operation = send;
              fd = conn.fd;
              buf_group = none;
              user_data = fd_data write conn.fd;
            }
              ∷ [];
      }

  request_lem :
      read_completion ev.user_data ≡ of_fd 1 fd
      → ev.res ≡ pos received
      → ev.message ≡ some message
      → ev.has_more ≡ false
      → get_sqe ev.ring ≡ true
      → t.connections fd ≡ some conn
      → conn.type ≡ sync_type
      → 0 < length t.pool.rings
      → handle_sync env.uuid_of (query_buf_of message.payload) t.server.records t.server.groups
        ≡ some (response, m, g)
      → handle_event env ev t
        ≡ some (rearmed fd (record conn { write_buffer = response_text response }) served)
  unfolding handle_event on_completion on_result on_connection on_read read_message give_back serve
      serve_sync queue_write_tcp read_more
  request_lem word done told last free known sync rings handled =
      let after : Connection = record conn { write_buffer = response_text response } in
      let v : Thread = record t {
        given_back = t.given_back ++ (conn.buf_group, lent.provided) ∷ [];
      } in
      let answered : serve env ev fd conn message v ≡ some served = rw (sync, handled, free) refl in
      let itself : (fd == fd) ≡ true = ground arith in
      let again : read_more ev fd (served.connections fd) served ≡ some (rearmed fd after served) =
        rw (itself, last)
          (rearm-free (read_operation after) ev fd after served (sync_operation after sync) free
            rings) in
      let message_read : read_message env ev fd conn (some message) t
          ≡ some (rearmed fd after served) =
        rw (lent.released, answered) again in
      rw (word, done, known, lent.found, told) message_read

response_lem :
    (env : Environment) (ev : Event) (t : Thread) (fd sent : ℕ) (conn : Connection)
    → read_completion ev.user_data ≡ of_fd 2 fd
    → ev.res ≡ pos sent
    → get_sqe ev.ring ≡ true
    → t.connections fd ≡ some conn
    → conn.type ≡ sync_type
    → 0 < length t.pool.rings
    → handle_event env ev t ≡ some (rearmed fd conn t)
unfolding handle_event on_completion on_result on_connection on_write
response_lem env ev t fd sent conn word done free known sync rings =
    let is_sync : (conn.type == sync_type) ≡ true = ground (arith, sync) in
    rw (word, done, known, is_sync) (rearm-free recvmsg ev fd conn t refl free rings)

one_by_one :
    (xs : List QueueEntry) (a b c : QueueEntry)
    → ((xs ++ a ∷ []) ++ b ∷ []) ++ c ∷ [] ≡ xs ++ a ∷ b ∷ c ∷ []
one_by_one xs a b c =
    append_assoc (xs ++ a ∷ []) (b ∷ []) (c ∷ []) ∙ append_assoc xs (a ∷ []) (b ∷ c ∷ [])

-- A sync request, in one buffer of its connection and without more to come, that the handler serves,
-- and then the completion of its response, with entries in the ring for both: they are handled to
-- the end. The caches are what the handler leaves, and exactly the text of its response is in the
-- connection's buffer when the one `send` is queued. One buffer is given back for the request. Two
-- reads are queued, one at each event. Where the pool has more than one group and its counter is not
-- at its end, they ask for buffers of two different groups, of which the connection keeps the second.
pub handle_event_twice :
    (env : Environment) (ev later : Event) (t : Thread) (fd received sent : ℕ) (conn : Connection)
    (message : Message) (response : SyncResponse) (m : Mmap) (g : GroupMmap)
    → (lent : IsLent t.pool conn.buf_group ev.buf_id) → read_completion ev.user_data ≡ of_fd 1 fd
    → ev.res ≡ pos received
    → ev.message ≡ some message
    → ev.has_more ≡ false
    → get_sqe ev.ring ≡ true
    → read_completion later.user_data ≡ of_fd 2 fd
    → later.res ≡ pos sent
    → get_sqe later.ring ≡ true
    → t.connections fd ≡ some conn
    → conn.type ≡ sync_type
    → 1 < length t.pool.rings
    → suc t.pool.rr_counter < 2 ^ 64
    → handle_sync env.uuid_of (query_buf_of message.payload) t.server.records t.server.groups
      ≡ some (response, m, g)
    → (u : Thread) × (v : Thread) × (after : Connection) × (answer : QueueEntry) × (first : ℕ)
      × (second : QueueEntry) × (handle_event env ev t ≡ some u)
      × (handle_event env later u ≡ some v)
      × (v.server ≡ record t.server { records = m; groups = g })
      × (v.given_back ≡ t.given_back ++ (conn.buf_group, lent.provided) ∷ [])
      × (v.submitted ≡ t.submitted ++ answer ∷ read_entry conn.fd first ∷ second ∷ [])
      × ((answer.operation ≡ send) × (answer.fd ≡ conn.fd))
      × (v.connections fd ≡ some after)
      × (after.write_buffer ≡ response_text response)
      × (second ≡ read_entry conn.fd after.buf_group)
      × (first ≢ after.buf_group)
handle_event_twice env ev later t fd received sent conn message response m g lent word done told
      last free word' done' free' known sync rings room handled =
    let after : Connection = record conn { write_buffer = response_text response } in
    let w = served env ev t fd received conn message response m g lent in
    let u = rearmed fd after w in
    let mid : Connection = record after { buf_group = picked t.pool } in
    let v = rearmed fd mid u in
    let some_rings : 0 < length t.pool.rings = omega (arith, rings) in
    let itself : (fd == fd) ≡ true = ground arith in
    let there : u.connections fd ≡ some mid = rw itself refl in
    let answer : QueueEntry = record {
      operation = send;
      fd = conn.fd;
      buf_group = none;
      user_data = fd_data write conn.fd;
    } in
    let next : (t.pool.rr_counter + 1) % 2 ^ 64 ≡ suc t.pool.rr_counter = omega (arith, room) in
    (
      u,
      v,
      record mid { buf_group = picked u.pool },
      answer,
      picked t.pool,
      read_entry conn.fd (picked u.pool),
      request_lem env ev t fd received conn message response m g lent word done told last free known
          sync some_rings handled,
      response_lem env later u fd sent mid word' done' free' there sync some_rings,
      refl,
      refl,
      one_by_one t.submitted answer (read_entry conn.fd (picked t.pool))
          (read_entry conn.fd (picked u.pool)),
      (refl, refl),
      rw itself refl,
      refl,
      refl,
      λ same.
          suc-mod-≢ t.pool.rr_counter (length t.pool.rings) rings
            (omega (arith, same, ap (λ j. j % length t.pool.rings) next)),
    )
