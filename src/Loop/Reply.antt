-- ===== src/Loop/Reply.antt =====
-- What becomes of a query over UDP for a name that is in the cache.
use edge_dns.Prelude.{
  ℕ, ◌-◌, ◌/◌, ◌%◌, ◌<◌, ◌≤◌, ◌≡◌, refl, ap, ◌∙◌, Bool, true, false, pos, List, [], ◌∷◌, ◌++◌, none,
  some, length, take, replicate,
}
use mathlib.Core.List.{append_assoc}
use edge_dns.Records.State.{DnsResponseData}
use edge_dns.Records.Ops.{get_record}
use edge_dns.Wire.Labels.{AllLabels, wired}
use edge_dns.Core.Answer.{be16}
use edge_dns.Core.Read.{
  Fields, AllFit, AllShort, take-all, query_bytes, behind_name, question_of, read_query-query_bytes,
}
use edge_dns.Core.Count.{resources}
use edge_dns.Core.Fits.{opt_record}
use edge_dns.Core.Octets.{header_octets, section_octets}
use edge_dns.Core.Hit.{handle-get_record}
use edge_dns.Uring.Pipeline.{
  Connection, QueueEntry, sendmsg, of_fd, udp_type, context_data, get_sqe, queue_write_udp,
  read_completion,
}
use edge_dns.Loop.State.{Peer, Message, Context, Event, Environment, Thread, submit}
use edge_dns.Loop.Queries.{surroundings, queue_jobs, zone_key, set_rrl, answer_query}
use edge_dns.Loop.Lent.{IsLent}
use edge_dns.Loop.Events.{
  give_back, query_buf_of, send_context, serve_udp, serve, read_more, read_message, on_read,
  on_connection, on_result, on_completion, handle_event,
}

-- What follows a query in the buffer does not matter to it.
query_bytes-append :
    (f : Fields) (ls : List (List ℕ)) (tail more : List ℕ)
    → query_bytes f ls tail ++ more ≡ query_bytes f ls (tail ++ more)
unfolding query_bytes behind_name be16
query_bytes-append f ls tail more = simp append_assoc

query_buf_of-query_bytes :
    (f : Fields) (ls : List (List ℕ)) (tail : List ℕ)
    → length (query_bytes f ls tail) ≤ 4096
    → query_buf_of (query_bytes f ls tail)
      ≡ query_bytes f ls (tail ++ replicate (4096 - length (query_bytes f ls tail)) 0)
unfolding query_buf_of
query_buf_of-query_bytes f ls tail h =
    let zeros = replicate (4096 - length (query_bytes f ls tail)) 0 in
    ap (λ xs. xs ++ zeros) (take-all 4096 (query_bytes f ls tail) h)
    ∙ query_bytes-append f ls tail zeros

module _ (env : Environment) (current : ℕ → ℕ) (peer : Peer) (f : Fields) (ls : List (List ℕ))
    (tail : List ℕ) (rs : List DnsResponseData) where
  -- The query of the peer, once it is read.
  answer_query-get_record :
      (t : Thread)
      → AllFit f
      → AllLabels ls
      → AllShort ls
      → length (wired ls) < 256
      → f.qclass ≡ 1
      → get_record t.server.records (wired ls ++ 0 ∷ []) (pos f.qtype) ≡ some (true, rs)
      → (n : ℕ) × (truncated : Bool) × (u : Thread) × (answer_query env current t false peer
            (query_bytes f ls tail)
          ≡ some (
            header_octets f.id f.flags truncated n
                ++ (wired ls ++ 0 ∷ f.qtype / 256 % 256 ∷ f.qtype % 256 ∷ 0 ∷ 1 ∷ [])
                ++ section_octets f.qtype
                    (take n (resources (surroundings env t.server peer current) rs))
                ++ opt_record,
            u,
          ))
        × (n ≤ length (resources (surroundings env t.server peer current) rs))
        × (n < length (resources (surroundings env t.server peer current) rs) → truncated ≡ true)
        × (u.pool ≡ t.pool)
        × (u.connections ≡ t.connections)
        × (u.given_back ≡ t.given_back)
        × (u.submitted ≡ t.submitted)
        × (u.contexts ≡ t.contexts)
  unfolding answer_query set_rrl
  answer_query-get_record t fit h s size in_class hit =
      let w = surroundings env t.server peer current in
      let q = question_of f ls in
      let (n, truncated, jobs, bucket, run, within, few, cut) =
        handle-get_record w env.database t.server.records (t.rrl_buckets peer.ip (zone_key q)) f ls
          tail rs fit h s size in_class hit in
      (
        n,
        truncated,
        set_rrl (record t { server = queue_jobs q.name_wire (pos q.qtype) jobs t.server }) peer.ip
            (zone_key q) bucket,
        rw (read_query-query_bytes f ls tail fit h s size, run) refl,
        within,
        cut,
        refl,
        refl,
        refl,
        refl,
        refl,
      )

-- A read on the UDP socket that is in a buffer of its connection, and holds a query of class IN, as
-- `Core.Hit` has it, of at most 4096 bytes for a name and type that the cache has records for.
-- Where the ring has an entry, the loop handles it to the end: it gives exactly the buffer back; it
-- queues exactly one entry, a `sendmsg` on the connection's socket whose data is the new context's;
-- that context holds the client's address and the response, in the bytes that `Core.Hit` has: the
-- header with the query's ID and `n` answers, the question, the first `n` of the resource records for
-- this client, and the OPT record, with TC set where they are not all there. The connections stay as they are.
pub handle_event-get_record :
    (env : Environment) (ev : Event) (t : Thread) (fd : ℕ) (conn : Connection) (peer : Peer)
    (received : ℕ) (f : Fields) (ls : List (List ℕ)) (tail : List ℕ) (rs : List DnsResponseData)
    → read_completion ev.user_data ≡ of_fd 1 fd
    → ev.res ≡ pos received
    → ev.message ≡ some (record { payload = query_bytes f ls tail; peer = peer })
    → ev.has_more ≡ true
    → get_sqe ev.ring ≡ true
    → t.connections fd ≡ some conn
    → conn.type ≡ udp_type
    → (lent : IsLent t.pool conn.buf_group ev.buf_id) → length (query_bytes f ls tail) ≤ 4096
    → AllFit f
    → AllLabels ls
    → AllShort ls
    → length (wired ls) < 256
    → f.qclass ≡ 1
    → get_record t.server.records (wired ls ++ 0 ∷ []) (pos f.qtype) ≡ some (true, rs)
    → (u : Thread) × (ctx : Context) × (entry : QueueEntry) × (n : ℕ) × (truncated : Bool)
      × (handle_event env ev t ≡ some u)
      × (u.given_back ≡ t.given_back ++ (conn.buf_group, lent.provided) ∷ [])
      × (u.submitted ≡ t.submitted ++ entry ∷ [])
      × (u.contexts ≡ t.contexts ++ ctx ∷ [])
      × (u.connections ≡ t.connections)
      × (entry.operation ≡ sendmsg)
      × (entry.fd ≡ conn.fd)
      × (entry.user_data ≡ context_data ctx.address)
      × (ctx.peer ≡ peer)
      × (ctx.written
          ≡ header_octets f.id f.flags truncated n
            ++ (wired ls ++ 0 ∷ f.qtype / 256 % 256 ∷ f.qtype % 256 ∷ 0 ∷ 1 ∷ [])
            ++ section_octets f.qtype
                (take n (resources (surroundings env t.server peer ev.current) rs))
            ++ opt_record)
      × (n ≤ length (resources (surroundings env t.server peer ev.current) rs))
      × (n < length (resources (surroundings env t.server peer ev.current) rs) → truncated ≡ true)
unfolding handle_event on_completion on_result on_connection on_read read_message give_back serve
    serve_udp send_context queue_write_udp read_more
handle_event-get_record env ev t fd conn peer received f ls tail rs word done told more free known
      udp lent size fit h s short in_class hit =
    let v : Thread = record t {
      given_back = t.given_back ++ (conn.buf_group, lent.provided) ∷ [];
    } in
    let zeros = replicate (4096 - length (query_bytes f ls tail)) 0 in
    let (n, truncated, w, answered, within, cut, pool, connections, given, submitted, contexts) =
      answer_query-get_record env ev.current peer f ls (tail ++ zeros) rs v fit h s short in_class
        hit in
    let bytes = query_buf_of-query_bytes f ls tail size in
    let written =
      header_octets f.id f.flags truncated n
      ++ (wired ls ++ 0 ∷ f.qtype / 256 % 256 ∷ f.qtype % 256 ∷ 0 ∷ 1 ∷ [])
      ++ section_octets f.qtype (take n (resources (surroundings env t.server peer ev.current) rs))
      ++ opt_record in
    let ctx : Context = record {
      address = ev.new_context;
      fd = conn.fd;
      written = written;
      peer = peer;
    } in
    let entry : QueueEntry = record {
      operation = sendmsg;
      fd = conn.fd;
      buf_group = none;
      user_data = context_data ev.new_context;
    } in
    let u : Thread = submit (record w { contexts = w.contexts ++ ctx ∷ [] }) (some entry) in
    let message : Message = record { payload = query_bytes f ls tail; peer = peer } in
    let served : serve env ev fd conn message v ≡ some u = rw (udp, bytes, answered, free) refl in
    let message_read : read_message env ev fd conn (some message) t ≡ some u =
      rw (lent.released, served, connections, known, more) refl in
    (
      u,
      ctx,
      entry,
      n,
      truncated,
      rw (word, done, known, lent.found, told) message_read,
      given,
      ap (λ (xs : List QueueEntry). xs ++ entry ∷ []) submitted,
      ap (λ (xs : List Context). xs ++ ctx ∷ []) contexts,
      connections,
      refl,
      refl,
      refl,
      refl,
      refl,
      within,
      cut,
    )
