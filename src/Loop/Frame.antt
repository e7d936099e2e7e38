-- ===== src/Loop/Frame.antt =====
-- The parts of an event's handling that serve no message.
use edge_dns.Prelude.{
  >>=-some, ℕ, ◌≡◌, refl, ◌∙◌, subst, inl, inr, ◌&&◌, Bool-cases, [], ◌∷◌, ◌++◌, Option, none, some,
  ◌==◌, if◌then◌else◌,
}
use edge_dns.Uring.Pipeline.{
  Connection, QueueEntry, Operation, recvmsg_multishot, Ring, udp_type, tcp_type, sync_type,
  queue_multishot_accept, queue_read_by,
}
use edge_dns.Loop.State.{Event, Thread, put_connection, submit}
use edge_dns.Loop.Events.{
  rearm, read_operation, accept_again, failed_read, on_error, on_accept, read_more,
}

-- The two threads have the same server, and have given back the same.
abbrev pub Alike : Thread → Thread → Type 0
Alike t u = (u.given_back ≡ t.given_back) × (u.server ≡ t.server)

pub submit-Alike : (t : Thread) (entry : Option QueueEntry) → Alike t (submit t entry)
submit-Alike t none = (refl, refl)
submit-Alike t (some e) = (refl, refl)

-- Where a run ends in a thread, it is alike.
unfoldable pub EndsAlike : Thread → Option Thread → Type 0
EndsAlike t o = (u : Thread) → o ≡ some u → Alike t u

pub ends : (t v : Thread) → Alike t v → EndsAlike t (some v)
unfolding EndsAlike
ends t v alike u run = let same : v ≡ u = cc run in subst (Alike t) same alike

Alike-trans : (t u v : Thread) → Alike t u → Alike u v → Alike t v
Alike-trans t u v h k = (k.0 ∙ h.0, k.1 ∙ h.1)

pub rearm-EndsAlike :
    (operation : Operation) (ring : Ring) (key : ℕ) (conn : Connection) (t : Thread)
    → EndsAlike t (rearm operation ring key conn t)
unfolding EndsAlike rearm
rearm-EndsAlike operation ring key conn t u run =
    let (r, queued, last) = >>=-some (queue_read_by operation ring t.pool conn) _ run in
    let v : Thread = record (put_connection t key (some r.2)) { pool = r.1 } in
    ends t (submit v r.0) (submit-Alike v r.0) u last

failed_read-EndsAlike :
    (ring : Ring) (fd : ℕ) (at : Option Connection) (t : Thread)
    → EndsAlike t (failed_read ring fd at t)
unfolding failed_read
failed_read-EndsAlike ring fd none t = ends t t (refl, refl)
failed_read-EndsAlike ring fd (some conn) t =
    elim (Bool-cases ((conn.type == udp_type) && (fd == t.udp_fd))) [
      | inl udp ↦ rw udp (rearm-EndsAlike recvmsg_multishot ring fd conn t)
      | inr other ↦
          rw other (
            ends t (record (put_connection t fd none) { closed = t.closed ++ fd ∷ [] })
              (refl, refl))
    ]

pub on_error-EndsAlike :
    (ev : Event) (type fd : ℕ) (t : Thread) → EndsAlike t (on_error ev type fd t)
unfolding EndsAlike on_error accept_again
on_error-EndsAlike ev type fd t u run =
    let (v, failed, last) = >>=-some (failed_read ev.ring fd (t.connections fd) t) _ run in
    let alike = failed_read-EndsAlike ev.ring fd (t.connections fd) t v failed in
    elim (Bool-cases (type == 0)) [
      | inl accept ↦
          let w = submit v (queue_multishot_accept ev.ring fd) in
          ends t w (Alike-trans t v w alike (submit-Alike v (queue_multishot_accept ev.ring fd))) u
            (rw accept at last)
      | inr other ↦ ends t v alike u (rw other at last)
    ]

pub on_accept-EndsAlike :
    (ev : Event) (fd client : ℕ) (t : Thread) → EndsAlike t (on_accept ev fd client t)
unfolding EndsAlike on_accept
on_accept-EndsAlike ev fd client t u run =
    let conn : Connection = record {
      fd = client;
      type = if fd == t.tcp_fd then tcp_type else sync_type;
      ip = ev.accepted_ip;
      write_buffer = [];
      buf_group = 1;
    } in
    rearm-EndsAlike (read_operation conn) ev.ring client conn (put_connection t client (some conn))
      u run

pub read_more-EndsAlike :
    (ev : Event) (key : ℕ) (at : Option Connection) (t : Thread)
    → EndsAlike t (read_more ev key at t)
unfolding read_more
read_more-EndsAlike ev key none t = ends t t (refl, refl)
read_more-EndsAlike ev key (some conn) t = elim (Bool-cases ev.has_more) [
  | inl more ↦ simp more (ends t t (refl, refl))
  | inr last ↦ simp last (rearm-EndsAlike (read_operation conn) ev.ring key conn t)
]
