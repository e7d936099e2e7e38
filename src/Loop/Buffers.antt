-- ===== src/Loop/Buffers.antt =====
-- The buffers that events give back.
use mathlib.Core.List.{append-nil}
use edge_dns.Prelude.{
  >>=-some, ℕ, ◌≡◌, refl, sym, ap, ◌∙◌, inl, inr, Bool-cases, false, ℤ, pos, negsuc, List, [], ◌∷◌,
  ◌++◌, Option, none, some, ◌==◌, if◌then◌else◌, arith,
}
use edge_dns.Uring.Pool.{Provided, get_buffer_address, release_buffer}
use edge_dns.Uring.Pipeline.{
  Connection, recvmsg, Completion, context_sent, of_fd, sync_type, read_completion,
}
use edge_dns.Loop.State.{Message, Event, Environment, Thread}
use edge_dns.Loop.Frame.{
  EndsAlike, ends, rearm-EndsAlike, on_error-EndsAlike, on_accept-EndsAlike, read_more-EndsAlike,
}
use edge_dns.Loop.Returned.{EndsGiven, serve-EndsGiven}
use edge_dns.Loop.Events.{
  on_accept, give_back, serve, read_message, on_read, on_write, on_error, delete_context,
  on_connection, on_result, on_completion, handle_event,
}

abbrev pub as_list : ℕ → Option Provided → List (ℕ × Provided)
as_list group none = []
as_list group (some p) = (group, p) ∷ []

-- The buffer of a connection's group, as it was provided.
abbrev pub taken : Event → Thread → Option Connection → List (ℕ × Provided)
taken ev t none = []
taken ev t (some conn) = as_list conn.buf_group (release_buffer t.pool conn.buf_group ev.buf_id)

-- What an event has taken: a buffer, where it is a read without an error of a known connection.
abbrev pub taken_by : Event → Thread → Completion → ℤ → List (ℕ × Provided)
taken_by ev t (context_sent ctx) res = []
taken_by ev t (of_fd type fd) (negsuc n) = []
taken_by ev t (of_fd type fd) (pos n) = if type == 1 then taken ev t (t.connections fd) else []

-- Where a run ends, it has given back `more` besides.
GivesBack : Thread → List (ℕ × Provided) → Option Thread → Type 0
GivesBack t more o = (u : Thread) → o ≡ some u → u.given_back ≡ t.given_back ++ more

alike-GivesBack : (t : Thread) (o : Option Thread) → EndsAlike t o → GivesBack t [] o
unfolding GivesBack EndsAlike
alike-GivesBack t o alike u run = (alike u run).0 ∙ sym (append-nil t.given_back)

give_back-GivesBack :
    (ev : Event) (conn : Connection) (t : Thread)
    → GivesBack t (taken ev t (some conn)) (give_back conn.buf_group ev.buf_id t)
unfolding GivesBack give_back
give_back-GivesBack ev conn t u run =
    let (p, released, last) = >>=-some (release_buffer t.pool conn.buf_group ev.buf_id) _ run in
    let same : record t { given_back = t.given_back ++ (conn.buf_group, p) ∷ [] } ≡ u = cc last in
    rw released (ap (λ (x : Thread). x.given_back) (sym same))

read_message-GivesBack :
    (env : Environment) (ev : Event) (key : ℕ) (conn : Connection) (at : Option Message)
    (t : Thread)
    → GivesBack t (taken ev t (some conn)) (read_message env ev key conn at t)
unfolding GivesBack EndsAlike EndsGiven read_message
read_message-GivesBack env ev key conn none t u run = give_back-GivesBack ev conn t u run
read_message-GivesBack env ev key conn (some message) t u run =
    let (v, given, next) = >>=-some (give_back conn.buf_group ev.buf_id t) _ run in
    let (w, answered, last) = >>=-some (serve env ev key conn message v) _ next in
    (read_more-EndsAlike ev key (w.connections key) w u last).0
    ∙ serve-EndsGiven env ev key conn message v w answered
    ∙ give_back-GivesBack ev conn t v given

on_connection-GivesBack :
    (env : Environment) (ev : Event) (type fd : ℕ) (at : Option Connection) (t : Thread)
    → GivesBack t (if type == 1 then taken ev t at else []) (on_connection env ev type fd at t)
unfolding on_connection on_read on_write GivesBack
on_connection-GivesBack env ev type fd none t u run = elim (Bool-cases (type == 1)) [
  | inl is_read ↦ rw is_read (alike-GivesBack t (some t) (ends t t (refl, refl)) u run)
  | inr other ↦ rw other (alike-GivesBack t (some t) (ends t t (refl, refl)) u run)
]
on_connection-GivesBack env ev type fd (some conn) t u run = elim (Bool-cases (type == 1)) [
  | inl is_read ↦
      let (raw, address, last) =
        >>=-some (get_buffer_address t.pool conn.buf_group ev.buf_id) _ (rw is_read at run) in
      rw is_read (read_message-GivesBack env ev fd conn ev.message t u last)
  | inr other ↦ elim (Bool-cases (type == 2)) [
    | inl is_write ↦ elim (Bool-cases (conn.type == sync_type)) [
      | inl sync ↦ rw other (
          alike-GivesBack t _ (rearm-EndsAlike recvmsg ev.ring fd conn t) u
            (rw (other, is_write, sync) at run))
      | inr more ↦
          rw other (
            alike-GivesBack t (some t) (ends t t (refl, refl)) u
              (rw (other, is_write, more) at run))
    ]
    | inr more ↦
        rw other (alike-GivesBack t (some t) (ends t t (refl, refl)) u (rw (other, more) at run))
  ]
]

on_result-GivesBack :
    (env : Environment) (ev : Event) (type fd : ℕ) (res : ℤ) (t : Thread)
    → GivesBack t (taken_by ev t (of_fd type fd) res) (on_result env ev type fd res t)
unfolding on_result GivesBack
on_result-GivesBack env ev type fd (negsuc n) t u run =
    alike-GivesBack t (on_error ev type fd t) (on_error-EndsAlike ev type fd t) u run
on_result-GivesBack env ev type fd (pos n) t u run = elim (Bool-cases (type == 0)) [
  | inl accept ↦
      let not_read : (type == 1) ≡ false = ground (arith, accept) in
      rw not_read (
        alike-GivesBack t (on_accept ev fd n t) (on_accept-EndsAlike ev fd n t) u
          (rw accept at run))
  | inr other ↦ on_connection-GivesBack env ev type fd (t.connections fd) t u (rw other at run)
]

on_completion-GivesBack :
    (env : Environment) (ev : Event) (c : Completion) (t : Thread)
    → GivesBack t (taken_by ev t c ev.res) (on_completion env ev c t)
unfolding on_completion
on_completion-GivesBack env ev (context_sent ctx) t =
    let v : Thread = record t { contexts = delete_context ctx t.contexts } in
    alike-GivesBack t (some v) (ends t v (refl, refl))
on_completion-GivesBack env ev (of_fd type fd) t = on_result-GivesBack env ev type fd ev.res t

-- An event that is handled to its end has given back one buffer where it was a read without an error
-- of a known connection, namely its buffer of the group that the connection has at that time, as it
-- was provided; and nothing in all other cases, whatever the event's buffer: after an error, an
-- accept or a write, or for a descriptor that is no known connection.
pub handle_event-taken_by :
    (env : Environment) (ev : Event) (t u : Thread)
    → handle_event env ev t ≡ some u
    → u.given_back ≡ t.given_back ++ taken_by ev t (read_completion ev.user_data) ev.res
unfolding handle_event GivesBack
handle_event-taken_by env ev t u run =
    on_completion-GivesBack env ev (read_completion ev.user_data) t u run
