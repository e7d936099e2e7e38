-- ===== src/Loop/Life.antt =====
-- The whole life of a thread, beside the worker of the queues.
use edge_dns.Prelude.{
  >>=-some, ℕ, ◌≡◌, refl, inl, inr, Bool-cases, ℤ, pos, negsuc, [], ◌∷◌, ◌++◌, Option, none, some,
  ◌==◌,
}
use edge_dns.Queue.State.{Server}
use edge_dns.Queue.Worker.{worker_round}
use edge_dns.Queue.Safe.{worker_round-IsSound}
use edge_dns.Main.Start.{Steps, stop, step, work}
use edge_dns.Uring.Pool.{get_buffer_address, release_buffer}
use edge_dns.Uring.Pipeline.{
  Connection, recvmsg, Completion, context_sent, of_fd, sync_type, read_completion,
}
use edge_dns.Loop.State.{Message, Event, Environment, Thread}
use edge_dns.Loop.Steady.{IsSteady, alike-IsSteady}
use edge_dns.Loop.Served.{IsNamedEvent}
use edge_dns.Loop.Kept.{on_completion-IsSteady}
use edge_dns.Loop.Frame.{
  rearm-EndsAlike, on_error-EndsAlike, on_accept-EndsAlike, read_more-EndsAlike,
}
use edge_dns.Loop.Refines.{EndsSteps, Steps-trans, reached, alike-EndsSteps, serve-EndsSteps}
use edge_dns.Loop.Events.{
  give_back, serve, read_more, read_message, on_read, on_write, on_error, on_accept, on_connection,
  on_result, delete_context, on_completion, handle_event,
}

module _ (env : Environment) (ev : Event) where
  give_back-EndsSteps :
      (group_id buf_id : ℕ) (t : Thread) → EndsSteps t.server (give_back group_id buf_id t)
  unfolding EndsSteps give_back
  give_back-EndsSteps group_id buf_id t u run =
      let (p, released, last) = >>=-some (release_buffer t.pool group_id buf_id) _ run in
      reached t.server (record t { given_back = t.given_back ++ (group_id, p) ∷ [] })
        (stop t.server) u last

  read_message-EndsSteps :
      (key : ℕ) (conn : Connection) (at : Option Message) (t : Thread)
      → ev.message ≡ at
      → IsNamedEvent ev
      → EndsSteps t.server (read_message env ev key conn at t)
  unfolding EndsSteps read_message
  read_message-EndsSteps key conn none t told named u run =
      give_back-EndsSteps conn.buf_group ev.buf_id t u run
  read_message-EndsSteps key conn (some message) t told named u run =
      let (v, given, next) = >>=-some (give_back conn.buf_group ev.buf_id t) _ run in
      let (w, answered, last) = >>=-some (serve env ev key conn message v) _ next in
      Steps-trans t.server v.server u.server
        (give_back-EndsSteps conn.buf_group ev.buf_id t v given)
        (Steps-trans v.server w.server u.server
          (serve-EndsSteps env ev key conn message v (named message told) w answered)
          (alike-EndsSteps w (read_more ev key (w.connections key) w)
            (read_more-EndsAlike ev key (w.connections key) w) u last))

  on_connection-EndsSteps :
      (type fd : ℕ) (at : Option Connection) (t : Thread)
      → IsNamedEvent ev
      → EndsSteps t.server (on_connection env ev type fd at t)
  unfolding EndsSteps on_connection on_read on_write
  on_connection-EndsSteps type fd none t named u run = reached t.server t (stop t.server) u run
  on_connection-EndsSteps type fd (some conn) t named u run = elim (Bool-cases (type == 1)) [
    | inl is_read ↦
        let (raw, address, last) =
          >>=-some (get_buffer_address t.pool conn.buf_group ev.buf_id) _ (rw is_read at run) in
        read_message-EndsSteps fd conn ev.message t refl named u last
    | inr other ↦ elim (Bool-cases (type == 2)) [
      | inl is_write ↦ elim (Bool-cases (conn.type == sync_type)) [
        | inl sync ↦
            alike-EndsSteps t _ (rearm-EndsAlike recvmsg ev.ring fd conn t) u
              (rw (other, is_write, sync) at run)
        | inr more ↦ reached t.server t (stop t.server) u (rw (other, is_write, more) at run)
      ]
      | inr more ↦ reached t.server t (stop t.server) u (rw (other, more) at run)
    ]
  ]

  on_result-EndsSteps :
      (type fd : ℕ) (res : ℤ) (t : Thread)
      → IsNamedEvent ev
      → EndsSteps t.server (on_result env ev type fd res t)
  unfolding EndsSteps on_result
  on_result-EndsSteps type fd (negsuc n) t named u run =
      alike-EndsSteps t (on_error ev type fd t) (on_error-EndsAlike ev type fd t) u run
  on_result-EndsSteps type fd (pos n) t named u run = elim (Bool-cases (type == 0)) [
    | inl accept ↦
        alike-EndsSteps t (on_accept ev fd n t) (on_accept-EndsAlike ev fd n t) u (rw accept at run)
    | inr other ↦ on_connection-EndsSteps type fd (t.connections fd) t named u (rw other at run)
  ]

  on_completion-EndsSteps :
      (c : Completion) (t : Thread)
      → IsNamedEvent ev
      → EndsSteps t.server (on_completion env ev c t)
  unfolding on_completion
  on_completion-EndsSteps (context_sent ctx) t named =
      reached t.server (record t { contexts = delete_context ctx t.contexts }) (stop t.server)
  on_completion-EndsSteps (of_fd type fd) t named = on_result-EndsSteps type fd ev.res t named

  -- What an event does to the caches and the queues is a sequence of steps.
  handle_event-Steps :
      (t u : Thread) → IsNamedEvent ev → handle_event env ev t ≡ some u → Steps t.server u.server
  unfolding EndsSteps handle_event
  handle_event-Steps t u named run =
      on_completion-EndsSteps (read_completion ev.user_data) t named u run

-- A life: the events that the thread handles, and the rounds of the worker of the queues, in any
-- order. The names in the messages have a hash that is not 0.
pub data Life (env : Environment) : Thread → Thread → Type 0 where
  so_far : (t : Thread) → Life env t t
  event :
      (t u v : Thread) (ev : Event)
      → IsNamedEvent ev
      → handle_event env ev t ≡ some u
      → Life env u v
      → Life env t v
  round :
      (t v : Thread) (s : Server)
      → worker_round t.server ≡ some s
      → Life env (record t { server = s }) v
      → Life env t v

-- From a steady thread a life gets only to steady threads, and what it has done to the caches and the
-- queues is a sequence of the server's steps.
pub life-IsSteady :
    (most : ℕ) (env : Environment) (t v : Thread)
    → IsSteady most t
    → Life env t v
    → IsSteady most v × Steps t.server v.server
unfolding handle_event
life-IsSteady most env _ _ steady (so_far t) = (steady, stop t.server)
life-IsSteady most env _ _ steady (event t u v ev named run rest) =
    let kept =
      on_completion-IsSteady most env ev (read_completion ev.user_data) t u steady named run in
    let (last, steps) = life-IsSteady most env u v kept rest in
    (last, Steps-trans t.server u.server v.server (handle_event-Steps env ev t u named run) steps)
life-IsSteady most env _ _ steady (round t v s run rest) =
    let sound = worker_round-IsSound t.server s steady.sound run in
    let w : Thread = record t { server = s } in
    let (last, steps) =
      life-IsSteady most env w v (alike-IsSteady most t w steady refl refl sound) rest in
    (last, step t.server s v.server (work t.server s run) steps)
