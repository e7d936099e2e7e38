-- ===== src/Loop/Sequence.antt =====
-- Sequences of events.
use edge_dns.Prelude.{ℕ, ◌-◌, ◌<◌, ◌≡◌, List, [], ◌∷◌, some, get_elem?}
use edge_dns.Uring.Pool.{RingSlot}
use edge_dns.Uring.Pipeline.{Connection, Completion, of_fd, read_completion}
use edge_dns.Loop.State.{Message, Event, Environment, Thread}
use edge_dns.Loop.Served.{IsNamedEvent}
use edge_dns.Loop.Answered.{IsServable}
use edge_dns.Loop.Events.{handle_event}

-- The names in all the messages have a hash that is not 0.
abbrev pub AllNamed : List Event → Type 0
AllNamed [] = Unit
AllNamed (ev ∷ evs) = IsNamedEvent ev × AllNamed evs

-- The number of the buffer is one that the group of the connection has, and the connection can serve
-- the message, if there is one.
pub record IsReceived (ev : Event) (t : Thread) (conn : Connection) : Type 0 where
  pub slot : RingSlot
  pub found : get_elem? t.pool.rings (conn.buf_group - t.pool.base_group_id) ≡ some slot
  pub in_group : ev.buf_id < slot.count
  pub served : (message : Message) → ev.message ≡ some message → IsServable conn.type message

-- The same, where the event is a read of a known connection.
abbrev pub IsRead : Event → Thread → Completion → Type 0
IsRead ev t c =
    (fd : ℕ) (conn : Connection)
    → c ≡ of_fd 1 fd
    → t.connections fd ≡ some conn
    → IsReceived ev t conn

-- Each read is so, on the thread as it is then.
abbrev pub AllRead : Environment → List Event → Thread → Type 0
AllRead env [] t = Unit
AllRead env (ev ∷ evs) t =
    IsRead ev t (read_completion ev.user_data)
    × ((u : Thread) → handle_event env ev t ≡ some u → AllRead env evs u)
