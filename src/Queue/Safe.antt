-- ===== src/Queue/Safe.antt =====
-- The queue of records is emptied in its order, and keeps the record cache well formed.
use edge_dns.Prelude.{
  ℕ, zero, suc, ◌≡◌, ◌≢◌, refl, subst, List, [], ◌∷◌, ◌++◌, Option, some, ◌>>=◌, Option-cases, inl,
  inr, length,
}
use edge_dns.Records.State.{Mmap}
use edge_dns.Records.Hash.{calculate_hash}
use edge_dns.Records.Valid.{IsValid}
use edge_dns.Records.Append.{append_record-IsValid}
use edge_dns.Queue.State.{QueueType, add, remove, update, QueuedRecord, QueuedEntry, Server}
use edge_dns.Queue.Worker.{
  data_in, store_record_of, store_entry_of, record_part, entry_part, worker_round,
}

-- No name in the queue has the hash 0.
abbrev pub IsNamed : List QueuedRecord → Type 0
IsNamed [] = Unit
IsNamed (q ∷ qs) = (calculate_hash q.name ≢ 0) × IsNamed qs

pub IsNamed-append :
    (qs : List QueuedRecord) (q : QueuedRecord)
    → IsNamed qs
    → calculate_hash q.name ≢ 0
    → IsNamed (qs ++ q ∷ [])
IsNamed-append [] q h named = (named, tt)
IsNamed-append (p ∷ ps) q h named = (h.0, IsNamed-append ps q h.1 named)

store_record_of-IsValid :
    (q : QueuedRecord) (type : QueueType) (m : Mmap)
    → IsValid m
    → calculate_hash q.name ≢ 0
    → (r : Mmap) × (store_record_of q type m ≡ some r) × IsValid r
unfolding store_record_of
store_record_of-IsValid q add m v named =
    let (done, r, run, valid, _, _) = append_record-IsValid m q.name q.qtype (data_in q) v named in
    (r, rw run refl, valid)
store_record_of-IsValid q remove m v named = (m, refl, v)
store_record_of-IsValid q update m v named = (m, refl, v)

-- The record cache is well formed, and the names in its queue have a hash that is not 0.
pub record IsSound (s : Server) : Type 0 where
  pub valid : IsValid s.records
  pub named : IsNamed s.record_queue

pub record_part-IsSound :
    (s : Server) (qs : List QueuedRecord)
    → IsValid s.records
    → IsNamed qs
    → s.record_queue ≡ qs
    → (t : Server) × (record_part s qs ≡ some t) × IsSound t
unfolding record_part
record_part-IsSound s [] v named same = (s, refl, record { valid = v; named = rw same tt })
record_part-IsSound s (q ∷ qs) v named same =
    let (r, run, valid) = store_record_of-IsValid q q.type s.records v named.0 in
    (
      record s { records = r; record_queue = qs },
      rw run refl,
      record { valid = valid; named = named.1 },
    )

entry_part-IsSound :
    (s t : Server) (qs : List QueuedEntry) → IsSound s → entry_part s qs ≡ some t → IsSound t
unfolding entry_part
entry_part-IsSound s t [] sound run = let same : s ≡ t = cc run in subst IsSound same sound
entry_part-IsSound s t (q ∷ qs) sound run = elim (Option-cases (store_entry_of q q.type s.groups)) [
  | inl fault ↦ absurd (cc (rw fault at run))
  | inr (g, stored) ↦
      let same : record s { groups = g; entry_queue = qs } ≡ t = cc (rw stored at run) in
      subst IsSound same (record { valid = sound.valid; named = sound.named })
]

pub worker_round-IsSound : (s t : Server) → IsSound s → worker_round s ≡ some t → IsSound t
unfolding worker_round
worker_round-IsSound s t sound run =
    let (u, first, kept) = record_part-IsSound s s.record_queue sound.valid sound.named refl in
    entry_part-IsSound u t u.entry_queue kept (rw first at run)

-- `n` rounds of the worker.
pub rounds : ℕ → Server → Option Server
rounds zero s = some s
rounds (suc n) s = do t ← worker_round s; rounds n t

-- The writes of a queue, in its order.
pub store_all : List QueuedRecord → Mmap → Option Mmap
store_all [] m = some m
store_all (q ∷ qs) m = do r ← store_record_of q q.type m; store_all qs r

drained :
    (s : Server) (qs : List QueuedRecord)
    → IsValid s.records
    → IsNamed qs
    → s.record_queue ≡ qs
    → s.entry_queue ≡ []
    → (r : Mmap) × (store_all qs s.records ≡ some r)
      × IsValid r
      × (rounds (length qs) s
          ≡ some (record s { records = r; record_queue = []; entry_queue = [] }))
unfolding rounds store_all worker_round record_part entry_part
drained s [] v named same none_queued = (
  s.records,
  refl,
  v,
  λ i. some (record s { record_queue = same i; entry_queue = none_queued i }),
)
drained s (q ∷ qs) v named same none_queued =
    let (r, run, valid) = store_record_of-IsValid q q.type s.records v named.0 in
    let t : Server = record s { records = r; record_queue = qs; entry_queue = [] } in
    let (u, all, done, rest) = drained t qs valid named.1 refl refl in
    (u, rw run all, done, rw (same, none_queued, run) rest)

-- Where the record cache is well formed, only records are queued, and no name has the hash 0, as
-- many rounds as there are records empty the queue without a fault. The cache is then what the
-- writes make of it in their order, and well formed.
pub rounds-store_all :
    (s : Server)
    → IsSound s
    → s.entry_queue ≡ []
    → (r : Mmap) × (store_all s.record_queue s.records ≡ some r)
      × IsValid r
      × (rounds (length s.record_queue) s
          ≡ some (record s { records = r; record_queue = []; entry_queue = [] }))
rounds-store_all s sound none_queued =
    drained s s.record_queue sound.valid sound.named refl none_queued
