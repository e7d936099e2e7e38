-- ===== src/Loop/Steady.antt =====
-- What the loop keeps: a steady thread.
use edge_dns.Prelude.{
  >>=-some, ℕ, ◌+◌, ◌<◌, ◌≤◌, ◌%◌, ◌^◌, ◌≡◌, refl, sym, ap, ◌∙◌, subst, inl, inr, Bool-cases, false,
  Option, none, some, ◌==◌, length, arith,
}
use native.Mathlib.Nat.{mod-lt}
use edge_dns.Queue.Safe.{IsSound}
use edge_dns.Uring.Pool.{BufferPool, pick_group}
use edge_dns.Uring.Setup.{IsLaid}
use edge_dns.Uring.Pipeline.{Connection, QueueEntry, Operation, Ring, get_sqe, queue_read_by}
use edge_dns.Loop.State.{Thread, put_connection, submit}
use edge_dns.Loop.Events.{rearm}

-- The pool is as `setup` has laid it out for groups of at most `most` buffers from group 1 on.
pub record IsPool (most : ℕ) (pool : BufferPool) : Type 0 where
  pub laid : IsLaid most pool.buf_size pool.base_group_id pool.rings
  pub from_one : pool.base_group_id ≡ 1
  pub some_groups : 0 < length pool.rings

-- The group is one of the pool.
abbrev pub IsGroup : BufferPool → ℕ → Type 0
IsGroup pool g = (pool.base_group_id ≤ g) × (g < pool.base_group_id + length pool.rings)

pub record IsSteady (most : ℕ) (t : Thread) : Type 0 where
  pub pooled : IsPool most t.pool
  pub grouped :
      (fd : ℕ) (conn : Connection) → t.connections fd ≡ some conn → IsGroup t.pool conn.buf_group
  pub sound : IsSound t.server

-- What a change of a connection must keep.
pub put_connection-IsSteady :
    (most : ℕ) (t : Thread) (fd : ℕ) (conn : Option Connection)
    → IsSteady most t
    → ((c : Connection) → conn ≡ some c → IsGroup t.pool c.buf_group)
    → IsSteady most (put_connection t fd conn)
put_connection-IsSteady most t fd conn steady fits = record {
  pooled = steady.pooled;
  grouped = λ k c at. elim (Bool-cases (k == fd)) [
    | inl here ↦ fits c (rw here at at)
    | inr away ↦ steady.grouped k c (rw away at at)
  ];
  sound = steady.sound;
}

-- The fields that no event but a read or an accept changes.
pub alike-IsSteady :
    (most : ℕ) (t u : Thread)
    → IsSteady most t
    → u.pool ≡ t.pool
    → u.connections ≡ t.connections
    → IsSound u.server
    → IsSteady most u
alike-IsSteady most t u steady p c sound = record {
  pooled = subst (IsPool most) (sym p) steady.pooled;
  grouped = λ k conn at.
      subst (λ pool. IsGroup pool conn.buf_group) (sym p)
        (steady.grouped k conn (ap (λ f. f k) (sym c) ∙ at));
  sound = sound;
}

same-IsPool :
    (most : ℕ) (pool r : BufferPool) (after : Connection)
    → IsPool most r × (r.base_group_id ≡ pool.base_group_id) × (r.rings ≡ pool.rings)
    → IsGroup pool after.buf_group
    → IsPool most r
      × (r.base_group_id ≡ pool.base_group_id)
      × (r.rings ≡ pool.rings)
      × IsGroup pool after.buf_group
same-IsPool most pool r after (pooled, base, rings) group = (pooled, base, rings, group)

-- A group that is picked is of the pool, which stays as it is.
queue_read_by-IsPool :
    (most : ℕ) (operation : Operation) (ring : Ring) (pool : BufferPool) (conn : Connection)
    (entry : Option QueueEntry) (r : BufferPool) (after : Connection)
    → IsPool most pool
    → IsGroup pool conn.buf_group
    → queue_read_by operation ring pool conn ≡ some (entry, r, after)
    → IsPool most r
      × (r.base_group_id ≡ pool.base_group_id)
      × (r.rings ≡ pool.rings)
      × IsGroup pool after.buf_group
unfolding queue_read_by pick_group
queue_read_by-IsPool most operation ring pool conn entry r after pooled group run =
    let bound = mod-lt pool.rr_counter pooled.some_groups in
    elim (Bool-cases (get_sqe ring)) [
      | inl free ↦
          let some_rings : (length pool.rings == 0) ≡ false = ground (arith, pooled.some_groups) in
          let whole = rw (free, some_rings) at run in
          let pool_is : record pool { rr_counter = (pool.rr_counter + 1) % 2 ^ 64 } ≡ r =
            cc whole in
          let conn_is : record conn {
            buf_group = pool.base_group_id + pool.rr_counter % length pool.rings;
          }
              ≡ after =
            cc whole in
          same-IsPool most pool r after
            (subst
              (λ p. IsPool most p × (p.base_group_id ≡ pool.base_group_id) × (p.rings ≡ pool.rings))
              pool_is
              (
                record {
                  laid = pooled.laid;
                  from_one = pooled.from_one;
                  some_groups = pooled.some_groups;
                },
                refl,
                refl,
              ))
            (subst (λ c. IsGroup pool c.buf_group) conn_is (omega arith, omega (arith, bound)))
      | inr full ↦
          let whole = rw full at run in
          let pool_is : pool ≡ r = cc whole in
          let conn_is : conn ≡ after = cc whole in
          same-IsPool most pool r after
            (subst
              (λ p. IsPool most p × (p.base_group_id ≡ pool.base_group_id) × (p.rings ≡ pool.rings))
              pool_is (pooled, refl, refl))
            (subst (λ c. IsGroup pool c.buf_group) conn_is group)
    ]

moved-IsGroup :
    (pool r : BufferPool) (g : ℕ)
    → r.base_group_id ≡ pool.base_group_id
    → r.rings ≡ pool.rings
    → IsGroup pool g
    → IsGroup r g
moved-IsGroup pool r g base rings (low, high) =
    (omega (arith, base, low), omega (arith, base, high, ap (λ xs. length xs) rings))

pub submit-IsSteady :
    (most : ℕ) (t : Thread) (entry : Option QueueEntry)
    → IsSteady most t
    → IsSteady most (submit t entry)
submit-IsSteady most t none steady = steady
submit-IsSteady most t (some e) steady =
    alike-IsSteady most t (submit t (some e)) steady refl refl steady.sound

-- A read that is queued again.
pub rearm-IsSteady :
    (most : ℕ) (operation : Operation) (ring : Ring) (key : ℕ) (conn : Connection) (t u : Thread)
    → IsSteady most t
    → IsGroup t.pool conn.buf_group
    → rearm operation ring key conn t ≡ some u
    → IsSteady most u
unfolding rearm
rearm-IsSteady most operation ring key conn t u steady group run =
    let (r, queued, last) = >>=-some (queue_read_by operation ring t.pool conn) _ run in
    let (pooled, base, rings, picked) =
      queue_read_by-IsPool most operation ring t.pool conn r.0 r.1 r.2 steady.pooled group queued in
    let v : Thread = record (put_connection t key (some r.2)) { pool = r.1 } in
    let same : submit v r.0 ≡ u = cc last in
    let steady_v : IsSteady most v = record {
      pooled = pooled;
      grouped = λ k c at. elim (Bool-cases (k == key)) [
        | inl here ↦
            let it : r.2 ≡ c = cc (rw here at at) in
            moved-IsGroup t.pool r.1 c.buf_group base rings
              (subst (λ x. IsGroup t.pool x.buf_group) it picked)
        | inr away ↦
            moved-IsGroup t.pool r.1 c.buf_group base rings (steady.grouped k c (rw away at at))
      ];
      sound = steady.sound;
    } in
    subst (IsSteady most) same (submit-IsSteady most v r.0 steady_v)
