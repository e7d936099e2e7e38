-- ===== src/Sync/Whole.antt =====
-- A whole sync request keeps the record cache well formed.
use edge_dns.Prelude.{
  ℕ, ◌≡◌, ◌≢◌, subst, inl, inr, Bool-cases, Option-cases, true, ◌&&◌, not, List, Option, none, some,
  ◌>>=◌, ◌==◌,
}
use edge_dns.Records.State.{CassUuid, Mmap}
use edge_dns.Records.Hash.{calculate_hash}
use edge_dns.Records.Valid.{IsValid}
use edge_dns.Groups.State.{GroupMmap}
use edge_dns.Wire.Codec.{string_to_wire}
use edge_dns.Sync.Key
use edge_dns.Sync.Params.{get_param, c_string}
use edge_dns.Sync.Request.{RecordParams, read_record_params}
use edge_dns.Sync.Handler.{
  SyncResponse, char_at, is_op, handle_records, handle_entries, dispatch, sync_with, handle_sync,
}
use edge_dns.Sync.Safe.{handle_records-IsValid}

-- The name of a request, if it has one, has a hash that is not 0.
abbrev pub IsNamedRequest : List ℕ → Type 0
IsNamedRequest query_buf =
    (text : List ℕ) (p : RecordParams)
    → c_string query_buf ≡ some text
    → read_record_params text ≡ some p
    → calculate_hash (string_to_wire p.name true) ≢ 0

module _ (uuid_of : List ℕ → CassUuid) (m : Mmap) (g : GroupMmap) (v : IsValid m) where
  -- Whatever a run leaves is well formed.
  LeavesValid : Option (SyncResponse × Mmap × GroupMmap) → Type 0
  LeavesValid o =
      (response : SyncResponse) (r : Mmap) (t : GroupMmap) → o ≡ some (response, r, t) → IsValid r

  unchanged : (response : SyncResponse) → LeavesValid (some (response, m, g))
  unfolding LeavesValid
  unchanged response a r t h = let same : m ≡ r = cc h in subst IsValid same v

  records_run :
      (text : List ℕ) (op : ℕ)
      → ((p : RecordParams)
          → read_record_params text ≡ some p
          → calculate_hash (string_to_wire p.name true) ≢ 0)
      → LeavesValid (do (response, r) ← handle_records uuid_of text op m; some (response, r, g))
  unfolding LeavesValid
  records_run text op named a r t h = elim (handle_records-IsValid uuid_of text op m v named) [
    | inl (p, read, fault, bad) ↦ absurd (cc (rw fault at h))
    | inr (response, s, run, valid) ↦
        let same : s ≡ r = cc (rw run at h) in subst IsValid same valid
  ]

  entries_run :
      (o : Option (SyncResponse × GroupMmap))
      → LeavesValid (do (response, r) ← o; some (response, m, r))
  unfolding LeavesValid
  entries_run none a r t h = absurd (cc h)
  entries_run (some (response, s)) a r t h = let same : m ≡ r = cc h in subst IsValid same v

  dispatch-LeavesValid :
      (text kind : List ℕ)
      → ((p : RecordParams)
          → read_record_params text ≡ some p
          → calculate_hash (string_to_wire p.name true) ≢ 0)
      → LeavesValid (dispatch uuid_of text kind m g)
  unfolding dispatch
  dispatch-LeavesValid text kind named =
      let op = char_at kind 2 in
      elim (Bool-cases (not (is_op uuid_of op))) [
        | inl wrong ↦ rw wrong (unchanged SyncResponse.bad_request)
        | inr right ↦ elim (Bool-cases ((char_at kind 0 == b'0') && (char_at kind 1 == b'-'))) [
          | inl of_record ↦ rw (right, of_record) (records_run text op named)
          | inr other ↦ elim (Bool-cases ((char_at kind 0 == b'1') && (char_at kind 1 == b'-'))) [
            | inl of_entry ↦
                rw (right, other, of_entry) (entries_run (handle_entries uuid_of text op g))
            | inr more ↦ rw (right, other, more) (unchanged SyncResponse.bad_request)
          ]
        ]
      ]

  sync_with-LeavesValid :
      (text : List ℕ) (given : Option (List ℕ))
      → ((p : RecordParams)
          → read_record_params text ≡ some p
          → calculate_hash (string_to_wire p.name true) ≢ 0)
      → LeavesValid (sync_with uuid_of text m g given)
  unfolding sync_with
  sync_with-LeavesValid text none named = unchanged SyncResponse.bad_request
  sync_with-LeavesValid text (some kind) named = dispatch-LeavesValid text kind named

-- A sync request that runs to its end on a well-formed record cache leaves a well-formed one.
pub handle_sync-IsValid :
    (uuid_of : List ℕ → CassUuid) (query_buf : List ℕ) (m : Mmap) (g : GroupMmap)
    (response : SyncResponse) (r : Mmap) (t : GroupMmap)
    → IsValid m
    → IsNamedRequest query_buf
    → handle_sync uuid_of query_buf m g ≡ some (response, r, t)
    → IsValid r
unfolding handle_sync LeavesValid
handle_sync-IsValid uuid_of query_buf m g response r t v named h =
    elim (Option-cases (c_string query_buf)) [
      | inl fault ↦ absurd (cc (rw fault at h))
      | inr (text, read) ↦
          sync_with-LeavesValid uuid_of m g v text (get_param text Key.type 32)
            (λ p given. named text p read given) response r t (rw read at h)
    ]
