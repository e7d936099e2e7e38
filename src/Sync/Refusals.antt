-- ===== src/Sync/Refusals.antt =====
-- The requests that are answered `400 Bad Request`, and the deletion of a record.
use edge_dns.Prelude.{
  ℕ, ◌≡◌, ◌≢◌, refl, inl, inr, Bool-cases, Option-cases, true, not, ◌&&◌, pos, List, [], Option,
  none, some, ◌>>=◌, ◌==◌,
}
use edge_dns.Records.State.{CassUuid, Mmap, RecordData}
use edge_dns.Records.Valid.{IsValid}
use edge_dns.Records.ById.{Absent, delete_record_from_uuid-IsValid}
use edge_dns.Records.Ops.{delete_record_from_uuid}
use edge_dns.Groups.State.{GroupMmap}
use edge_dns.Groups.Ops.{get_entries}
use edge_dns.Groups.Deletion.{delete_entry}
use edge_dns.Wire.RData.{generate_rdata}
use edge_dns.Sync.Key
use edge_dns.Sync.Params.{get_param, c_string}
use edge_dns.Sync.Request.{RecordParams, EntryParams, read_record_params, read_entry_params}
use edge_dns.Sync.Handler.{
  SyncResponse, bad_request, body_0, char_at, array_of, is_op, is_empty, data_of, value_data,
  add_record, replace_record, add_ip, replace_ip, store_record, remove_record, store_by,
  records_with, handle_records, store_ip_of, remove_ip, entries_with, handle_entries, dispatch,
  sync_with, handle_sync,
}

-- No run of `o` is answered Bad Request.
abbrev Served {ℓ} : {A : Type ℓ} → Option (SyncResponse × A) → Type ℓ
Served {A = A} o = (r : A) → o ≢ some (bad_request, r)

-- A run of `o` that is answered Bad Request leaves `a`.
abbrev Keeps {ℓ} : {A : Type ℓ} → A → Option (SyncResponse × A) → Type ℓ
Keeps {A = A} a o = (r : A) → o ≡ some (bad_request, r) → r ≡ a

kept : {A : Type 0} (a : A) → Keeps a (some (bad_request, a))
kept a r h = cc

chain :
    {A B : Type 0} (o : Option A) (f : A → Option B) → Served (do a ← o; r ← f a; some (body_0, r))
chain none f r h = cc
chain (some a) f r h = elim (Option-cases (f a)) [
  | inl nothing ↦ cc (rw nothing at h)
  | inr (b, run) ↦ cc (rw run at h)
]

module _ (uuid_of : List ℕ → CassUuid) where
  store_record-Served :
      (store : Mmap → RecordParams → RecordData → Option Mmap) (text : List ℕ) (m : Mmap)
      (p : RecordParams)
      → Served (store_record uuid_of store text m p)
  unfolding store_record
  store_record-Served store text m p = elim (Bool-cases (char_at p.is_geo 0 == b'1')) [
    | inl geo ↦ rw geo (chain (data_of uuid_of p true []) (store m p))
    | inr plain ↦ elim (Option-cases (get_param text Key.value 4096)) [
      | inl missing ↦ rw (plain, missing) (λ r h. cc h)
      | inr (value, given) ↦ rw (plain, given) (chain (value_data uuid_of p value) (store m p))
    ]
  ]

  delete_chain : {A B : Type 0} (o : Option (A × B)) → Served (do (gone, r) ← o; some (body_0, r))
  delete_chain none r h = cc
  delete_chain (some (a, b)) r h = cc

  remove_record-Keeps :
      (op : ℕ) (m : Mmap) (given : Option (List ℕ)) → Keeps m (remove_record uuid_of op m given)
  unfolding remove_record
  remove_record-Keeps op m none = kept m
  remove_record-Keeps op m (some db_id) = elim (Bool-cases (op == b'3')) [
    | inl delete ↦
        rw delete (λ r h. absurd (delete_chain (delete_record_from_uuid m (uuid_of db_id)) r h))
    | inr other ↦ rw other (kept m)
  ]

  records_with-Keeps :
      (text : List ℕ) (op : ℕ) (m : Mmap) (given : Option RecordParams)
      → Keeps m (records_with uuid_of text op m given)
  unfolding records_with store_by remove_record
  records_with-Keeps text op m (some p) = elim (Bool-cases (op == b'1')) [
    | inl add ↦ rw add (λ r h. absurd (store_record-Served (add_record uuid_of) text m p r h))
    | inr other ↦ elim (Bool-cases (op == b'2')) [
      | inl change ↦
          rw (other, change)
            (λ r h. absurd (store_record-Served (replace_record uuid_of) text m p r h))
      | inr neither ↦ rw (other, neither) (kept m)
    ]
  ]
  records_with-Keeps text op m none = remove_record-Keeps op m (get_param text Key.db_id 40)

  remove_ip-Keeps :
      (op : ℕ) (g : GroupMmap) (group_id db_id : Option (List ℕ))
      → Keeps g (remove_ip uuid_of op g group_id db_id)
  unfolding remove_ip
  remove_ip-Keeps op g none db_id = kept g
  remove_ip-Keeps op g (some group_id) none = kept g
  remove_ip-Keeps op g (some group_id) (some db_id) = elim (Bool-cases (op == b'3')) [
    | inl delete ↦
        rw delete
          (λ r h. absurd (delete_chain (delete_entry g (uuid_of group_id) (uuid_of db_id)) r h))
    | inr other ↦ rw other (kept g)
  ]

  store_ip_of-Keeps :
      (op : ℕ) (g : GroupMmap) (p : EntryParams) → Keeps g (store_ip_of uuid_of op g p)
  unfolding store_ip_of
  store_ip_of-Keeps op g p = elim (Bool-cases (op == b'1')) [
    | inl add ↦
        rw add
          (λ r h. absurd (chain (generate_rdata p.ip_address (pos 1)) (add_ip uuid_of g p) r h))
    | inr other ↦ elim (Bool-cases (op == b'2')) [
      | inl change ↦
          rw (other, change)
            (λ r h.
              absurd (chain (generate_rdata p.ip_address (pos 1)) (replace_ip uuid_of g p) r h))
      | inr neither ↦ rw (other, neither) (kept g)
    ]
  ]

  entries_with-Keeps :
      (text : List ℕ) (op : ℕ) (g : GroupMmap) (given : Option EntryParams)
      → Keeps g (entries_with uuid_of text op g given)
  unfolding entries_with
  entries_with-Keeps text op g none =
      remove_ip-Keeps op g (get_param text Key.group_id 40) (get_param text Key.db_id 40)
  entries_with-Keeps text op g (some p) =
      elim (Option-cases (get_entries g (uuid_of p.group_id) (array_of 32 p.location_code))) [
        | inl fault ↦ rw fault (λ r h. absurd (cc h))
        | inr (out, found) ↦ elim (Bool-cases (is_empty uuid_of out && (op == b'3'))) [
          | inl nothing ↦ rw (found, nothing) (λ r h. absurd (cc h))
          | inr more ↦ rw (found, more) (store_ip_of-Keeps op g p)
        ]
      ]

  -- The same of both caches, of which a request handles one.
  KeepsBoth : Mmap → GroupMmap → Option (SyncResponse × Mmap × GroupMmap) → Type 0
  KeepsBoth m g o = (r : Mmap) (t : GroupMmap) → o ≡ some (bad_request, r, t) → (r ≡ m) × (t ≡ g)

  neither : (m : Mmap) (g : GroupMmap) → KeepsBoth m g (some (bad_request, m, g))
  unfolding KeepsBoth
  neither m g r t h = (cc h, cc h)

  records_part :
      (m : Mmap) (g : GroupMmap) (o : Option (SyncResponse × Mmap))
      → Keeps m o
      → KeepsBoth m g (do (response, r) ← o; some (response, r, g))
  unfolding KeepsBoth
  records_part m g none keeps r t h = absurd (cc h)
  records_part m g (some (response, s)) keeps r t h = (keeps r (cc h), cc h)

  entries_part :
      (m : Mmap) (g : GroupMmap) (o : Option (SyncResponse × GroupMmap))
      → Keeps g o
      → KeepsBoth m g (do (response, r) ← o; some (response, m, r))
  unfolding KeepsBoth
  entries_part m g none keeps r t h = absurd (cc h)
  entries_part m g (some (response, s)) keeps r t h = (cc h, keeps t (cc h))

  dispatch-KeepsBoth :
      (text kind : List ℕ) (m : Mmap) (g : GroupMmap)
      → KeepsBoth m g (dispatch uuid_of text kind m g)
  unfolding dispatch handle_records handle_entries
  dispatch-KeepsBoth text kind m g =
      let op = char_at kind 2 in
      let records =
        records_part m g (handle_records uuid_of text op m)
          (records_with-Keeps text op m (read_record_params text)) in
      let entries =
        entries_part m g (handle_entries uuid_of text op g)
          (entries_with-Keeps text op g (read_entry_params text)) in
      elim (Bool-cases (not (is_op uuid_of op))) [
        | inl wrong ↦ rw wrong (neither m g)
        | inr right ↦ elim (Bool-cases ((char_at kind 0 == b'0') && (char_at kind 1 == b'-'))) [
          | inl of_record ↦ rw (right, of_record) records
          | inr other ↦ elim (Bool-cases ((char_at kind 0 == b'1') && (char_at kind 1 == b'-'))) [
            | inl of_entry ↦ rw (right, other, of_entry) entries
            | inr more ↦ rw (right, other, more) (neither m g)
          ]
        ]
      ]

  sync_with-KeepsBoth :
      (text : List ℕ) (m : Mmap) (g : GroupMmap) (given : Option (List ℕ))
      → KeepsBoth m g (sync_with uuid_of text m g given)
  unfolding sync_with
  sync_with-KeepsBoth text m g none = neither m g
  sync_with-KeepsBoth text m g (some kind) = dispatch-KeepsBoth text kind m g

-- A request that is answered `400 Bad Request` has left both caches as they were.
pub handle_sync-bad_request :
    (uuid_of : List ℕ → CassUuid) (query_buf : List ℕ) (m r : Mmap) (g t : GroupMmap)
    → handle_sync uuid_of query_buf m g ≡ some (bad_request, r, t)
    → (r ≡ m) × (t ≡ g)
unfolding handle_sync KeepsBoth
handle_sync-bad_request uuid_of query_buf m r g t h = elim (Option-cases (c_string query_buf)) [
  | inl fault ↦ absurd (cc (rw fault at h))
  | inr (text, read) ↦
      sync_with-KeepsBoth uuid_of text m g (get_param text Key.type 32) r t (rw read at h)
]

-- On a well-formed cache a request to delete a record that holds all parameters of the other
-- requests is refused; one that does not, but holds an ID, deletes the record of the ID.
pub handle_records_delete :
    (uuid_of : List ℕ → CassUuid) (text : List ℕ) (m : Mmap)
    → IsValid m
    → ((p : RecordParams)
        → read_record_params text ≡ some p
        → handle_records uuid_of text b'3' m ≡ some (bad_request, m))
      × ((db_id : List ℕ)
          → read_record_params text ≡ none
          → get_param text Key.db_id 40 ≡ some db_id
          → (r : Mmap) × (handle_records uuid_of text b'3' m ≡ some (body_0, r))
            × IsValid r
            × Absent r (uuid_of db_id))
unfolding handle_records records_with store_by remove_record
handle_records_delete uuid_of text m v = (
  λ p read. rw read refl,
  λ db_id missing given.
      let (done, r, gone, valid, absent, _, _) =
        delete_record_from_uuid-IsValid m v (uuid_of db_id) in
      (r, rw (missing, given, gone) refl, valid, absent),
)
