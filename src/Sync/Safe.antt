-- ===== src/Sync/Safe.antt =====
-- The requests on records keep the record cache well formed.
use edge_dns.Prelude.{
  ℕ, ◌≡◌, ◌≢◌, refl, ◌⊎◌, inl, inr, Bool, Bool-cases, Option-cases, true, false, ℤ, List, [],
  Option, none, some, ◌>>=◌, ◌==◌,
}
use edge_dns.Records.State.{CassUuid, Mmap, RecordData}
use edge_dns.Records.Hash.{calculate_hash}
use edge_dns.Records.Valid.{IsValid}
use edge_dns.Records.Append.{append_record-IsValid}
use edge_dns.Records.ById.{delete_record_from_uuid-IsValid}
use edge_dns.Records.Update.{update_record_cases, rewritten}
use edge_dns.Wire.Codec.{string_to_wire}
use edge_dns.Wire.RData.{generate_rdata}
use edge_dns.Sync.Key
use edge_dns.Sync.Params.{get_param}
use edge_dns.Sync.Numbers.{atoi}
use edge_dns.Sync.Request.{RecordParams, read_record_params}
use edge_dns.Sync.Handler.{
  SyncResponse, bad_request, body_0, body_1, char_at, data_of, value_data, add_record,
  replace_record, store_record, remove_record, store_by, records_with, handle_records,
}

-- A number of the request that no `int` holds, or a value from which `generateRData` throws.
pub data IsBad (text : List ℕ) (p : RecordParams) : Type 0 where
  bad_ttl : atoi p.ttl ≡ none → IsBad text p
  bad_priority : atoi p.priority ≡ none → IsBad text p
  bad_type : atoi p.rec_type ≡ none → IsBad text p
  bad_value :
      (value : List ℕ) (qtype : ℤ)
      → get_param text Key.value 4096 ≡ some value
      → atoi p.rec_type ≡ some qtype
      → generate_rdata value qtype ≡ none
      → IsBad text p

module _ (uuid_of : List ℕ → CassUuid) (text : List ℕ) (p : RecordParams)
    (named : calculate_hash (string_to_wire p.name true) ≢ 0) where
  -- A run that ends in a well-formed cache, or the reason why it does not end in one.
  Runs : Option Mmap → Type 0
  Runs o = ((o ≡ none) × IsBad text p) ⊎ ((r : Mmap) × (o ≡ some r) × IsValid r)

  add_record-Runs : (m : Mmap) (d : RecordData) → IsValid m → Runs (add_record uuid_of m p d)
  unfolding add_record Runs
  add_record-Runs m d v = elim (Option-cases (atoi p.rec_type)) [
    | inl bad ↦ inl (rw bad refl, bad_type bad)
    | inr (qtype, read) ↦
        let (done, r, run, valid, _, _) =
          append_record-IsValid m (string_to_wire p.name true) qtype d v named in
        inr (r, rw (read, run) refl, valid)
  ]

  replace_record-Runs :
      (m : Mmap) (d : RecordData) → IsValid m → Runs (replace_record uuid_of m p d)
  unfolding replace_record Runs
  replace_record-Runs m d v = elim (update_record_cases m d v) [
    | inr (i, run, _, _, valid) ↦ inr (rewritten m i d, rw run refl, valid)
    | inl (run, _) ↦
        let (done, t, gone, valid, _, _, _) = delete_record_from_uuid-IsValid m v d.id in
        rw (run, gone) (add_record-Runs t d valid)
  ]

  -- The answer and the cache of a request, in the same way.
  Answers : Option (SyncResponse × Mmap) → Type 0
  Answers o =
      ((o ≡ none) × IsBad text p)
      ⊎ ((response : SyncResponse) × (r : Mmap) × (o ≡ some (response, r)) × IsValid r)

  data_cases :
      (is_geo : Bool) (rdata : List ℕ)
      → ((data_of uuid_of p is_geo rdata ≡ none) × IsBad text p)
        ⊎ ((d : RecordData) × (data_of uuid_of p is_geo rdata ≡ some d))
  unfolding data_of
  data_cases is_geo rdata = elim (Option-cases (data_of uuid_of p is_geo rdata)) [
    | inr made ↦ inr made
    | inl nothing ↦ elim (Option-cases (atoi p.ttl)) [
      | inl bad ↦ inl (nothing, bad_ttl bad)
      | inr (ttl, read) ↦ elim (Option-cases (atoi p.priority)) [
        | inl bad ↦ inl (nothing, bad_priority bad)
        | inr (priority, also) ↦ absurd (cc (rw (read, also) at nothing))
      ]
    ]
  ]

  value_cases :
      (value : List ℕ)
      → get_param text Key.value 4096 ≡ some value
      → ((value_data uuid_of p value ≡ none) × IsBad text p)
        ⊎ ((d : RecordData) × (value_data uuid_of p value ≡ some d))
  unfolding value_data
  value_cases value given = elim (Option-cases (atoi p.rec_type)) [
    | inl bad ↦ inl (rw bad refl, bad_type bad)
    | inr (qtype, read) ↦ elim (Option-cases (generate_rdata value qtype)) [
      | inl bad ↦ inl (rw (read, bad) refl, bad_value value qtype given read bad)
      | inr (rdata, made) ↦ rw (read, made) (data_cases false rdata)
    ]
  ]

  module _ (store : Mmap → RecordParams → RecordData → Option Mmap) (m : Mmap)
      (safe : (d : RecordData) → Runs (store m p d)) where
    stored : (Option RecordData) → Option (SyncResponse × Mmap)
    stored o = do d ← o; r ← store m p d; some (body_0, r)

    stored-Answers :
        (o : Option RecordData)
        → ((o ≡ none) × IsBad text p) ⊎ ((d : RecordData) × (o ≡ some d))
        → Answers (stored o)
    unfolding Answers Runs stored
    stored-Answers o made = elim made [
      | inl (nothing, bad) ↦ inl (rw nothing refl, bad)
      | inr (d, some_data) ↦ elim (safe d) [
        | inl (nothing, bad) ↦ inl (rw (some_data, nothing) refl, bad)
        | inr (r, run, valid) ↦ inr (body_0, r, rw (some_data, run) refl, valid)
      ]
    ]

    store_record-Answers : IsValid m → Answers (store_record uuid_of store text m p)
    unfolding store_record stored Answers
    store_record-Answers v = elim (Bool-cases (char_at p.is_geo 0 == b'1')) [
      | inl geo ↦ rw geo (stored-Answers (data_of uuid_of p true []) (data_cases true []))
      | inr plain ↦ elim (Option-cases (get_param text Key.value 4096)) [
        | inl missing ↦ rw (plain, missing) (inr (body_1, m, refl, v))
        | inr (value, given) ↦
            rw (plain, given)
              (stored-Answers (value_data uuid_of p value) (value_cases value given))
      ]
    ]

  store_by-Answers : (op : ℕ) (m : Mmap) → IsValid m → Answers (store_by uuid_of text op m p)
  unfolding store_by Answers Runs
  store_by-Answers op m v = elim (Bool-cases (op == b'1')) [
    | inl add ↦ rw add (store_record-Answers (add_record uuid_of) m (λ d. add_record-Runs m d v) v)
    | inr other ↦ elim (Bool-cases (op == b'2')) [
      | inl change ↦
          rw (other, change)
            (store_record-Answers (replace_record uuid_of) m (λ d. replace_record-Runs m d v) v)
      | inr neither ↦ rw (other, neither) (inr (bad_request, m, refl, v))
    ]
  ]

remove_record-IsValid :
    (uuid_of : List ℕ → CassUuid) (op : ℕ) (m : Mmap)
    → IsValid m
    → (given : Option (List ℕ))
    → (response : SyncResponse) × (r : Mmap) × (remove_record uuid_of op m given
        ≡ some (response, r))
      × IsValid r
unfolding remove_record
remove_record-IsValid uuid_of op m v none = (bad_request, m, refl, v)
remove_record-IsValid uuid_of op m v (some db_id) =
    let (done, r, gone, valid, _, _, _) = delete_record_from_uuid-IsValid m v (uuid_of db_id) in
    elim (Bool-cases (op == b'3')) [
      | inl delete ↦ rw (delete, gone) (body_0, r, refl, valid)
      | inr other ↦ rw other (bad_request, m, refl, v)
    ]

-- On a well-formed cache a request on records leaves a well-formed cache, provided that the hash of
-- its name is not 0; it faults only where one of its numbers is too large for an `int`, or where
-- `generateRData` throws for its value.
pub handle_records-IsValid :
    (uuid_of : List ℕ → CassUuid) (text : List ℕ) (op : ℕ) (m : Mmap)
    → IsValid m
    → ((p : RecordParams)
        → read_record_params text ≡ some p
        → calculate_hash (string_to_wire p.name true) ≢ 0)
    → ((p : RecordParams) × (read_record_params text ≡ some p)
        × (handle_records uuid_of text op m ≡ none)
        × IsBad text p)
      ⊎ ((response : SyncResponse) × (r : Mmap) × (handle_records uuid_of text op m
            ≡ some (response, r))
          × IsValid r)
unfolding handle_records records_with store_by Answers Runs remove_record
handle_records-IsValid uuid_of text op m v named = elim (Option-cases (read_record_params text)) [
  | inr (p, read) ↦ elim (store_by-Answers uuid_of text p (named p read) op m v) [
    | inl (fault, bad) ↦ inl (p, read, rw read fault, bad)
    | inr answers ↦ inr (rw read answers)
  ]
  | inl missing ↦
      rw missing (inr (remove_record-IsValid uuid_of op m v (get_param text Key.db_id 40)))
]
