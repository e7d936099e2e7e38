-- ===== src/Records/Walk.antt =====
-- The walk of a chain by `get_record`, before and after a record is put in front of it.
use edge_dns.Prelude.{
  ℕ, zero, suc, ◌%◌, ◌<◌, ◌≡◌, ◌≢◌, refl, sym, ap, ◌∙◌, true, false, not, ◌&&◌, ℤ, pos, negsuc,
  ==ℤ_iff, ltb, if◌then◌else◌, arith, length, List, [], ◌∷◌, take, take-append-length, take-nil,
}
use edge_dns.Records.State.{
  Mmap, RecordData, DnsRecord, DnsResponseData, max_data_records, payload_size, padded,
}
use edge_dns.Records.Ops.{response_of, visit, collect, filled}
use edge_dns.Records.Valid.{IsUsed, ChainsValid}
use edge_dns.Records.Push.{pushed, first_of_bucket}

-- The answer for data that has been stored in bucket `b`.
unfoldable pub answer_of : RecordData → ℕ → DnsResponseData
answer_of d b = record {
  ttl = d.ttl;
  priority = d.priority;
  rdata = if d.is_geo then [] else d.binary_rdata;
  group_id = d.group_id;
  id = d.id;
  bucket_idx = b;
  is_geo = d.is_geo;
  is_proxy = d.is_proxy;
}

-- Data that passed the size check comes back whole.
pub stored_rdata :
    (xs : List ℕ) → ltb payload_size (length xs) ≡ false → take (length xs % 256) (padded xs) ≡ xs
stored_rdata xs h =
    let small : length xs % 256 ≡ length xs = ground arith in rw small (take-append-length xs _)

visit_congr :
    (r s : DnsRecord) (n : ℕ) (xs ys : List DnsResponseData)
    → r.is_used ≡ s.is_used
    → r.next_index ≡ s.next_index
    → response_of r ≡ response_of s
    → xs ≡ ys
    → visit r n xs ≡ visit s n ys
unfolding visit
visit_congr r s n xs ys used next answer e = rw (answer, used, next, e)

module _ (m : Mmap) (c : ChainsValid m) (b hash : ℕ) (qtype : ℤ) (i : ℕ) (d : RecordData)
    (unused : IsUsed m i false) where
  -- Where the walk of a chain stands: past its end, or at a used record.
  abbrev pub OnChain : ℤ → Type 0
  OnChain (pos n) = (n < max_data_records) × IsUsed m n true
  OnChain (negsuc k) = Unit

  next-OnChain :
      (n : ℕ) (e : ℤ)
      → n < max_data_records
      → IsUsed m n true
      → (m.data_records n).next_index ≡ e
      → OnChain e
  next-OnChain n (pos k) h u e = let t = c.next_pos n k h u e in (t.0, t.1)
  next-OnChain n (negsuc k) h u e = tt

  pushed_other :
      (n : ℕ)
      → n ≢ i
      → let r = (pushed m b hash qtype i d).data_records n in
        (r.is_used ≡ (m.data_records n).is_used)
        × (r.next_index ≡ (m.data_records n).next_index)
        × (response_of r ≡ response_of (m.data_records n))
  unfolding pushed response_of
  pushed_other n ne = ground arith

  -- The walk of an old chain does not see the new record.
  pub collect-pushed :
      (fuel : ℕ) (current : ℤ)
      → OnChain current
      → collect fuel (pushed m b hash qtype i d) current ≡ collect fuel m current
  unfolding collect
  collect-pushed zero current on = refl
  collect-pushed (suc fuel) (negsuc k) on = refl
  collect-pushed (suc fuel) (pos n) (h, u) =
      let apart : n ≢ i = ground arith in
      let (used, next, answer) = pushed_other n apart in
      visit_congr _ _ n _ _ used next answer (
        ap (collect fuel (pushed m b hash qtype i d)) next
        ∙ collect-pushed fuel (m.data_records n).next_index (next-OnChain n _ h u refl))

-- A walk with one round less sees one record less.
visit-take :
    (r : DnsRecord) (n fuel : ℕ) (rest : List DnsResponseData)
    → take (suc fuel) (visit r n rest) ≡ visit r n (take fuel rest)
unfolding visit
visit-take r n fuel rest = ground (arith, take-nil {A = DnsResponseData} fuel)

pub collect-take :
    (fuel : ℕ) (m : Mmap) (current : ℤ)
    → collect fuel m current ≡ take fuel (collect (suc fuel) m current)
unfolding collect
collect-take zero m current = refl
collect-take (suc fuel) m (negsuc k) = refl
collect-take (suc fuel) m (pos n) =
    let r = m.data_records n in
    ap (visit r n) (collect-take fuel m r.next_index) ∙ sym (visit-take r n fuel _)

pub collect-end : (fuel : ℕ) (m : Mmap) (k : ℕ) → collect fuel m (negsuc k) ≡ []
unfolding collect
collect-end zero m k = refl
collect-end (suc fuel) m k = refl

pub pushed_self :
    (m : Mmap) (b hash : ℕ) (qtype : ℤ) (i : ℕ) (d : RecordData)
    → (not d.is_geo && ltb payload_size (length d.binary_rdata)) ≡ false
    → let r = (pushed m b hash qtype i d).data_records i in
      (r.is_used ≡ true) × (r.next_index ≡ first_of_bucket m b) × (response_of r ≡ answer_of d b)
unfolding pushed filled response_of answer_of
pushed_self m b hash qtype i d small = ground (arith, stored_rdata d.binary_rdata)

pub visit_used :
    (r : DnsRecord) (n : ℕ) (rest : List DnsResponseData)
    → n < max_data_records
    → r.is_used ≡ true
    → r.next_index ≢ pos n
    → visit r n rest ≡ response_of r ∷ rest
unfolding visit
visit_used r n rest h u ne = ground (arith, ==ℤ_iff r.next_index (pos n))
