-- ===== src/Database/Answers.antt =====
-- The answers that are made of rows have the widths of their fields.
use edge_dns.Prelude.{
  ℕ, ◌^◌, ◌<◌, ◌≡◌, ◌≢◌, refl, inl, inr, Bool-cases, Option-cases, true, false, ℤ, pos, negsuc,
  List, [], ◌∷◌, none, some, arith,
}
use edge_dns.Records.State.{CassUuid, DnsResponseData}
use edge_dns.Wire.RData.{generate_rdata}
use edge_dns.Sync.Numbers.{to_unsigned}
use edge_dns.Queue.Stored.{IsAnswer}
use edge_dns.Database.Rows.{RecordRow, with_data, read_row, read_rows, db_get_record}

-- `generateRData` refuses no value of a row that is not geo.
abbrev pub AllAccepted : ℤ → List RecordRow → Type 0
AllAccepted type [] = Unit
AllAccepted type (row ∷ rows) =
    (row.is_geo ≡ false → generate_rdata row.value type ≢ none) × AllAccepted type rows

to_unsigned-lt : (n : ℤ) → to_unsigned 32 n < 2 ^ 32
unfolding to_unsigned
to_unsigned-lt (pos n) = omega arith
to_unsigned-lt (negsuc n) = omega arith

with_data-IsAnswer :
    (unset : DnsResponseData) (row : RecordRow) (rdata : List ℕ) (group_id : CassUuid)
    → (row.is_geo ≡ true → rdata ≡ [])
    → IsAnswer (with_data unset row rdata group_id)
unfolding with_data
with_data-IsAnswer unset row rdata group_id empty = record {
  ttl_width = to_unsigned-lt row.ttl;
  priority_width = omega arith;
  geo_empty = empty;
}

-- What an answer says of its row: every field but the bucket, and the group of a record that is not
-- geo, which stay as they are in memory.
pub record IsOf (unset : DnsResponseData) (type : ℤ) (row : RecordRow) (r : DnsResponseData)
    : Type 0 where
  pub widths : IsAnswer r
  pub id : r.id ≡ row.id
  pub is_geo : r.is_geo ≡ row.is_geo
  pub is_proxy : r.is_proxy ≡ row.is_proxy
  pub ttl : (n : ℕ) → row.ttl ≡ pos n → n < 2 ^ 32 → r.ttl ≡ n
  pub priority : row.prio < 2 ^ 16 → r.priority ≡ row.prio
  pub group : row.is_geo ≡ true → r.group_id ≡ row.ip_group
  pub stored : row.is_geo ≡ false → generate_rdata row.value type ≡ some r.rdata
  pub no_data : row.is_geo ≡ true → r.rdata ≡ []
  pub rest : (r.bucket_idx ≡ unset.bucket_idx) × (row.is_geo ≡ false → r.group_id ≡ unset.group_id)

-- There is one answer for each row, in their order.
abbrev pub EachIsOf : DnsResponseData → ℤ → List RecordRow → List DnsResponseData → Type 0
EachIsOf unset type [] [] = Unit
EachIsOf unset type [] (_ ∷ _) = ⊥
EachIsOf unset type (_ ∷ _) [] = ⊥
EachIsOf unset type (row ∷ rows) (r ∷ rs) = IsOf unset type row r × EachIsOf unset type rows rs

ttl_kept : (t : ℤ) (n : ℕ) → t ≡ pos n → n < 2 ^ 32 → to_unsigned 32 t ≡ n
unfolding to_unsigned
ttl_kept t n e h = rw e (omega (arith, h))

with_data-IsOf :
    (unset : DnsResponseData) (type : ℤ) (row : RecordRow)
    → (row.is_geo ≡ false → generate_rdata row.value type ≢ none)
    → (r : DnsResponseData) × (read_row unset type row ≡ some r) × IsOf unset type row r
unfolding read_row with_data
with_data-IsOf unset type row accepted = elim (Bool-cases row.is_geo) [
  | inl geo ↦ (
    with_data unset row [] row.ip_group,
    rw geo refl,
    record {
      widths = with_data-IsAnswer unset row [] row.ip_group (λ e. refl);
      id = refl;
      is_geo = refl;
      is_proxy = refl;
      ttl = λ n. ttl_kept row.ttl n;
      priority = λ h. omega (arith, h);
      group = λ e. refl;
      stored = λ e. absurd (cc (e, geo));
      no_data = λ e. refl;
      rest = (refl, λ e. absurd (cc (e, geo)));
    },
  )
  | inr plain ↦ elim (Option-cases (generate_rdata row.value type)) [
    | inl refused ↦ absurd (accepted plain refused)
    | inr (rdata, made) ↦ (
      with_data unset row rdata unset.group_id,
      rw (plain, made) refl,
      record {
        widths = with_data-IsAnswer unset row rdata unset.group_id (λ e. absurd (cc (e, plain)));
        id = refl;
        is_geo = refl;
        is_proxy = refl;
        ttl = λ n. ttl_kept row.ttl n;
        priority = λ h. omega (arith, h);
        group = λ e. absurd (cc (e, plain));
        stored = λ e. made;
        no_data = λ e. absurd (cc (e, plain));
        rest = (refl, λ e. refl);
      },
    )
  ]
]

read_rows-EachIsOf :
    (unset : DnsResponseData) (type : ℤ) (rows : List RecordRow)
    → AllAccepted type rows
    → (rs : List DnsResponseData) × (read_rows unset type rows ≡ some rs)
      × EachIsOf unset type rows rs
unfolding read_rows
read_rows-EachIsOf unset type [] accepted = ([], refl, tt)
read_rows-EachIsOf unset type (row ∷ rows) accepted =
    let (r, run, is) = with_data-IsOf unset type row accepted.0 in
    let (rs, rest, all) = read_rows-EachIsOf unset type rows accepted.1 in
    (r ∷ rs, rw (run, rest) refl, (is, all))

-- For the rows of a query, where `generateRData` refuses no value of a row that is not geo, there is
-- one answer for each, in their order: with the ID, the two flags, the lifetime and the priority of
-- the row where they fit in their fields; a geo record with the group of the row and no data, any
-- other with the data that its value stands for. The fields that the code does not write are as they
-- are in memory.
pub db_get_record-EachIsOf :
    (unset : DnsResponseData) (type : ℤ) (rows : List RecordRow)
    → AllAccepted type rows
    → (rs : List DnsResponseData) × (db_get_record unset type (some rows) ≡ some rs)
      × EachIsOf unset type rows rs
unfolding db_get_record
db_get_record-EachIsOf unset type rows accepted = read_rows-EachIsOf unset type rows accepted
