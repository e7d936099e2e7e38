-- ===== src/Tests/Database.antt =====
-- Runs on the rows of the database: an address and a geo record.
use edge_dns.Prelude.{refl, ◌≡◌, true, false, List, [], ◌∷◌, some, pos}
use edge_dns.Records.State.{DnsResponseData, zero_uuid}
use edge_dns.Wire.Ipv4.{ipv4_to_wire, part_loop}
use edge_dns.Wire.Parse.{stoi}
use edge_dns.Wire.Codec.{before_dot, after_dot}
use edge_dns.Wire.RData.{generate_rdata}
use edge_dns.Database.Rows.{RecordRow, db_get_record}
use edge_dns.Database.Answers.{AllAccepted, EachIsOf, db_get_record-EachIsOf}

abbrev unset : DnsResponseData
unset = record {
  ttl = 0;
  priority = 0;
  rdata = [];
  group_id = zero_uuid;
  id = zero_uuid;
  bucket_idx = 0;
  is_geo = false;
  is_proxy = false;
}

abbrev row : RecordRow
row = record {
  ttl = pos 300;
  prio = 0;
  value = b'1' ∷ b'.' ∷ b'2' ∷ b'.' ∷ b'3' ∷ b'.' ∷ b'4' ∷ [];
  ip_group = zero_uuid;
  id = zero_uuid;
  is_geo = false;
  is_proxy = false;
}

abbrev two_rows : List RecordRow
two_rows = row ∷ record row { is_geo = true } ∷ []

made :
    generate_rdata (b'1' ∷ b'.' ∷ b'2' ∷ b'.' ∷ b'3' ∷ b'.' ∷ b'4' ∷ []) (pos 1)
    ≡ some (1 ∷ 2 ∷ 3 ∷ 4 ∷ [])
unfolding generate_rdata ipv4_to_wire part_loop stoi before_dot after_dot
made = refl

accepted : AllAccepted (pos 1) two_rows
accepted = ((λ plain refused. cc (made, refused)), ((λ plain. absurd (cc plain)), tt))

db_get_record-EachIsOf_example :
    (rs : List DnsResponseData) × (db_get_record unset (pos 1) (some two_rows) ≡ some rs)
    × EachIsOf unset (pos 1) two_rows rs
db_get_record-EachIsOf_example = db_get_record-EachIsOf unset (pos 1) two_rows accepted
