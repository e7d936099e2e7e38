-- ===== src/Tests/Sequence.antt =====
-- Runs of sequences of events: a query over UDP, and a client that is accepted.
use edge_dns.Prelude.{ℕ, pos, List, [], ◌∷◌, none, some}
use edge_dns.Core.State.{Question}
use edge_dns.Core.Read.{query_bytes}
use edge_dns.Loop.State.{Message, Event}
use edge_dns.Loop.Events.{query_buf_of}
use edge_dns.Tests.Core.{txt_query, label_a}
use edge_dns.Tests.Loop.{peer, event, udp_read}

abbrev message : Message
message = record { payload = query_bytes txt_query label_a []; peer = peer }

abbrev bytes : List ℕ
bytes = query_buf_of message.payload

-- The same bytes as a query over TCP, where they are read from the third on.
abbrev over_tcp : Question
over_tcp = record {
  transaction_id = 256;
  flags = 1;
  qdcount = 0;
  name_wire = 0 ∷ [];
  qtype = 16;
  qclass = 1;
  edns_class = 1232;
  question = 0 ∷ 0 ∷ 16 ∷ 0 ∷ 1 ∷ [];
}

abbrev query_came : Event
query_came = event udp_read (pos 20) (some message)

abbrev client_came : Event
client_came = event 6 (pos 11) none
