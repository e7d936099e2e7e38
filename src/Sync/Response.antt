-- ===== src/Sync/Response.antt =====
-- The answers of the sync connection, byte by byte.
use edge_dns.Prelude.{ℕ, List, [], ◌∷◌}
use edge_dns.Sync.Handler.{SyncResponse, bad_request, body_0, body_1}

abbrev status_ok : List ℕ → List ℕ
status_ok rest =
    b'H' ∷ b'T' ∷ b'T' ∷ b'P' ∷ b'/' ∷ b'1' ∷ b'.' ∷ b'1' ∷ 32 ∷ b'2' ∷ b'0' ∷ b'0' ∷ 32 ∷ b'O'
    ∷ b'K' ∷ 13 ∷ 10 ∷ rest

abbrev status_bad_request : List ℕ → List ℕ
status_bad_request rest =
    b'H' ∷ b'T' ∷ b'T' ∷ b'P' ∷ b'/' ∷ b'1' ∷ b'.' ∷ b'1' ∷ 32 ∷ b'4' ∷ b'0' ∷ b'0' ∷ 32 ∷ b'B'
    ∷ b'a' ∷ b'd' ∷ 32 ∷ b'R' ∷ b'e' ∷ b'q' ∷ b'u' ∷ b'e' ∷ b's' ∷ b't' ∷ 13 ∷ 10 ∷ rest

abbrev plain_text : List ℕ → List ℕ
plain_text rest =
    b'C' ∷ b'o' ∷ b'n' ∷ b't' ∷ b'e' ∷ b'n' ∷ b't' ∷ b'-' ∷ b'T' ∷ b'y' ∷ b'p' ∷ b'e' ∷ b':' ∷ 32
    ∷ b't' ∷ b'e' ∷ b'x' ∷ b't' ∷ b'/' ∷ b'p' ∷ b'l' ∷ b'a' ∷ b'i' ∷ b'n' ∷ 13 ∷ 10 ∷ rest

abbrev closed : List ℕ → List ℕ
closed rest =
    b'C' ∷ b'o' ∷ b'n' ∷ b'n' ∷ b'e' ∷ b'c' ∷ b't' ∷ b'i' ∷ b'o' ∷ b'n' ∷ b':' ∷ 32 ∷ b'c' ∷ b'l'
    ∷ b'o' ∷ b's' ∷ b'e' ∷ 13 ∷ 10 ∷ rest

abbrev content_length : List ℕ → List ℕ
content_length rest =
    b'C' ∷ b'o' ∷ b'n' ∷ b't' ∷ b'e' ∷ b'n' ∷ b't' ∷ b'-' ∷ b'L' ∷ b'e' ∷ b'n' ∷ b'g' ∷ b't' ∷ b'h'
    ∷ b':' ∷ 32 ∷ rest

unfoldable pub response_text : SyncResponse → List ℕ
response_text bad_request = status_bad_request (
    plain_text (
      closed (
        content_length (
          b'1' ∷ b'1' ∷ 13 ∷ 10 ∷ 13 ∷ 10 ∷ b'B' ∷ b'a' ∷ b'd' ∷ 32 ∷ b'R' ∷ b'e' ∷ b'q' ∷ b'u'
          ∷ b'e' ∷ b's' ∷ b't' ∷ []))))
response_text body_0 =
    status_ok (plain_text (closed (content_length (b'1' ∷ 13 ∷ 10 ∷ 13 ∷ 10 ∷ b'0' ∷ []))))
response_text body_1 =
    status_ok (plain_text (closed (content_length (b'1' ∷ 13 ∷ 10 ∷ 13 ∷ 10 ∷ b'1' ∷ []))))
