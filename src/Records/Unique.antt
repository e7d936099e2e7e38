-- ===== src/Records/Unique.antt =====
-- The bucket that `find_bucket` finds is determined by the table.
use native.Mathlib.Decide.{dec_lt}
use edge_dns.Prelude.{ℕ, ◌≡◌, sym, ap, ◌∙◌, inl, inr, ℤ, arith}
use edge_dns.Records.State.{Mmap}
use edge_dns.Records.Hash.{mask}
use edge_dns.Records.Probe.{window, Finds}

-- `Finds` holds of one result only.
pub Finds-unique :
    (m : Mmap) (hash : ℕ) (qtype : ℤ) (r s : ℕ)
    → Finds m hash qtype r
    → Finds m hash qtype s
    → r ≡ s
Finds-unique m hash qtype r s (inr (e, all)) (inr (e', all')) = e ∙ sym e'
Finds-unique m hash qtype r s (inr (e, all)) (inl (k, h, e', stop, first)) =
    absurd (cc (stop, all k h))
Finds-unique m hash qtype r s (inl (k, h, e, stop, first)) (inr (e', all)) =
    absurd (cc (stop, all k h))
Finds-unique m hash qtype r s (inl (k, h, e, stop, first)) (inl (k', h', e', stop', first')) =
    elim (dec_lt k k') [
      | yes p ↦ absurd (cc (stop, first' k p))
      | no p ↦ elim (dec_lt k' k) [
        | yes q ↦ absurd (cc (stop', first k' q))
        | no q ↦ let same : k ≡ k' = omega arith in e ∙ ap (window (mask hash)) same ∙ sym e'
      ]
    ]
