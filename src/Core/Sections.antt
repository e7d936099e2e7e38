-- ===== src/Core/Sections.antt =====
-- What the answer section holds: the first records of those that were found, one behind another.
use edge_dns.Prelude.{
  ℕ, zero, suc, ◌+◌, ◌%◌, ◌^◌, ◌<◌, ◌≤◌, ◌≡◌, ◌⊎◌, inl, inr, refl, sym, ap, ◌∙◌, Bool, true,
  Bool-cases, List, [], ◌∷◌, ◌++◌, length, length-append, take, arith,
}
use mathlib.Core.List.{append-nil, append_assoc}
use native.Mathlib.Decide.{dec_lt}
use edge_dns.Core.State.{Question, Reply}
use edge_dns.Core.Answer.{resource_record, is_full, put}

-- One resource record to be answered.
pub record Resource : Type 0 where
  pub ttl : ℕ
  pub priority : ℕ
  pub rdata : List ℕ

-- Resource records behind one another.
unfoldable pub section_bytes : (qtype : ℕ) → List Resource → List ℕ
section_bytes qtype [] = []
section_bytes qtype (x ∷ xs) =
    resource_record qtype x.ttl x.priority x.rdata ++ section_bytes qtype xs

-- The answer has grown by the first `n` of the resources: by all of them unless it is truncated, and
-- by none if it was truncated before.
pub record Grows (qtype : ℕ) (xs : List Resource) (p r : Reply) : Type 0 where
  pub n : ℕ
  pub within : n ≤ length xs
  pub bytes : r.written ≡ p.written ++ section_bytes qtype (take n xs)
  pub count : r.anc % 2 ^ 16 ≡ (p.anc + n) % 2 ^ 16
  pub cut : n < length xs → r.truncated ≡ true
  pub stays : p.truncated ≡ true → (n ≡ 0) × (r.truncated ≡ true)

pub put-Grows :
    (q : Question) (is_tcp : Bool) (x : Resource) (p : Reply)
    → Grows q.qtype (x ∷ []) p (put q is_tcp x.ttl x.priority x.rdata p)
unfolding put is_full section_bytes
put-Grows q is_tcp x p = elim (Bool-cases (is_full q is_tcp p (length x.rdata))) [
  | inl full ↦ record {
    n = 0;
    within = omega arith;
    bytes = rw full (sym (append-nil p.written));
    count = rw full (omega arith);
    cut = λ h. full;
    stays = λ h. (refl, full);
  }
  | inr room ↦ record {
    n = 1;
    within = omega arith;
    bytes =
        rw room (
          ap (◌++◌ p.written)
            (sym (append-nil (resource_record q.qtype x.ttl x.priority x.rdata))));
    count = rw room (omega arith);
    cut = λ h. absurd (omega arith);
    stays = λ h. ground (arith, h, room);
  }
]

section_bytes-take :
    (qtype : ℕ) (xs ys : List Resource) (n m k : ℕ)
    → n ≤ length xs
    → (m ≡ 0) ⊎ (n ≡ length xs)
    → k ≡ n + m
    → section_bytes qtype (take k (xs ++ ys))
      ≡ section_bytes qtype (take n xs) ++ section_bytes qtype (take m ys)
unfolding section_bytes
section_bytes-take qtype [] ys zero m k h c e =
    let same : k ≡ m = omega arith in ap (λ t. section_bytes qtype (take t ys)) same
section_bytes-take qtype [] ys (suc n) m k h c e = absurd (omega arith)
section_bytes-take qtype (x ∷ xs) ys zero m k h (inl d) e =
    let none_taken : k ≡ 0 = omega arith in rw (none_taken, d) refl
section_bytes-take qtype (x ∷ xs) ys zero m k h (inr d) e = absurd (omega arith)
section_bytes-take qtype (x ∷ xs) ys (suc n) m zero h c e = absurd (omega arith)
section_bytes-take qtype (x ∷ xs) ys (suc n) m (suc k) h c e =
    let later : (m ≡ 0) ⊎ (n ≡ length xs) = elim c [
      | inl d ↦ inl d
      | inr d ↦ inr (omega (arith, d))
    ] in
    let rr = resource_record qtype x.ttl x.priority x.rdata in
    ap (◌++◌ rr) (section_bytes-take qtype xs ys n m k (omega arith) later (omega arith))
    ∙ sym (append_assoc rr (section_bytes qtype (take n xs)) (section_bytes qtype (take m ys)))

-- Growth by some resources and then by others.
module _ (qtype : ℕ) (xs ys : List Resource) (p r s : Reply) (g : Grows qtype xs p r)
    (h : Grows qtype ys r s) where
  either_cut : (h.n ≡ 0) ⊎ (g.n ≡ length xs)
  either_cut = elim (Bool-cases r.truncated) [
    | inl done ↦ inl (h.stays done).0
    | inr more ↦ inr (elim (dec_lt g.n (length xs)) [
      | yes l ↦ absurd (cc (g.cut l, more))
      | no l ↦ omega (arith, l, g.within)
    ])
  ]

  pub Grows-append : Grows qtype (xs ++ ys) p s
  Grows-append = record {
    n = g.n + h.n;
    within = omega (arith, g.within, h.within, length-append xs ys);
    bytes =
        h.bytes
        ∙ ap (λ t. t ++ section_bytes qtype (take h.n ys)) g.bytes
        ∙ append_assoc p.written (section_bytes qtype (take g.n xs))
            (section_bytes qtype (take h.n ys))
        ∙ ap (◌++◌ p.written)
            (sym (section_bytes-take qtype xs ys g.n h.n (g.n + h.n) g.within either_cut refl));
    count = omega (arith, g.count, h.count);
    cut = λ l.
        ground (arith, either_cut, g.cut, h.cut, h.stays, g.within, h.within, length-append xs ys);
    stays = λ t.
        let first = g.stays t in
        let second = h.stays first.1 in (omega (arith, first.0, second.0), second.1);
  }
