-- ===== src/Wire/Names.antt =====
-- `stringToWire` and `wireToDomain` undo each other on well-formed names.
use edge_dns.Prelude.{
  ℕ, zero, suc, ◌+◌, ◌-◌, ◌%◌, ◌<◌, ◌≤◌, ◌≡◌, refl, sym, ap, ap₂, ◌∙◌, true, false, List, [], ◌∷◌,
  ◌++◌, map, arith, ◌==◌, ltb, if◌then◌else◌, length, some, length-append, take, drop,
  take-append-length, drop-append-length,
}
use mathlib.Core.List.{append-nil, append_assoc}
use edge_dns.Wire.Codec.{
  dot, to_lower, drop_last_dot, label_loop, string_to_wire, domain_loop, wire_to_domain,
}
use edge_dns.Wire.Labels.{
  IsLabelChar, AllChars, IsLabel, AllLabels, dotted, wired, before_dot-label, after_dot-label,
  after_dot-last, dotted_tail,
}

map-to_lower_tail :
    (l : List ℕ) (ls : List (List ℕ))
    → AllChars l
    → AllLabels ls
    → map to_lower (l ++ dotted_tail ls) ≡ l ++ dotted_tail ls
unfolding dotted_tail to_lower
map-to_lower_tail [] [] h g = refl
map-to_lower_tail [] (k ∷ ls) h g = ap (◌∷◌ dot) (map-to_lower_tail k ls g.0.2 g.1)
map-to_lower_tail (c ∷ cs) ls h g = ap₂ ◌∷◌ h.0.1 (map-to_lower_tail cs ls h.1 g)

-- A name does not end in a dot, so `drop_last_dot` drops nothing.
drop_last_dot-label :
    (c : ℕ) (cs : List ℕ) (ls : List (List ℕ))
    → IsLabelChar c
    → AllChars cs
    → AllLabels ls
    → drop_last_dot (c ∷ (cs ++ dotted_tail ls)) ≡ c ∷ (cs ++ dotted_tail ls)
unfolding drop_last_dot dotted_tail
drop_last_dot-label c [] [] h hs g = ground (arith, h)
drop_last_dot-label c [] ([] ∷ ls) h hs g = absurd (omega (arith, g.0.0))
drop_last_dot-label c [] ((d ∷ ds) ∷ ls) h hs g =
    ap (λ t. c ∷ dot ∷ t) (drop_last_dot-label d ds ls g.0.2.0 g.0.2.1 g.1)
drop_last_dot-label c (d ∷ ds) ls h hs g = ap (◌∷◌ c) (drop_last_dot-label d ds ls hs.0 hs.1 g)

label_loop-nil : (fuel : ℕ) → label_loop fuel [] ≡ []
unfolding label_loop
label_loop-nil zero = refl
label_loop-nil (suc fuel) = refl

label_loop-wired :
    (fuel c : ℕ) (cs : List ℕ) (ls : List (List ℕ))
    → IsLabel (c ∷ cs)
    → AllLabels ls
    → length (c ∷ (cs ++ dotted_tail ls)) ≤ fuel
    → label_loop fuel (c ∷ (cs ++ dotted_tail ls)) ≡ wired ((c ∷ cs) ∷ ls)
unfolding label_loop wired dotted_tail
label_loop-wired zero c cs ls h g f = absurd (omega arith)
label_loop-wired (suc fuel) c cs [] h g f =
    let small : length (c ∷ cs) % 256 ≡ length (c ∷ cs) = omega (arith, h.1) in
    rw (before_dot-label (c ∷ cs) [] h.2, small, after_dot-last (c ∷ cs) h.2, label_loop-nil fuel)
label_loop-wired (suc fuel) c cs ([] ∷ ls) h g f = absurd (omega (arith, g.0.0))
label_loop-wired (suc fuel) c cs ((d ∷ ds) ∷ ls) h g f =
    let small : length (c ∷ cs) % 256 ≡ length (c ∷ cs) = omega (arith, h.1) in
    rw
      (
        before_dot-label (c ∷ cs) ((d ∷ ds) ∷ ls) h.2,
        small,
        after_dot-label (c ∷ cs) (d ∷ ds) ls h.2,
      )
      (ap (λ t. length (c ∷ cs) ∷ (c ∷ (cs ++ t)))
        (label_loop-wired fuel d ds ls g.0 g.1
          (omega (arith, f, length-append cs (dotted_tail ((d ∷ ds) ∷ ls))))))

-- A dotted name of well-formed labels is put on the wire label by label.
pub string_to_wire-dotted :
    (ls : List (List ℕ)) → AllLabels ls → string_to_wire (dotted ls) true ≡ wired ls ++ 0 ∷ []
unfolding string_to_wire dotted wired
string_to_wire-dotted [] h = ap (λ t. t ++ 0 ∷ []) (label_loop-nil 0)
string_to_wire-dotted ([] ∷ ls) h = absurd (omega (arith, h.0.0))
string_to_wire-dotted ((c ∷ cs) ∷ ls) h =
    let domain = c ∷ (cs ++ dotted_tail ls) in
    let same : drop_last_dot (map to_lower domain) ≡ domain =
      ap drop_last_dot (map-to_lower_tail (c ∷ cs) ls h.0.2 h.1)
      ∙ drop_last_dot-label c cs ls h.0.2.0 h.0.2.1 h.1 in
    ap (λ d. label_loop (length d) d ++ 0 ∷ []) same
    ∙ ap (λ t. t ++ 0 ∷ []) (label_loop-wired (length domain) c cs ls h.0 h.1 (omega arith))

-- One label of the loop: it is taken from the buffer, behind a dot if the result has begun.
domain_loop-label :
    (fuel left : ℕ) (l : List ℕ) (ls : List (List ℕ)) (rest result : List ℕ)
    → 0 < length l
    → domain_loop (suc fuel) (wired (l ∷ ls) ++ 0 ∷ rest) (suc left) result
      ≡ domain_loop fuel
          (wired ls ++ 0 ∷ rest)
          (left - length l)
          (result ++ ((if ltb 0 (length result) then dot ∷ [] else []) ++ l))
unfolding domain_loop wired
domain_loop-label fuel left l ls rest result long =
    let tail = wired ls ++ 0 ∷ rest in
    let taken : take (length l) ((l ++ wired ls) ++ 0 ∷ rest) ≡ l =
      rw (append_assoc l (wired ls) (0 ∷ rest), take-append-length l tail) refl in
    let dropped : drop (length l) ((l ++ wired ls) ++ 0 ∷ rest) ≡ tail =
      rw (append_assoc l (wired ls) (0 ∷ rest), drop-append-length l tail) refl in
    let sizes = length-append l (wired ls) in
    let more = length-append (l ++ wired ls) (0 ∷ rest) in
    let nonempty : (length l == 0) ≡ false = ground (arith, long) in
    let inside : ltb (length ((l ++ wired ls) ++ 0 ∷ rest)) (length l) ≡ false =
      ground (arith, more, sizes) in
    rw (nonempty, inside, taken, dropped) refl

domain_loop-wired :
    (fuel left : ℕ) (ls : List (List ℕ)) (rest result : List ℕ)
    → AllLabels ls
    → 0 < length result
    → length (wired ls) < fuel
    → length (wired ls) < left
    → domain_loop fuel (wired ls ++ 0 ∷ rest) left result ≡ some (result ++ dotted_tail ls)
unfolding wired dotted_tail domain_loop
domain_loop-wired zero left ls rest result h p f q = absurd (omega arith)
domain_loop-wired (suc fuel) zero ls rest result h p f q = absurd (omega arith)
domain_loop-wired (suc fuel) (suc left) [] rest result h p f q = ap some (sym (append-nil result))
domain_loop-wired (suc fuel) (suc left) (l ∷ ls) rest result h p f q =
    let sizes = length-append l (wired ls) in
    let again =
      domain_loop-wired fuel (left - length l) ls rest (result ++ (dot ∷ l)) h.1
        (omega (arith, length-append result (dot ∷ l))) (omega (arith, sizes, f))
        (omega (arith, sizes, q)) in
    let inner : ltb 0 (length result) ≡ true = ground (arith, p) in
    let step : domain_loop fuel (wired ls ++ 0 ∷ rest) (left - length l)
          (result ++ ((if ltb 0 (length result) then dot ∷ [] else []) ++ l))
        ≡ some (result ++ (dot ∷ (l ++ dotted_tail ls))) =
      rw (inner) (again ∙ ap some (append_assoc result (dot ∷ l) (dotted_tail ls))) in
    domain_loop-label fuel left l ls rest result h.0.0 ∙ step

domain_loop-dotted :
    (fuel left : ℕ) (ls : List (List ℕ)) (rest : List ℕ)
    → AllLabels ls
    → length (wired ls) < fuel
    → length (wired ls) < left
    → domain_loop fuel (wired ls ++ 0 ∷ rest) left [] ≡ some (dotted ls)
unfolding dotted wired domain_loop
domain_loop-dotted zero left ls rest h f q = absurd (omega arith)
domain_loop-dotted (suc fuel) zero ls rest h f q = absurd (omega arith)
domain_loop-dotted (suc fuel) (suc left) [] rest h f q = refl
domain_loop-dotted (suc fuel) (suc left) (l ∷ ls) rest h f q =
    let sizes = length-append l (wired ls) in
    domain_loop-label fuel left l ls rest [] h.0.0
    ∙ domain_loop-wired fuel (left - length l) ls rest l h.1 h.0.0 (omega (arith, sizes, f))
        (omega (arith, sizes, q))

-- The wire form of well-formed labels, with its final zero and whatever follows it, reads back as
-- the dotted name, without a read behind the buffer.
pub wire_to_domain-wired :
    (ls : List (List ℕ)) (rest : List ℕ)
    → AllLabels ls
    → wire_to_domain (wired ls ++ 0 ∷ rest) (length (wired ls) + 1) ≡ some (dotted ls)
unfolding wire_to_domain
wire_to_domain-wired ls rest h =
    let n = length (wired ls) in
    domain_loop-dotted (n + 1 + 1) (n + 1) ls rest h (omega arith) (omega arith)

length-wired : (ls : List (List ℕ)) → length (wired ls ++ 0 ∷ []) ≡ length (wired ls) + 1
length-wired ls = length-append (wired ls) (0 ∷ [])

-- Round trip: a name of nonempty lower-case labels shorter than 256 bytes, put on the wire by
-- `stringToWire` and read back by `wireToDomain`, is the name.
pub wire_to_domain-string_to_wire :
    (ls : List (List ℕ))
    → AllLabels ls
    → wire_to_domain (string_to_wire (dotted ls) true) (length (string_to_wire (dotted ls) true))
      ≡ some (dotted ls)
wire_to_domain-string_to_wire ls h =
    rw (string_to_wire-dotted ls h, length-wired ls) (wire_to_domain-wired ls [] h)
