-- ===== src/Wire/Labels.antt =====
-- Names as lists of labels: their dotted form, their wire form, and when they are well formed.
use edge_dns.Prelude.{ℕ, ◌<◌, ◌≡◌, ◌≢◌, refl, ap₂, List, [], ◌∷◌, ◌++◌, map, arith, length}
use edge_dns.Wire.Codec.{dot, to_lower, before_dot, after_dot}

-- A character of a label: a lower-case byte that is not the dot.
abbrev pub IsLabelChar : ℕ → Type 0
IsLabelChar c = (c ≢ dot) × (to_lower c ≡ c)

abbrev pub AllChars : List ℕ → Type 0
AllChars [] = Unit
AllChars (c ∷ cs) = IsLabelChar c × AllChars cs

-- A label that fits its length byte and is not empty.
abbrev pub IsLabel : List ℕ → Type 0
IsLabel l = (0 < length l) × (length l < 256) × AllChars l

abbrev pub AllLabels : List (List ℕ) → Type 0
AllLabels [] = Unit
AllLabels (l ∷ ls) = IsLabel l × AllLabels ls

-- `.b.c`, and `a.b.c`
unfoldable pub dotted_tail : List (List ℕ) → List ℕ
dotted_tail [] = []
dotted_tail (l ∷ ls) = dot ∷ (l ++ dotted_tail ls)

unfoldable pub dotted : List (List ℕ) → List ℕ
unfolding dotted_tail
dotted [] = []
dotted (l ∷ ls) = l ++ dotted_tail ls

-- Each label behind its length.
unfoldable pub wired : List (List ℕ) → List ℕ
wired [] = []
wired (l ∷ ls) = length l ∷ (l ++ wired ls)

pub map-to_lower : (l : List ℕ) → AllChars l → map to_lower l ≡ l
map-to_lower [] h = refl
map-to_lower (c ∷ cs) h = ap₂ ◌∷◌ h.0.1 (map-to_lower cs h.1)

pub before_dot-label :
    (l : List ℕ) (ls : List (List ℕ)) → AllChars l → before_dot (l ++ dotted_tail ls) ≡ l
unfolding before_dot dotted_tail
before_dot-label [] [] h = refl
before_dot-label [] (k ∷ ls) h = refl
before_dot-label (c ∷ cs) ls h = ground (arith, before_dot-label cs ls, h)

pub after_dot-label :
    (l k : List ℕ) (ls : List (List ℕ))
    → AllChars l
    → after_dot (l ++ dotted_tail (k ∷ ls)) ≡ k ++ dotted_tail ls
unfolding after_dot dotted_tail
after_dot-label [] k ls h = refl
after_dot-label (c ∷ cs) k ls h = ground (arith, after_dot-label cs k ls, h)

pub after_dot-last : (l : List ℕ) → AllChars l → after_dot (l ++ dotted_tail []) ≡ []
unfolding after_dot dotted_tail
after_dot-last [] h = refl
after_dot-last (c ∷ cs) h = ground (arith, after_dot-last cs, h)
