-- ===== src/Wire/Parse.antt =====
-- The parsing functions of the C++ library that the encoders use: `std::stoi`, `std::stoul`, and
-- the extraction of words from a stream. `none` is an exception.
use edge_dns.Prelude.{
  ℕ, zero, suc, ◌+◌, ◌-◌, ◌*◌, ◌%◌, ◌^◌, ◌&&◌, ◌||◌, Bool, List, [], ◌∷◌, Option, none, some, ◌>>=◌,
  ℤ, pos, negsuc, ltb, leb, ◌==◌, if◌then◌else◌,
}

unfoldable pub is_digit : ℕ → Bool
is_digit c = leb b'0' c && leb c b'9'

-- `isspace` in the C locale
unfoldable pub is_space : ℕ → Bool
is_space c = (c == 32) || (leb 9 c && leb c 13)

unfoldable pub skip_space : List ℕ → List ℕ
unfolding is_space
skip_space [] = []
skip_space (c ∷ cs) = if is_space c then skip_space cs else c ∷ cs

unfoldable pub digits_from : ℕ → List ℕ → ℕ
unfolding is_digit
digits_from acc [] = acc
digits_from acc (c ∷ cs) =
    let more = digits_from (acc * 10 + (c - b'0')) cs in if is_digit c then more else acc

-- The number at the front; what follows it is not looked at.
unfoldable pub leading_number : List ℕ → Option ℕ
unfolding is_digit digits_from
leading_number [] = none
leading_number (c ∷ cs) = if is_digit c then some (digits_from 0 (c ∷ cs)) else none

-- `-n`
unfoldable pub negated : ℕ → ℤ
negated zero = pos 0
negated (suc n) = negsuc n

unfoldable pub signed : List ℕ → Option ℤ
unfolding leading_number negated
signed [] = none
signed (c ∷ cs) =
    if c == b'-'
    then (do n ← leading_number cs; if leb n (2 ^ 31) then some (negated n) else none)
    else (do
      n ← leading_number (if c == b'+' then cs else c ∷ cs)
      if ltb n (2 ^ 31) then some (pos n) else none)

unfoldable pub stoi : List ℕ → Option ℤ
unfolding skip_space signed
stoi s = signed (skip_space s)

-- A minus sign negates the unsigned value.
unfoldable pub unsigned : List ℕ → Option ℕ
unfolding leading_number
unsigned [] = none
unsigned (c ∷ cs) = do
  n ← leading_number (if (c == b'-') || (c == b'+') then cs else c ∷ cs)
  if leb (2 ^ 64) n then none else some (if c == b'-' then (2 ^ 64 - n) % 2 ^ 64 else n)

unfoldable pub stoul : List ℕ → Option ℕ
unfolding skip_space unsigned
stoul s = unsigned (skip_space s)

unfoldable pub word : List ℕ → List ℕ
unfolding is_space
word [] = []
word (c ∷ cs) = if is_space c then [] else c ∷ word cs

unfoldable pub after_word : List ℕ → List ℕ
unfolding is_space
after_word [] = []
after_word (c ∷ cs) = if is_space c then c ∷ cs else after_word cs

-- `while (iss >> token)`, with fuel
unfoldable pub word_loop : ℕ → List ℕ → List (List ℕ)
unfolding word after_word
word_loop zero s = []
word_loop (suc fuel) [] = []
word_loop (suc fuel) (c ∷ cs) = word (c ∷ cs) ∷ word_loop fuel (skip_space (after_word (c ∷ cs)))
