-- ===== src/Sync/Numbers.antt =====
-- `atoi`, and the conversions of its answer. The answer `none` is a number that no `int` holds, for
-- which `atoi` is undefined.
use edge_dns.Prelude.{
  ℕ, ◌-◌, ◌%◌, ◌^◌, ◌||◌, ℤ, pos, negsuc, List, [], ◌∷◌, Option, none, some, ltb, leb, ◌==◌,
  if◌then◌else◌,
}
use edge_dns.Wire.Parse.{leading_number, skip_space, negated}

abbrev or_zero : Option ℕ → ℕ
or_zero none = 0
or_zero (some n) = n

unfoldable pub int_of : List ℕ → Option ℤ
int_of [] = some (pos 0)
int_of (c ∷ cs) =
    let n = or_zero (leading_number (if (c == b'-') || (c == b'+') then cs else c ∷ cs)) in
    if c == b'-'
    then (if leb n (2 ^ 31) then some (negated n) else none)
    else (if ltb n (2 ^ 31) then some (pos n) else none)

unfoldable pub atoi : List ℕ → Option ℤ
unfolding int_of
atoi s = int_of (skip_space s)

-- `(uint32_t)n` and `(uint16_t)n`, for a width `w`
unfoldable pub to_unsigned : ℕ → ℤ → ℕ
to_unsigned w (pos n) = n % 2 ^ w
to_unsigned w (negsuc n) = 2 ^ w - 1 - n % 2 ^ w
