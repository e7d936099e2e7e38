-- ===== src/Sync/Found.antt =====
-- What `getParamFromCharBuffer` finds in a text.
use edge_dns.Prelude.{
  ℕ, zero, suc, ◌-◌, ◌<◌, ◌≤◌, ◌≡◌, ◌≢◌, refl, sym, subst, inl, inr, Bool-cases, true, false, List,
  [], ◌∷◌, ◌++◌, Option, none, some, ◌==◌, length, take, drop, arith,
}
use edge_dns.Sync.Params.{starts, strstr, copy_value, value_of, value_at, get_param}

-- The key stands at no place of `text` before `rest`.
abbrev pub IsFirst : List ℕ → List ℕ → List ℕ → Type 0
IsFirst key [] rest = Unit
IsFirst key (c ∷ cs) rest = (starts key (c ∷ (cs ++ rest)) ≡ false) × IsFirst key cs rest

starts_self : (key rest : List ℕ) → starts key (key ++ rest) ≡ true
unfolding starts
starts_self [] rest = refl
starts_self (k ∷ ks) rest = ground (arith, starts_self ks rest)

strstr_nonempty : (key rest : List ℕ) → strstr (key ++ rest) key ≡ some (key ++ rest)
unfolding strstr starts
strstr_nonempty [] [] = refl
strstr_nonempty [] (c ∷ cs) = refl
strstr_nonempty (k ∷ ks) rest = rw (starts_self (k ∷ ks) rest) refl

strstr_first :
    (key before rest : List ℕ)
    → IsFirst key before (key ++ rest)
    → strstr (before ++ (key ++ rest)) key ≡ some (key ++ rest)
unfolding strstr
strstr_first key [] rest first = strstr_nonempty key rest
strstr_first key (c ∷ cs) rest first = rw (first.0) (strstr_first key cs rest first.1)

-- A value has no `&`.
abbrev pub IsPlain : List ℕ → Type 0
IsPlain [] = Unit
IsPlain (c ∷ cs) = (c ≢ b'&') × IsPlain cs

-- What may follow a value.
abbrev pub Ends : List ℕ → Type 0
Ends [] = Unit
Ends (c ∷ cs) = c ≡ b'&'

copy_value-take :
    (room : ℕ) (value rest : List ℕ)
    → IsPlain value
    → Ends rest
    → copy_value room (value ++ rest) ≡ take room value
unfolding copy_value
copy_value-take zero value rest plain ends = ground arith
copy_value-take (suc room) [] [] plain ends = refl
copy_value-take (suc room) [] (c ∷ cs) plain ends = ground arith
copy_value-take (suc room) (v ∷ vs) rest plain ends =
    ground (arith, copy_value-take room vs rest plain.1 ends)

drop_key : (key rest : List ℕ) → drop (length key) (key ++ rest) ≡ rest
drop_key [] rest = refl
drop_key (k ∷ ks) rest = ground (arith, drop_key ks rest)

-- Where the first place of the key in the text has `=` and a value behind it, and then `&` or the
-- end, `getParamFromCharBuffer` gives the value, cut to one byte less than its array has.
pub get_param-take :
    (before key value rest : List ℕ) (max_len : ℕ)
    → IsFirst key before (key ++ b'=' ∷ (value ++ rest))
    → IsPlain value
    → Ends rest
    → get_param (before ++ (key ++ b'=' ∷ (value ++ rest))) key max_len
      ≡ some (take (max_len - 1) value)
unfolding get_param value_at value_of
get_param-take before key value rest max_len first plain ends =
    rw
      (
        strstr_first key before (b'=' ∷ (value ++ rest)) first,
        drop_key key (b'=' ∷ (value ++ rest)),
        copy_value-take (max_len - 1) value rest plain ends,
      )
      refl

copy_value_bounds :
    (room : ℕ) (text : List ℕ)
    → (length (copy_value room text) ≤ room) × IsPlain (copy_value room text)
unfolding copy_value
copy_value_bounds zero text = (omega arith, tt)
copy_value_bounds (suc room) [] = (omega arith, tt)
copy_value_bounds (suc room) (c ∷ cs) = ground (arith, copy_value_bounds room cs)

value_of_bounds :
    (max_len : ℕ) (text value : List ℕ)
    → 0 < max_len
    → value_of max_len text ≡ some value
    → (length value < max_len) × IsPlain value
unfolding value_of
value_of_bounds max_len [] value h found = absurd (cc)
value_of_bounds max_len (c ∷ cs) value h found = elim (Bool-cases (c == b'=')) [
  | inl same ↦
      let copied : copy_value (max_len - 1) cs ≡ value = ground (arith, same, found) in
      let (short, plain) = copy_value_bounds (max_len - 1) cs in
      (rw (sym copied) (omega (arith, short, h)), subst IsPlain copied plain)
  | inr other ↦ absurd (ground (arith, other, found))
]

value_at_bounds :
    (key_len max_len : ℕ) (at : Option (List ℕ)) (value : List ℕ)
    → 0 < max_len
    → value_at key_len max_len at ≡ some value
    → (length value < max_len) × IsPlain value
unfolding value_at
value_at_bounds key_len max_len none value h found = absurd (cc)
value_at_bounds key_len max_len (some ptr) value h found =
    value_of_bounds max_len (drop key_len ptr) value h found

-- What `getParamFromCharBuffer` gives fits with its zero in the array, and has no `&`.
pub get_param_bounds :
    (text key value : List ℕ) (max_len : ℕ)
    → 0 < max_len
    → get_param text key max_len ≡ some value
    → (length value < max_len) × IsPlain value
unfolding get_param
get_param_bounds text key value max_len h found =
    value_at_bounds (length key) max_len (strstr text key) value h found
