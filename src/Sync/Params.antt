-- ===== src/Sync/Params.antt =====
-- `getParamFromCharBuffer` of include/Utils/String.hpp. A text is a C string without its zero.
use edge_dns.Prelude.{
  ℕ, zero, suc, ◌-◌, Bool, true, false, List, [], ◌∷◌, Option, none, some, ◌>>=◌, ◌==◌,
  if◌then◌else◌, length, drop,
}

-- The C string at the front of a buffer; a buffer without a zero is read behind its end.
unfoldable pub c_string : List ℕ → Option (List ℕ)
c_string [] = none
c_string (c ∷ cs) =
    let rest = c_string cs in if c == 0 then some [] else (do s ← rest; some (c ∷ s))

unfoldable pub starts : List ℕ → List ℕ → Bool
starts [] text = true
starts (k ∷ ks) [] = false
starts (k ∷ ks) (c ∷ cs) = if k == c then starts ks cs else false

-- `strstr`: the text from the first place on where the key stands.
unfoldable pub strstr : List ℕ → List ℕ → Option (List ℕ)
unfolding starts
strstr [] key = if starts key [] then some [] else none
strstr (c ∷ cs) key =
    let rest = strstr cs key in if starts key (c ∷ cs) then some (c ∷ cs) else rest

-- The loop that copies the value; `room` is `maxLen - 1 - i`.
unfoldable pub copy_value : ℕ → List ℕ → List ℕ
copy_value zero text = []
copy_value (suc room) [] = []
copy_value (suc room) (c ∷ cs) = let rest = copy_value room cs in if c == b'&' then [] else c ∷ rest

-- What stands behind the key.
unfoldable pub value_of : ℕ → List ℕ → Option (List ℕ)
unfolding copy_value
value_of max_len [] = none
value_of max_len (c ∷ cs) = if c == b'=' then some (copy_value (max_len - 1) cs) else none

-- With the answer of `strstr`.
unfoldable pub value_at : (key_len max_len : ℕ) → Option (List ℕ) → Option (List ℕ)
unfolding value_of
value_at key_len max_len none = none
value_at key_len max_len (some ptr) = value_of max_len (drop key_len ptr)

-- `none` where the code answers false, and else the C string in `outValue`.
unfoldable pub get_param : List ℕ → List ℕ → ℕ → Option (List ℕ)
unfolding strstr value_at
get_param text key max_len = value_at (length key) max_len (strstr text key)
