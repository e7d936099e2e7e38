-- ===== src/Wire/Texts.antt =====
-- Texts and integers on the wire read back: `txtToWire`, `toBE32` and `u64ToVectorBE`.
use edge_dns.Prelude.{
  ℕ, zero, suc, ◌+◌, ◌*◌, ◌^◌, ◌<◌, ◌≤◌, ◌≡◌, refl, ap, ◌∙◌, false, List, [], ◌∷◌, ◌++◌, arith, ltb,
  if◌then◌else◌, length, Option, none, some, subst, length-append, length-take, length-drop, take,
  drop, take-append-length, drop-append-length, min,
}
use edge_dns.Wire.Codec.{chunk_loop, txt_to_wire, to_be32, be_loop, u64_to_vector_be}

abbrev pub in_front : List ℕ → Option (List ℕ) → Option (List ℕ)
in_front chunk none = none
in_front chunk (some text) = some (chunk ++ text)

-- The character-strings of RFC 1035, 3.3.14, run together, with fuel; `none` if one is cut off.
unfoldable pub character_strings : ℕ → List ℕ → Option (List ℕ)
character_strings zero wire = none
character_strings (suc fuel) [] = some []
character_strings (suc fuel) (n ∷ wire) =
    let rest = character_strings fuel (drop n wire) in
    if ltb (length wire) n then none else in_front (take n wire) rest

-- Big-endian digits.
unfoldable pub big_endian : ℕ → List ℕ → ℕ
big_endian acc [] = acc
big_endian acc (b ∷ bs) = big_endian (acc * 256 + b) bs

-- The four bytes that `toBE32` writes are the value, most significant byte first.
pub big_endian-to_be32 : (val : ℕ) → val < 2 ^ 32 → big_endian 0 (to_be32 val) ≡ val
unfolding big_endian to_be32
big_endian-to_be32 val h = omega arith

-- The eight bytes that `u64ToVectorBE` returns are the value, most significant byte first.
pub big_endian-u64_to_vector_be :
    (value : ℕ) → value < 2 ^ 64 → big_endian 0 (u64_to_vector_be value) ≡ value
unfolding big_endian u64_to_vector_be be_loop
big_endian-u64_to_vector_be value h = omega arith

take-drop : (n : ℕ) (xs : List ℕ) → take n xs ++ drop n xs ≡ xs
take-drop zero xs = refl
take-drop (suc n) [] = refl
take-drop (suc n) (x ∷ xs) = ap (◌∷◌ x) (take-drop n xs)

-- One character-string in front is read as its bytes.
character_strings-chunk :
    (fuel : ℕ) (chunk wire : List ℕ)
    → character_strings (suc fuel) (length chunk ∷ (chunk ++ wire))
      ≡ in_front chunk (character_strings fuel wire)
unfolding character_strings
character_strings-chunk fuel chunk wire =
    let inside : ltb (length (chunk ++ wire)) (length chunk) ≡ false =
      ground (arith, length-append chunk wire) in
    rw (inside, drop-append-length chunk wire, take-append-length chunk wire) refl

character_strings-chunk_loop :
    (fuel g : ℕ) (text : List ℕ)
    → length text ≤ g
    → length text < fuel
    → character_strings fuel (chunk_loop g text) ≡ some text
unfolding character_strings chunk_loop
character_strings-chunk_loop zero g text h f = absurd (omega arith)
character_strings-chunk_loop (suc fuel) zero [] h f = refl
character_strings-chunk_loop (suc fuel) zero (c ∷ cs) h f = absurd (omega arith)
character_strings-chunk_loop (suc fuel) (suc g) [] h f = refl
character_strings-chunk_loop (suc fuel) (suc g) (c ∷ cs) h f =
    let text = c ∷ cs in
    let n = min 255 (length text) in
    let size : length (take n text) ≡ n = omega (arith, length-take n text) in
    let rest = drop n text in
    let again =
      character_strings-chunk_loop fuel g rest (omega (arith, length-drop n text, h))
        (omega (arith, length-drop n text, f)) in
    subst (λ k. character_strings (suc fuel) (k ∷ (take n text ++ chunk_loop g rest)) ≡ some text)
      size
      (character_strings-chunk fuel (take n text) (chunk_loop g rest)
        ∙ ap (in_front (take n text)) again
        ∙ ap some (take-drop n text))

-- Round trip: a text that `txtToWire` puts on the wire reads back, as the character-strings of
-- RFC 1035 run together.
pub character_strings-txt_to_wire :
    (text : List ℕ) → character_strings (length text + 2) (txt_to_wire text) ≡ some text
unfolding txt_to_wire character_strings
character_strings-txt_to_wire [] = refl
character_strings-txt_to_wire (c ∷ cs) =
    character_strings-chunk_loop (length (c ∷ cs) + 2) (length (c ∷ cs)) (c ∷ cs) (omega arith)
      (omega arith)
