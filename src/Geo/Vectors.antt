-- ===== src/Geo/Vectors.antt =====
-- What stands at an index after `push_back`, an assignment and `pop_back`.
use edge_dns.Prelude.{
  ℕ, zero, suc, ◌-◌, ◌<◌, ◌≡◌, refl, ◌&&◌, List, [], ◌∷◌, ◌++◌, some, none, ltb, ◌==◌,
  if◌then◌else◌, length, get_elem?, set, arith,
}
use edge_dns.Records.State.{CassUuid}
use edge_dns.Geo.Ops.{back_or, pop_back}

module _ {ℓ} {A : Type ℓ} where
  pub get_elem?-push :
      (xs : List A) (x : A) (i : ℕ)
      → get_elem? (xs ++ x ∷ []) i ≡ (if i == length xs then some x else get_elem? xs i)
  get_elem?-push [] x zero = refl
  get_elem?-push [] x (suc i) = ground arith
  get_elem?-push (y ∷ xs) x zero = ground arith
  get_elem?-push (y ∷ xs) x (suc i) = ground (arith, get_elem?-push xs x i)

  pub get_elem?-set :
      (xs : List A) (i j : ℕ) (v : A)
      → get_elem? (set xs i v) j
        ≡ (if (j == i) && ltb i (length xs) then some v else get_elem? xs j)
  get_elem?-set [] i j v = ground arith
  get_elem?-set (x ∷ xs) zero zero v = ground arith
  get_elem?-set (x ∷ xs) zero (suc j) v = ground arith
  get_elem?-set (x ∷ xs) (suc i) zero v = ground arith
  get_elem?-set (x ∷ xs) (suc i) (suc j) v = ground (arith, get_elem?-set xs i j v)

  pub length-set : (xs : List A) (i : ℕ) (v : A) → length (set xs i v) ≡ length xs
  length-set [] i v = refl
  length-set (x ∷ xs) zero v = refl
  length-set (x ∷ xs) (suc i) v = omega (arith, length-set xs i v)

  pub lt_of_get_elem? : (xs : List A) (i : ℕ) (x : A) → get_elem? xs i ≡ some x → i < length xs
  lt_of_get_elem? [] i x h = absurd (cc)
  lt_of_get_elem? (y ∷ xs) zero x h = omega arith
  lt_of_get_elem? (y ∷ xs) (suc i) x h = omega (arith, lt_of_get_elem? xs i x h)

pub get_elem?-pop_back :
    (xs : List CassUuid) (i : ℕ)
    → get_elem? (pop_back xs) i ≡ (if ltb (suc i) (length xs) then get_elem? xs i else none)
unfolding pop_back
get_elem?-pop_back [] i = ground arith
get_elem?-pop_back (x ∷ []) i = ground arith
get_elem?-pop_back (x ∷ y ∷ xs) zero = ground arith
get_elem?-pop_back (x ∷ y ∷ xs) (suc i) = ground (arith, get_elem?-pop_back (y ∷ xs) i)

pub get_elem?-back :
    (d : CassUuid) (xs : List CassUuid)
    → 0 < length xs
    → get_elem? xs (length xs - 1) ≡ some (back_or d xs)
unfolding back_or
get_elem?-back d [] h = absurd (omega arith)
get_elem?-back d (x ∷ []) h = refl
get_elem?-back d (x ∷ y ∷ xs) h = ground (arith, get_elem?-back x (y ∷ xs))
