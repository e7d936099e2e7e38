-- ===== src/Prelude/Distinct.antt =====
-- Lists of distinct numbers, and the pigeonhole principle.
use Prim.Native.Nat.{ℕ, zero, suc, ◌≤◌, ◌<◌}
use mathlib.Core.Path.{◌≡◌, refl}
use mathlib.Core.Logic.{◌≢◌, if_pos, if_neg, ite}
use mathlib.Core.List.{List, [], ◌∷◌, map}
use native.Mathlib.Decide.{ℕ_discrete}
use native.Mathlib.Omega.{arith}
use edge_dns.Prelude.Lists.{length}

abbrev pub NotIn : ℕ → List ℕ → Type 0
NotIn a [] = Unit
NotIn a (x ∷ xs) = (a ≢ x) × NotIn a xs

abbrev pub Distinct : List ℕ → Type 0
Distinct [] = Unit
Distinct (x ∷ xs) = NotIn x xs × Distinct xs

abbrev pub All {κ} : (ℕ → Type κ) → List ℕ → Type κ
All P [] = Unit
All P (x ∷ xs) = P x × All P xs

without : ℕ → List ℕ → List ℕ
without a [] = []
without a (x ∷ xs) = ite (ℕ_discrete x a) xs (x ∷ without a xs)

length-without : (a : ℕ) (xs : List ℕ) → length xs ≤ suc (length (without a xs))
unfolding without
length-without a [] = omega arith
length-without a (x ∷ xs) = ground (arith, length-without a xs)

NotIn-without : (b a : ℕ) (xs : List ℕ) → NotIn b xs → NotIn b (without a xs)
unfolding without
NotIn-without b a [] h = tt
NotIn-without b a (x ∷ xs) h = ground (arith, NotIn-without b a xs)

Distinct-without : (a : ℕ) (xs : List ℕ) → Distinct xs → Distinct (without a xs)
unfolding without
Distinct-without a [] h = tt
Distinct-without a (x ∷ xs) h = ground (arith, Distinct-without a xs, NotIn-without x a xs)

below-NotIn : (n : ℕ) (xs : List ℕ) → All (λ x. x < suc n) xs → NotIn n xs → All (λ x. x < n) xs
below-NotIn n [] h d = tt
below-NotIn n (x ∷ xs) h d = (omega arith, below-NotIn n xs h.1 d.1)

All-without :
    (n : ℕ) (xs : List ℕ) → All (λ x. x < suc n) xs → Distinct xs → All (λ x. x < n) (without n xs)
unfolding without
All-without n [] h d = tt
All-without n (x ∷ xs) h d = elim (ℕ_discrete x n) [
  | yes e ↦ rw (if_pos _ e) (below-NotIn n xs h.1 (rw e at d.0))
  | no ne ↦ rw (if_neg _ ne) (omega arith, All-without n xs h.1 d.1)
]

-- At most `n` distinct numbers lie below `n`.
pub pigeonhole : (n : ℕ) (xs : List ℕ) → All (λ x. x < n) xs → Distinct xs → length xs ≤ n
pigeonhole zero [] h d = omega arith
pigeonhole zero (x ∷ xs) h d = absurd (omega arith)
pigeonhole (suc n) xs h d = omega (
  arith,
  length-without n xs,
  pigeonhole n (without n xs) (All-without n xs h d) (Distinct-without n xs d),
)

-- The images of distinct numbers under a function that keeps them apart are distinct.
module _ {κ} (P : ℕ → Type κ) (f : ℕ → ℕ) (apart : (a b : ℕ) → P a → P b → f a ≡ f b → a ≡ b) where
  NotIn-map : (a : ℕ) (xs : List ℕ) → P a → All P xs → NotIn a xs → NotIn (f a) (map f xs)
  NotIn-map a [] p h d = tt
  NotIn-map a (x ∷ xs) p h d = (λ e. d.0 (apart a x p h.0 e), NotIn-map a xs p h.1 d.1)

  pub Distinct-map : (xs : List ℕ) → All P xs → Distinct xs → Distinct (map f xs)
  Distinct-map [] h d = tt
  Distinct-map (x ∷ xs) h d = (NotIn-map x xs h.0 h.1 d.0, Distinct-map xs h.1 d.1)

pub All-map {κ ν} :
    (P : ℕ → Type κ) (Q : ℕ → Type ν) (f : ℕ → ℕ)
    → ((a : ℕ) → P a → Q (f a))
    → (xs : List ℕ) → All P xs
    → All Q (map f xs)
All-map P Q f step [] h = tt
All-map P Q f step (x ∷ xs) h = (step x h.0, All-map P Q f step xs h.1)

pub length-map : (f : ℕ → ℕ) (xs : List ℕ) → length (map f xs) ≡ length xs
length-map f [] = refl
length-map f (x ∷ xs) = omega (arith, length-map f xs)
