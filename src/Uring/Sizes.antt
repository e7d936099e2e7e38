-- ===== src/Uring/Sizes.antt =====
-- The sizes of the groups are powers of two.
use edge_dns.Prelude.{
  ℕ, zero, suc, ◌+◌, ◌*◌, ◌%◌, ◌^◌, ◌<◌, ◌≤◌, ◌≡◌, refl, ap, inl, inr, Bool-cases, some, leb, arith,
}
use edge_dns.Uring.Pool.{pow2_loop}

-- The loop ends with the greatest power of two that `n` reaches.
pub pow2_loop_lem :
    (fuel k n : ℕ)
    → 2 ^ k ≤ n
    → n < 2 ^ 63
    → n < 2 ^ (k + fuel)
    → (j : ℕ) × (pow2_loop fuel (2 ^ k) n ≡ some (2 ^ j)) × (2 ^ j ≤ n) × (n < 2 * 2 ^ j)
unfolding pow2_loop
pow2_loop_lem zero k n low top room =
    let same : k + 0 ≡ k = omega arith in absurd (omega (arith, low, room, ap (λ t. 2 ^ t) same))
pow2_loop_lem (suc fuel) k n low top room =
    let next : 2 ^ k * 2 % 2 ^ 64 ≡ 2 ^ suc k = omega (arith, low, top) in
    let moved : k + suc fuel ≡ suc k + fuel = omega arith in
    elim (Bool-cases (leb (2 ^ suc k) n)) [
      | inl more ↦
          rw (next, more)
            (pow2_loop_lem fuel (suc k) n (ground (arith, more)) top (rw moved at room))
      | inr done ↦ (k, rw (next, done) refl, low, ground (arith, done))
    ]
