-- ===== src/Prelude/Int/Order.antt =====
-- The Boolean tests of the integers as an order: what the loops over ids and times split on.
use postgres_s3_warehouse_sy.Prelude.Tests.{leb, ltb, ltb→lt, lt→ltb, leb→le, ◌==◌, Bool-cases}
use Prim.Native.Nat.{ℕ, ◌+◌, ◌≤◌, ◌<◌}
use mathlib.Core.Path.{◌≡◌}
use mathlib.Core.Bool.{true, false, not, ◌&&◌}
use mathlib.Core.Logic.{inl, inr}
use native.Mathlib.Omega.{arith}
use postgres_s3_warehouse_sy.Prelude.Int.{
  ℤ, pos, pos_part, neg_part, ◌+ℤ◌, ◌≤ℤ◌, ◌<ℤ◌, leb_ℤ, ltb_ℤ, eqb_ℤ, +ℤ_parts,
}

le→leb : (a b : ℕ) → a ≤ b → leb a b ≡ true
le→leb a b h = ground arith

lt→leb-false : (a b : ℕ) → b < a → leb a b ≡ false
lt→leb-false a b h = ground arith

le→ltb-false : (a b : ℕ) → b ≤ a → ltb a b ≡ false
le→ltb-false a b h = ground arith

pub leb_ℤ→le : (a b : ℤ) → leb_ℤ a b ≡ true → a ≤ℤ b
leb_ℤ→le a b h = leb→le _ _ h

pub le→leb_ℤ : (a b : ℤ) → a ≤ℤ b → leb_ℤ a b ≡ true
le→leb_ℤ a b h = le→leb _ _ h

pub ltb_ℤ→lt : (a b : ℤ) → ltb_ℤ a b ≡ true → a <ℤ b
ltb_ℤ→lt a b h = ltb→lt _ _ h

pub lt→ltb_ℤ : (a b : ℤ) → a <ℤ b → ltb_ℤ a b ≡ true
lt→ltb_ℤ a b h = lt→ltb _ _ h

leb-false : (a b : ℕ) → leb a b ≡ false → b < a
leb-false a b h = ground arith

pub leb_ℤ-false→lt : (a b : ℤ) → leb_ℤ a b ≡ false → b <ℤ a
leb_ℤ-false→lt a b h = leb-false _ _ h

ltb-false : (a b : ℕ) → ltb a b ≡ false → b ≤ a
ltb-false a b h = ground arith

pub ltb_ℤ-false→le : (a b : ℤ) → ltb_ℤ a b ≡ false → b ≤ℤ a
ltb_ℤ-false→le a b h = ltb-false _ _ h

pub lt→leb_ℤ-false : (a b : ℤ) → b <ℤ a → leb_ℤ a b ≡ false
lt→leb_ℤ-false a b h = lt→leb-false _ _ h

pub le→ltb_ℤ-false : (a b : ℤ) → b ≤ℤ a → ltb_ℤ a b ≡ false
le→ltb_ℤ-false a b h = le→ltb-false _ _ h

leb-not : (a b : ℕ) → leb a b ≡ not (ltb b a)
leb-not a b = ground arith

pub leb_ℤ-eq-not-ltb_ℤ : (a b : ℤ) → leb_ℤ a b ≡ not (ltb_ℤ b a)
leb_ℤ-eq-not-ltb_ℤ a b = leb-not _ _

same_test : (a b c d : ℕ) → (a ≤ b → c < d) → (c < d → a ≤ b) → ltb c d ≡ leb a b
same_test a b c d f g = ground (arith, f, g)

-- x < b + 1 is x ≤ b.
pub ltb_ℤ_succ : (x b : ℤ) → ltb_ℤ x (b +ℤ pos 1) ≡ leb_ℤ x b
ltb_ℤ_succ x b =
    same_test _ _ _ _ (λ h. omega (arith, +ℤ_parts b (pos 1)))
      (λ h. omega (arith, +ℤ_parts b (pos 1)))

-- Nothing lies between two ends that are the wrong way round.
pub between_empty : (a x b : ℤ) → b <ℤ a → (leb_ℤ a x && leb_ℤ x b) ≡ false
between_empty a x b h = elim (Bool-cases (leb_ℤ a x)) [
  | inl e ↦ rw e (let from = leb_ℤ→le a x e in lt→leb_ℤ-false x b (omega arith))
  | inr e ↦ rw e
]

same_between :
    (a b c d e f : ℕ)
    → (a ≤ b → c < d → e ≡ f)
    → (e ≡ f → a ≤ b)
    → (e ≡ f → c < d)
    → (leb a b && ltb c d) ≡ (e == f)
same_between a b c d e f to from_left from_right = ground (arith, to, from_left, from_right)

-- Two tests in a row are one test of equality.
pub between-eq-eqb_ℤ :
    (lo v hi q d : ℤ)
    → (lo ≤ℤ v → v <ℤ hi → pos_part q + neg_part d ≡ pos_part d + neg_part q)
    → (pos_part q + neg_part d ≡ pos_part d + neg_part q → lo ≤ℤ v)
    → (pos_part q + neg_part d ≡ pos_part d + neg_part q → v <ℤ hi)
    → (leb_ℤ lo v && ltb_ℤ v hi) ≡ eqb_ℤ q d
between-eq-eqb_ℤ lo v hi q d = same_between _ _ _ _ _ _
