-- ===== src/Prelude/Table.antt =====
-- A database table, or a Python dict, by its primary key: rows found, inserted or replaced.
use mathlib.Core.Bool.{◌&&◌}
use text.Mathlib.Text.{◌==◌ as str_eq}
use postgres_s3_warehouse_sy.Prelude.{
  String, ◌≡◌, refl, ◌↔◌, Bool, true, Option, none, some, List, [], ◌∷◌, arith, eq_iff,
  if◌then◌else◌, filter, Bool-cases, inl, inr, ◌∙◌,
}
use postgres_s3_warehouse_sy.Prelude.Int.{ℤ, eqb_ℤ, eqb_ℤ_iff}

-- Keys that can be compared.
pub record Key (K : Type 0) : Type 0 where
  pub beq : K → K → Bool
  pub beq_iff : (a b : K) → (beq a b ≡ true) ↔ (a ≡ b)

instance abbrev pub string_key : Key String
string_key = record { beq = str_eq; beq_iff = eq_iff }

instance abbrev pub int_key : Key ℤ
int_key = record { beq = eqb_ℤ; beq_iff = eqb_ℤ_iff }

abbrev pub pair_beq : {A B : Type 0} → Key A → Key B → A × B → A × B → Bool
pair_beq a b (x, y) (x', y') = a.beq x x' && b.beq y y'

pub pair_beq_iff :
    {A B : Type 0} (a : Key A) (b : Key B) (p q : A × B) → (pair_beq a b p q ≡ true) ↔ (p ≡ q)
pair_beq_iff a b (x, y) (x', y') = ground (arith, a.beq_iff x x', b.beq_iff y y')

-- A primary key of two columns.
instance abbrev pub pair_key : {A B : Type 0} ⦃a : Key A⦄ ⦃b : Key B⦄ → Key (A × B)
pair_key ⦃a⦄ ⦃b⦄ = record { beq = pair_beq a b; beq_iff = pair_beq_iff a b }

pub beq_refl : {K : Type 0} ⦃k : Key K⦄ (key : K) → k.beq key key ≡ true
beq_refl ⦃k⦄ key = (k.beq_iff key key).1 refl

module _ {K V : Type 0} ⦃k : Key K⦄ where
  unfoldable pub find : K → List (K × V) → Option V
  find key [] = none
  find key ((j, v) ∷ rows) = if k.beq j key then some v else find key rows

  -- INSERT, or UPDATE of the row that is there.
  unfoldable pub put : K → V → List (K × V) → List (K × V)
  put key v [] = (key, v) ∷ []
  put key v ((j, w) ∷ rows) = if k.beq j key then (key, v) ∷ rows else (j, w) ∷ put key v rows

  -- DELETE of a row.
  unfoldable pub remove : K → List (K × V) → List (K × V)
  remove key [] = []
  remove key ((j, w) ∷ rows) =
      let rest = remove key rows in if k.beq j key then rest else (j, w) ∷ rest

  pub find-put :
      (key j : K) (v : V) (rows : List (K × V))
      → find j (put key v rows) ≡ (if k.beq key j then some v else find j rows)
  unfolding find put
  find-put key j v [] = refl
  find-put key j v ((i, w) ∷ rows) =
      ground (arith, k.beq_iff key j, k.beq_iff i key, k.beq_iff i j, find-put key j v rows)

  pub find-remove :
      (key j : K) (rows : List (K × V))
      → find j (remove key rows) ≡ (if k.beq key j then none else find j rows)
  unfolding find remove
  find-remove key j [] = ground arith
  find-remove key j ((i, w) ∷ rows) =
      ground (arith, k.beq_iff key j, k.beq_iff i key, k.beq_iff i j, find-remove key j rows)

  pub find-put_self : (key : K) (v : V) (rows : List (K × V)) → find key (put key v rows) ≡ some v
  find-put_self key v rows = rw (find-put, beq_refl)

  -- Rows filtered by their keys.
  pub find-filter :
      (p : K → Bool) (j : K) (rows : List (K × V))
      → find j (filter (λ r. p r.0) rows) ≡ (if p j then find j rows else none)
  unfolding find
  find-filter p j [] = ground arith
  find-filter p j ((i, w) ∷ rows) = elim (Bool-cases (k.beq i j)) [
    | inl e ↦
        let here = (k.beq_iff i j).0 e in
        elim (Bool-cases (p j)) [
          | inl q ↦ rw (here, q, beq_refl j) refl
          | inr q ↦ rw (here, q) (find-filter p j rows ∙ rw q refl)
        ]
    | inr e ↦ elim (Bool-cases (p i)) [
      | inl q ↦ rw (q, e) (find-filter p j rows)
      | inr q ↦ rw (q, e) (find-filter p j rows)
    ]
  ]
