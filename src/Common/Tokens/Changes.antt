-- ===== src/Common/Tokens/Changes.antt =====
-- What the operations on the table of tokens (common/config_store.py) can change.
use text.Mathlib.Text.{◌==◌ as str_eq}
use postgres_s3_warehouse_sy.Prelude.{
  ◌≡◌, refl, String, Bool, true, false, not, ◌&&◌, Option, none, some, List, [], ◌∷◌, ◌++◌, map,
  any, find?, truthy, Bool-cases, inl, inr, ◌⊎◌, arith,
}
use postgres_s3_warehouse_sy.Prelude.Int.{ℤ}
use postgres_s3_warehouse_sy.Prelude.Result.{Result, ok, err, constraint_violation, ◌>>=◌, require}
use postgres_s3_warehouse_sy.Common.Users.{clamped}
use postgres_s3_warehouse_sy.Common.Tokens.{
  TokenRow, revoked_row, revoke_api_token, used_row, create_api_token, answers, mark_used,
  verify_api_token,
}

abbrev pub has : String → TokenRow → Bool
has h r = str_eq r.token_hash h

abbrev pub live : String → TokenRow → Bool
live h r = str_eq r.token_hash h && not r.revoked

-- What becomes of a row: its hash and its role stay, and it is not revived.
pub record Keeps (g : TokenRow → TokenRow) : Type 0 where
  pub hash : (r : TokenRow) → (g r).token_hash ≡ r.token_hash
  pub role : (r : TokenRow) → (g r).role ≡ r.role
  pub dead : (r : TokenRow) → r.revoked ≡ true → (g r).revoked ≡ true

pub revoked_row-Keeps : (id : ℤ) → Keeps (revoked_row id)
revoked_row-Keeps id = record {
  hash = λ r. ground arith;
  role = λ r. ground arith;
  dead = λ r e. ground arith;
}

used_row-Keeps : (now id : ℤ) → Keeps (used_row now id)
used_row-Keeps now id = record {
  hash = λ r. ground arith;
  role = λ r. ground arith;
  dead = λ r e. ground arith;
}

-- A role that the code knows.
abbrev pub IsRole : String → Type 0
IsRole role = (role ≡ "admin") ⊎ (role ≡ "viewer")

clamped-IsRole : (role : String) → IsRole (clamped role)
clamped-IsRole role = elim (Bool-cases (str_eq role "admin")) [
  | inl e ↦ rw e (inl refl)
  | inr e ↦ rw e (inr refl)
]

-- All that an operation can do to the rows.
pub data Change (rows : List TokenRow) : List TokenRow → Type 0 where
  same : Change rows rows
  appended :
      (new : TokenRow)
      → any (has new.token_hash) rows ≡ false
      → IsRole new.role
      → Change rows (rows ++ (new ∷ []))
  mapped : (g : TokenRow → TokenRow) → Keeps g → Change rows (map g rows)

-- The operations on the table, with what each takes from outside.
pub data Op : Type 0 where
  create : ℤ → String → String → String → ℤ → String → Op
  revoke : ℤ → Op
  verify : ℤ → String → Op

abbrev kept : List TokenRow → Result (List TokenRow × String) → List TokenRow
kept rows (err e) = rows
kept rows (ok (rows', token)) = rows'

module _ (hash : String → String) where
  unfoldable pub step : Op → List TokenRow → List TokenRow
  step (create new_id random name email connection_id role) rows =
      kept rows (create_api_token hash new_id random name email connection_id role rows)
  step (revoke token_id) rows = revoke_api_token token_id rows
  step (verify now token) rows = (verify_api_token hash now token rows).0

  unfoldable pub run : List Op → List TokenRow → List TokenRow
  run [] rows = rows
  run (op ∷ ops) rows = run ops (step op rows)

  create-Change :
      (rows : List TokenRow) (new : TokenRow) (token : String) (taken : Bool)
      → any (has new.token_hash) rows ≡ taken
      → IsRole new.role
      → Change rows (
          kept rows
            (do _ ← require (not taken) constraint_violation; ok (rows ++ (new ∷ []), token)))
  create-Change rows new token true e role = same
  create-Change rows new token false e role = appended new e role

  verify-Change :
      (now : ℤ) (token : String) (rows : List TokenRow) (found : Option TokenRow)
      → Change rows (mark_used hash now rows found).0
  unfolding mark_used
  verify-Change now token rows none = same
  verify-Change now token rows (some r) = mapped (used_row now r.id) (used_row-Keeps now r.id)

  step-Change : (op : Op) (rows : List TokenRow) → Change rows (step op rows)
  unfolding step create_api_token revoke_api_token verify_api_token
  step-Change (create new_id random name email c role) rows =
      create-Change rows _ _ _ refl (clamped-IsRole role)
  step-Change (revoke id) rows = mapped (revoked_row id) (revoked_row-Keeps id)
  step-Change (verify now token) rows = elim (Bool-cases (truthy token)) [
    | inl e ↦ rw (step, e) (verify-Change now token rows (find? (answers hash token) rows))
    | inr e ↦ rw (step, e) same
  ]

  -- What every change keeps, every run keeps.
  pub run-keeps :
      (P : List TokenRow → Type 0)
      → ((rows rows' : List TokenRow) → Change rows rows' → P rows → P rows')
      → (ops : List Op) (rows : List TokenRow) → P rows
      → P (run ops rows)
  unfolding run
  run-keeps P keep [] rows holds = holds
  run-keeps P keep (op ∷ ops) rows holds =
      run-keeps P keep ops (step op rows) (keep rows (step op rows) (step-Change op rows) holds)
