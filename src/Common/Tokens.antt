-- ===== src/Common/Tokens.antt =====
-- common/config_store.py: API tokens. A token is stored as its hash, which is UNIQUE
-- (common/migrations.py); `created_at` is not modelled.
pub mod Changes
pub mod Kept
pub mod Lifecycle
use Prim.Native.String.{◌++◌ as append, slice}
use text.Mathlib.Text.{◌==◌ as str_eq}
use postgres_s3_warehouse_sy.Prelude.{
  String, Bool, true, false, not, ◌&&◌, Option, none, some, List, [], ◌∷◌, ◌++◌, map, any, find?,
  if◌then◌else◌, truthy,
}
use postgres_s3_warehouse_sy.Prelude.Int.{ℤ, eqb_ℤ}
use postgres_s3_warehouse_sy.Prelude.Result.{Result, ok, err, constraint_violation, ◌>>=◌, require}
use postgres_s3_warehouse_sy.Common.Users.{clamped}

-- A row of pipeline_api_tokens.
pub record TokenRow : Type 0 where
  pub id : ℤ
  pub name : String
  pub email : String
  pub connection_id : ℤ
  pub role : String
  pub token_hash : String
  pub token_prefix : String
  pub last_used_at : Option ℤ
  pub revoked : Bool

pub record TokenInfo : Type 0 where
  pub id : ℤ
  pub email : String
  pub connection_id : ℤ
  pub role : String

-- `list_api_tokens` returns neither the token nor its hash.
pub record Listed : Type 0 where
  pub id : ℤ
  pub name : String
  pub email : String
  pub connection_id : ℤ
  pub role : String
  pub token_prefix : String
  pub last_used_at : Option ℤ
  pub revoked : Bool

abbrev pub info : TokenRow → TokenInfo
info r = record { id = r.id; email = r.email; connection_id = r.connection_id; role = r.role }

pub list_api_tokens : List TokenRow → List Listed
list_api_tokens rows =
    map
      (λ r. record {
        id = r.id;
        name = r.name;
        email = r.email;
        connection_id = r.connection_id;
        role = r.role;
        token_prefix = r.token_prefix;
        last_used_at = r.last_used_at;
        revoked = r.revoked;
      })
      rows

abbrev pub revoked_row : ℤ → TokenRow → TokenRow
revoked_row token_id r = if eqb_ℤ r.id token_id then record r { revoked = true } else r

pub revoke_api_token : ℤ → List TokenRow → List TokenRow
revoke_api_token token_id rows = map (revoked_row token_id) rows

abbrev pub used_row : ℤ → ℤ → TokenRow → TokenRow
used_row now token_id r = if eqb_ℤ r.id token_id then record r { last_used_at = some now } else r

-- `random` is `secrets.token_urlsafe(32)`.
abbrev pub fresh_token : String → String
fresh_token random = append "vmt_" random

-- `hash` is the SHA-256 digest in hexadecimal.
module _ (hash : String → String) where
  -- `new_id` is the next value of the serial column. Returns the rows and the token.
  unfoldable pub create_api_token :
      ℤ → String → String → String → ℤ → String → List TokenRow → Result (List TokenRow × String)
  create_api_token new_id random name email connection_id role rows = do
    _ ←
        require (not (any (λ r. str_eq r.token_hash (hash (fresh_token random))) rows))
          constraint_violation
    ok (
      rows
          ++ (record {
            id = new_id;
            name = name;
            email = email;
            connection_id = connection_id;
            role = clamped role;
            token_hash = hash (fresh_token random);
            token_prefix = slice (fresh_token random) 0 12;
            last_used_at = none;
            revoked = false;
          }
              ∷ []),
      fresh_token random,
    )

  abbrev pub answers : String → TokenRow → Bool
  answers token r = str_eq r.token_hash (hash token) && not r.revoked

  mark_used : ℤ → List TokenRow → Option TokenRow → List TokenRow × Option TokenInfo
  mark_used now rows none = (rows, none)
  mark_used now rows (some r) = (map (used_row now r.id) rows, some (info r))

  unfoldable pub verify_api_token : ℤ → String → List TokenRow → List TokenRow × Option TokenInfo
  unfolding mark_used
  verify_api_token now token rows =
      if truthy token then mark_used now rows (find? (answers token) rows) else (rows, none)
