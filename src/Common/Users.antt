-- ===== src/Common/Users.antt =====
-- common/config_store.py: the users of the web interface. `created_at` is not modelled.
use text.Mathlib.Text.{◌==◌ as str_eq}
use postgres_s3_warehouse_sy.Prelude.{String, Bool, Option, none, some, List, if◌then◌else◌}
use postgres_s3_warehouse_sy.Prelude.Table.{find, put, remove, string_key}

-- A row of pipeline_users, without its key, the e-mail.
pub record UserRow : Type 0 where
  pub role : String
  pub enabled : Bool

pub record User : Type 0 where
  pub email : String
  pub role : String

abbrev pub Users : Type 0
Users = List (String × UserRow)

-- Any role but "admin" is "viewer".
abbrev pub clamped : String → String
clamped role = if str_eq role "admin" then "admin" else "viewer"

abbrev enabled_user : String → Option UserRow → Option User
enabled_user email none = none
enabled_user email (some row) =
    if row.enabled then some (record { email = email; role = row.role }) else none

-- `normalized` is `email.strip().lower()`.
module _ (normalized : String → String) where
  unfoldable pub upsert_user : String → String → Bool → Users → Users
  upsert_user email role enabled users =
      put (normalized email) (record { role = clamped role; enabled = enabled }) users

  unfoldable pub delete_user : String → Users → Users
  delete_user email users = remove (normalized email) users

  unfoldable pub get_user : String → Users → Option User
  get_user email users = enabled_user (normalized email) (find (normalized email) users)
