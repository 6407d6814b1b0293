-- ===== src/Examples/Sql.antt =====
-- Guarded SQL, logins and requests at concrete inputs.
use Prim.Native.String.{◌++◌ as append, slice, len}
use text.Mathlib.Text.{starts_with}
use text.Mathlib.TextPositions.{starts_with-append, slice-append_right, len-append}
use postgres_s3_warehouse_sy.Prelude.{
  ◌≡◌, refl, ap, ◌∙◌, String, Bool, true, false, Option, none, some, List, [], ◌∷◌, any, ◌⊎◌, inl,
  inr, if◌then◌else◌,
}
use postgres_s3_warehouse_sy.Prelude.Int.{ℤ, pos, ◌-ℤ◌}
use postgres_s3_warehouse_sy.Prelude.Result.{ok}
use postgres_s3_warehouse_sy.Common.Connections.{list_connections, get_connection}
use postgres_s3_warehouse_sy.Common.Connections.Spec.{by_id}
use postgres_s3_warehouse_sy.Gateway.Auth.{Principal}
use postgres_s3_warehouse_sy.Gateway.SqlGuard.{
  NodeClass, select, table, LimitExpression, no_this, Sqlglot, GuardConfig, GuardSettings, guard,
  default_config, is_query, is_write, is_select, foreign_table,
}
use postgres_s3_warehouse_sy.Gateway.SqlGuard.Safe.{
  IsSafe, guard-IsSafe, guard-limit_of, guard-guard,
}
use postgres_s3_warehouse_sy.Gateway.SqlGuard.Maximum.{guard-max_row_limit}
use postgres_s3_warehouse_sy.Gateway.App.Sql.{own_schemas, prepare_sql, prepare_sql-scoped}
use postgres_s3_warehouse_sy.Examples.Config.{fernet, store, plain, store-Shows}

-- SQL texts that start with "q" are SELECTs of one table of the schema "sales_lake"; the others are
-- that table.
abbrev Node : Type 0
Node = String ⊎ Unit {0}

abbrev print : Node → String
print (inl s) = append "q" s
print (inr u) = "t"

abbrev read : String → Node
read s = if starts_with s "q" then inl (slice s (len "q") (len s)) else inr tt

abbrev class_of : Node → NodeClass
class_of (inl s) = select
class_of (inr u) = table (some "sales_lake")

abbrev walk : Node → List Node
walk (inl s) = inl s ∷ inr tt ∷ []
walk (inr u) = inr u ∷ []

abbrev limit_of : Node → Option LimitExpression
limit_of (inl s) = if starts_with s "limited " then some no_this else none
limit_of (inr u) = some no_this

abbrev limit : ℤ → Node → Node
limit k (inl s) = inl (append "limited " s)
limit k (inr u) = inr u

read-print : (n : Node) → some (some (read (print n)) ∷ []) ≡ some (some n ∷ [])
read-print (inl s) = rw (starts_with-append "q" s) (
    ap (λ t. some (some (inl t) ∷ []))
      (ap (λ n. slice (append "q" s) (len "q") n) (len-append "q" s) ∙ slice-append_right "q" s))
read-print (inr u) = refl

class_of-limit : (k : ℤ) (n : Node) → class_of (limit k n) ≡ class_of n
class_of-limit k (inl s) = refl
class_of-limit k (inr u) = refl

walk-limit :
    (p : NodeClass → Bool) (k : ℤ) (n : Node)
    → any (λ x. p (class_of x)) (walk (limit k n)) ≡ any (λ x. p (class_of x)) (walk n)
walk-limit p k (inl s) = refl
walk-limit p k (inr u) = refl

limit_of-limit : (k : ℤ) (n : Node) → (l : LimitExpression) × (limit_of (limit k n) ≡ some l)
limit_of-limit k (inl s) = (no_this, rw (starts_with-append "limited " s) refl)
limit_of-limit k (inr u) = (no_this, refl)

abbrev glot : Sqlglot
glot = record {
  Node = Node;
  parse = λ s. some (some (read s) ∷ []);
  sql = print;
  walk = walk;
  class_of = class_of;
  limit_of = limit_of;
  limit = limit;
  parse-sql = λ text stmts n t one q. read-print n;
  parse-sql-limit = λ text stmts n k t one q. read-print (limit k n);
  class_of-limit = λ k n e. class_of-limit k n;
  walk-limit = λ p k n e o. walk-limit p k n;
  limit_of-limit = λ k n e. limit_of-limit k n;
}

abbrev cfg : GuardConfig
cfg = record {
  allowed_schemas = "sales_lake" ∷ [];
  default_row_limit = some (pos 100);
  max_row_limit = some (pos 1000);
}

guard-IsSafe_example :
    (stmt : Node) × (glot.parse "qlimited x" ≡ some (some stmt ∷ [])) × IsSafe glot cfg stmt
unfolding guard
guard-IsSafe_example = guard-IsSafe glot cfg "qx" "qlimited x" refl

guard-limit_of_example :
    (stmt : Node) × (glot.parse "qlimited x" ≡ some (some stmt ∷ []))
    × ((is_select (glot.class_of stmt) ≡ false)
        ⊎ ((l : LimitExpression) × (glot.limit_of stmt ≡ some l)))
unfolding guard
guard-limit_of_example = guard-limit_of glot cfg "qx" "qlimited x" refl refl

guard-guard_example : guard glot cfg "qlimited x" ≡ ok "qlimited x"
unfolding guard
guard-guard_example = guard-guard glot cfg "qx" "qlimited x" refl

guard-max_row_limit_example :
    guard glot (record cfg { max_row_limit = some (pos 5) }) "qlimited x"
    ≡ guard glot cfg "qlimited x"
guard-max_row_limit_example = guard-max_row_limit glot cfg (some (pos 5)) "qlimited x"

abbrev settings : GuardSettings
settings = record {
  allowed_schemas = "viamedia_lake" ∷ [];
  gateway_default_row_limit = pos 100;
  gateway_max_row_limit = pos 1000;
}

abbrev scoped_admin : Principal
scoped_admin = record {
  sub = "ci";
  roles = "admin" ∷ [];
  email = "ci@x";
  connection_id = some (pos 1);
}

prepare_sql-scoped_example :
    (stmt : glot.Node) × (glot.parse "qlimited x" ≡ some (some stmt ∷ []))
    × (is_query (glot.class_of stmt) ≡ true)
    × (any (λ n. is_write (glot.class_of n)) (glot.walk stmt) ≡ false)
    × (any
          (λ n. foreign_table (own_schemas (by_id (pos 1) plain)) (glot.class_of n))
          (glot.walk stmt)
        ≡ false)
unfolding prepare_sql default_config list_connections get_connection guard ◌-ℤ◌
prepare_sql-scoped_example =
    prepare_sql-scoped fernet settings (pos 3) glot true scoped_admin (pos 1) store store plain "qx"
      "qlimited x" refl store-Shows refl
