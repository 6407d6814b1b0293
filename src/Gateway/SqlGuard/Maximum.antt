-- ===== src/Gateway/SqlGuard/Maximum.antt =====
-- The maximum of rows of gateway/sql_guard.py.
use postgres_s3_warehouse_sy.Prelude.{
  ◌≡◌, refl, ap, sym, ◌∙◌, String, Option, none, some, List, [], ◌∷◌, if◌then◌else◌,
}
use postgres_s3_warehouse_sy.Prelude.Int.{ℤ}
use postgres_s3_warehouse_sy.Prelude.Result.{ok, ◌>>=◌}
use postgres_s3_warehouse_sy.Gateway.SqlGuard.{
  LimitExpression, Sqlglot, GuardConfig, is_select, present, inject, limited, row_limit,
  guard_statement, guard_one, guard_parsed, guard,
}
use postgres_s3_warehouse_sy.Gateway.SqlGuard.Safe.{check_limit-ok}

module _ (glot : Sqlglot) where
  open glot use {Node}

  limited-same :
      (cfg : GuardConfig) (max : Option ℤ) (l : Option LimitExpression) (stmt : Node)
      → limited glot (record cfg { max_row_limit = max }) l stmt ≡ limited glot cfg l stmt
  unfolding limited inject
  limited-same cfg max none stmt = refl
  limited-same cfg max (some l) stmt =
      ap (λ r. r >>= λ u. ok stmt) (check_limit-ok max l ∙ sym (check_limit-ok cfg.max_row_limit l))

  row_limit-same :
      (cfg : GuardConfig) (max : Option ℤ) (stmt : Node)
      → row_limit glot (record cfg { max_row_limit = max }) stmt ≡ row_limit glot cfg stmt
  unfolding row_limit
  row_limit-same cfg max stmt =
      ap (λ r. if is_select (glot.class_of stmt) then r else ok stmt)
        (limited-same cfg max (glot.limit_of stmt) stmt)

  guard_one-same :
      (cfg : GuardConfig) (max : Option ℤ) (stmts : List Node)
      → guard_one glot (record cfg { max_row_limit = max }) stmts ≡ guard_one glot cfg stmts
  unfolding guard_one guard_statement
  guard_one-same cfg max [] = refl
  guard_one-same cfg max (a ∷ b ∷ stmts) = refl
  guard_one-same cfg max (stmt ∷ []) = rw (row_limit-same cfg max stmt) refl

  guard_parsed-same :
      (cfg : GuardConfig) (max : Option ℤ) (parsed : Option (List (Option Node)))
      → guard_parsed glot (record cfg { max_row_limit = max }) parsed ≡ guard_parsed glot cfg parsed
  unfolding guard_parsed
  guard_parsed-same cfg max none = refl
  guard_parsed-same cfg max (some statements) = guard_one-same cfg max (present statements)

  -- The configured maximum of rows has no effect: with any other maximum the guard accepts the same
  -- SQL and returns the same, since the error that it raises for a LIMIT above the maximum is
  -- caught as a ValueError.
  pub guard-max_row_limit :
      (cfg : GuardConfig) (max : Option ℤ) (sql : String)
      → guard glot (record cfg { max_row_limit = max }) sql ≡ guard glot cfg sql
  unfolding guard
  guard-max_row_limit cfg max sql = guard_parsed-same cfg max (glot.parse sql)
