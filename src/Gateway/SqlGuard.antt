-- ===== src/Gateway/SqlGuard.antt =====
-- gateway/sql_guard.py: which SQL a caller may run. sqlglot is an argument.
pub mod Safe
pub mod Maximum
pub mod Schemas
use text.Mathlib.Text.{◌==◌ as str_eq}
use postgres_s3_warehouse_sy.Prelude.{
  ◌≡◌, String, Bool, true, false, not, ◌||◌, Option, none, some, List, [], ◌∷◌, ◌++◌, map, any,
  filter, if◌then◌else◌,
}
use postgres_s3_warehouse_sy.Prelude.Int.{ℤ, pos, ltb_ℤ}
use postgres_s3_warehouse_sy.Prelude.Result.{
  Error, Result, ok, err, type_error, value_error, guard_error, ◌>>=◌, require,
}
use postgres_s3_warehouse_sy.Common.Connections.{Connection, Store, list_connections}
use postgres_s3_warehouse_sy.Common.Crypto.{Fernet}

-- The classes of expressions that the guard tells apart. A table has the name of its schema, if it
-- is qualified.
pub data NodeClass : Type 0 where
  select subquery union with_clause : NodeClass
  insert update delete merge create drop alter truncate_table : NodeClass
  table : Option String → NodeClass
  other : NodeClass

-- `limit.expression`: without an attribute `this`, or what `int` makes of it, `none` where it raises
-- a TypeError or a ValueError.
pub data LimitExpression : Type 0 where
  no_this : LimitExpression
  this : Option ℤ → LimitExpression

abbrev pub is_query : NodeClass → Bool
is_query select = true
is_query subquery = true
is_query union = true
is_query with_clause = true
is_query _ = false

abbrev pub is_select : NodeClass → Bool
is_select select = true
is_select _ = false

-- The statements that are there.
abbrev pub present {ℓ} : {A : Type ℓ} → List (Option A) → List A
present [] = []
present (none ∷ xs) = present xs
present (some x ∷ xs) = x ∷ present xs

-- sqlglot: a parse error is `none`, as is an empty statement; `walk` is all of a tree. A query that
-- was parsed as the one statement of a text is read back when it is printed, a SELECT also with a
-- limit. `limit` puts a LIMIT on a SELECT, whose nodes are of no class that the guard tells apart.
pub record Sqlglot : Type 1 where
  pub Node : Type 0
  pub parse : String → Option (List (Option Node))
  pub sql : Node → String
  pub walk : Node → List Node
  pub class_of : Node → NodeClass
  pub limit_of : Node → Option LimitExpression
  pub limit : ℤ → Node → Node
  pub parse-sql :
      (text : String) (stmts : List (Option Node)) (n : Node)
      → parse text ≡ some stmts
      → present stmts ≡ n ∷ []
      → is_query (class_of n) ≡ true
      → parse (sql n) ≡ some (some n ∷ [])
  pub parse-sql-limit :
      (text : String) (stmts : List (Option Node)) (n : Node) (k : ℤ)
      → parse text ≡ some stmts
      → present stmts ≡ n ∷ []
      → is_select (class_of n) ≡ true
      → parse (sql (limit k n)) ≡ some (some (limit k n) ∷ [])
  pub class_of-limit :
      (k : ℤ) (n : Node) → is_select (class_of n) ≡ true → class_of (limit k n) ≡ class_of n
  pub walk-limit :
      (p : NodeClass → Bool) (k : ℤ) (n : Node)
      → is_select (class_of n) ≡ true
      → p other ≡ false
      → any (λ x. p (class_of x)) (walk (limit k n)) ≡ any (λ x. p (class_of x)) (walk n)
  pub limit_of-limit :
      (k : ℤ) (n : Node)
      → is_select (class_of n) ≡ true
      → (l : LimitExpression) × (limit_of (limit k n) ≡ some l)

pub record GuardConfig : Type 0 where
  pub allowed_schemas : List String
  pub default_row_limit : Option ℤ
  pub max_row_limit : Option ℤ

abbrev pub is_write : NodeClass → Bool
is_write insert = true
is_write update = true
is_write delete = true
is_write merge = true
is_write create = true
is_write drop = true
is_write alter = true
is_write truncate_table = true
is_write _ = false

abbrev pub member : String → List String → Bool
member x xs = any (λ y. str_eq y x) xs

-- A table that is not qualified, or not with an allowed schema.
abbrev pub foreign_table : List String → NodeClass → Bool
foreign_table allowed (table none) = true
foreign_table allowed (table (some db)) = not (member db allowed)
foreign_table allowed _ = false

-- `is None or < 0`
abbrev pub unlimited : Option ℤ → Bool
unlimited none = true
unlimited (some n) = ltb_ℤ n (pos 0)

-- The classes that `except (TypeError, ValueError)` takes: SqlGuardError is a ValueError.
abbrev is_value_error : Error → Bool
is_value_error type_error = true
is_value_error value_error = true
is_value_error guard_error = true
is_value_error _ = false

abbrev except_value_errors : Result (Unit {0}) → Result (Unit {0})
except_value_errors (ok u) = ok u
except_value_errors (err e) = if is_value_error e then ok tt else err e

-- `int(...)`, or the maximum where there is no `this`.
abbrev limit_number : ℤ → LimitExpression → Result ℤ
limit_number max no_this = ok max
limit_number max (this (some n)) = ok n
limit_number max (this none) = err value_error

pub check_limit : Option ℤ → LimitExpression → Result (Unit {0})
check_limit none limit = ok tt
check_limit (some max) limit =
    if unlimited (some max)
    then ok tt
    else except_value_errors
        (do n ← limit_number max limit; require (not (ltb_ℤ max n)) guard_error)

module _ (glot : Sqlglot) where
  open glot use {Node}

  inject : GuardConfig → Option ℤ → Node → Node
  inject cfg none stmt = stmt
  inject cfg (some n) stmt = if unlimited (some n) then stmt else glot.limit n stmt

  -- The row limit of a SELECT.
  limited : GuardConfig → Option LimitExpression → Node → Result Node
  unfolding inject check_limit
  limited cfg none stmt = ok (inject cfg cfg.default_row_limit stmt)
  limited cfg (some limit) stmt = do _ ← check_limit cfg.max_row_limit limit; ok stmt

  row_limit : GuardConfig → Node → Result Node
  unfolding limited
  row_limit cfg stmt =
      if is_select (glot.class_of stmt) then limited cfg (glot.limit_of stmt) stmt else ok stmt

  guard_statement : GuardConfig → Node → Result String
  unfolding row_limit
  guard_statement cfg stmt = do
    _ ← require (is_query (glot.class_of stmt)) guard_error
    _ ← require (not (any (λ n. is_write (glot.class_of n)) (glot.walk stmt))) guard_error
    _ ←
        require
          (not (any (λ n. foreign_table cfg.allowed_schemas (glot.class_of n)) (glot.walk stmt)))
          guard_error
    stmt' ← row_limit cfg stmt
    ok (glot.sql stmt')

  guard_one : GuardConfig → List Node → Result String
  unfolding guard_statement
  guard_one cfg (stmt ∷ []) = guard_statement cfg stmt
  guard_one cfg _ = err guard_error

  guard_parsed : GuardConfig → Option (List (Option Node)) → Result String
  unfolding guard_one
  guard_parsed cfg none = err guard_error
  guard_parsed cfg (some statements) = guard_one cfg (present statements)

  unfoldable pub guard : GuardConfig → String → Result String
  unfolding guard_parsed
  guard cfg sql = guard_parsed cfg (glot.parse sql)

pub record GuardSettings : Type 0 where
  pub allowed_schemas : List String
  pub gateway_default_row_limit : ℤ
  pub gateway_max_row_limit : ℤ

abbrev namespaces : List Connection → List String
namespaces conns = map (λ c. c.options.iceberg_namespace) conns

abbrev config_with : GuardSettings → List String → GuardConfig
config_with s schemas = record {
  allowed_schemas = schemas;
  default_row_limit = some s.gateway_default_row_limit;
  max_row_limit = some s.gateway_max_row_limit;
}

configured : GuardSettings → Store → Result (Store × List Connection) → Store × GuardConfig
configured s store (err e) = (store, config_with s s.allowed_schemas)
configured s store (ok (store', conns)) =
    (store', config_with s (s.allowed_schemas ++ namespaces conns))

-- Where the connections cannot be read, only the settings' schemas are allowed.
unfoldable pub default_config : Result Fernet → ℤ → GuardSettings → Store → Store × GuardConfig
unfolding configured
default_config fernet now s store =
    configured s store (list_connections fernet now true false store)
