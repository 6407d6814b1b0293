-- ===== src/Gateway/SqlGuard/Safe.antt =====
-- What the SQL is that the guard of gateway/sql_guard.py returns.
use postgres_s3_warehouse_sy.Prelude.{
  ◌≡◌, refl, ap, sym, ◌∙◌, inl, inr, ◌⊎◌, String, Bool, true, false, not, Option, none, some, List,
  [], ◌∷◌, any, Bool-cases,
}
use postgres_s3_warehouse_sy.Prelude.Int.{ℤ, ltb_ℤ}
use postgres_s3_warehouse_sy.Prelude.Result.{
  ok, guard_error, ◌>>=◌, require, require_passed, ok-injective,
}
use postgres_s3_warehouse_sy.Gateway.SqlGuard.{
  LimitExpression, no_this, this, Sqlglot, GuardConfig, is_query, is_write, is_select,
  foreign_table, unlimited, except_value_errors, limit_number, check_limit, present, inject,
  limited, row_limit, guard_statement, guard_one, guard_parsed, guard,
}

not-true : (b : Bool) → not b ≡ true → b ≡ false
not-true true h = cc
not-true false h = refl

-- The maximum does not matter: the error of a LIMIT above it is a ValueError, which is caught.
pub check_limit-ok : (max : Option ℤ) (limit : LimitExpression) → check_limit max limit ≡ ok tt
unfolding check_limit
check_limit-ok none limit = refl
check_limit-ok (some max) limit = elim (Bool-cases (unlimited (some max))) [
  | inl e ↦ rw e refl
  | inr e ↦ rw e (caught limit)
]
  where
    compared : (b : Bool) → except_value_errors (require b guard_error) ≡ ok tt
    compared true = refl
    compared false = refl

    caught :
        (limit : LimitExpression)
        → except_value_errors
            (limit_number max limit >>= λ n. require (not (ltb_ℤ max n)) guard_error)
          ≡ ok tt
    caught no_this = compared _
    caught (this none) = refl
    caught (this (some n)) = compared _

module _ (glot : Sqlglot) where
  open glot use {Node}

  module _ (cfg : GuardConfig) where
    -- A single query that writes nothing and reads only tables of the allowed schemas.
    pub record IsSafe (stmt : Node) : Type 0 where
      pub query : is_query (glot.class_of stmt) ≡ true
      pub reads : any (λ n. is_write (glot.class_of n)) (glot.walk stmt) ≡ false
      pub schemas :
          any (λ n. foreign_table cfg.allowed_schemas (glot.class_of n)) (glot.walk stmt) ≡ false

    limit-IsSafe :
        (k : ℤ) (stmt : Node)
        → is_select (glot.class_of stmt) ≡ true
        → IsSafe stmt
        → IsSafe (glot.limit k stmt)
    limit-IsSafe k stmt e s = record {
      query = ap is_query (glot.class_of-limit k stmt e) ∙ s.query;
      reads = glot.walk-limit is_write k stmt e refl ∙ s.reads;
      schemas = glot.walk-limit (foreign_table cfg.allowed_schemas) k stmt e refl ∙ s.schemas;
    }

    -- What `row_limit` makes of a statement: the statement, or the same with the default limit
    -- where it is a SELECT without one.
    data Limits (stmt : Node) : Node → Type 0 where
      as_is :
          (is_select (glot.class_of stmt) ≡ false)
            ⊎ ((l : LimitExpression) × (glot.limit_of stmt ≡ some l))
            ⊎ (unlimited cfg.default_row_limit ≡ true)
          → Limits stmt stmt
      injected : (k : ℤ) → is_select (glot.class_of stmt) ≡ true → Limits stmt (glot.limit k stmt)

    inject-Limits :
        (stmt : Node) (d : Option ℤ)
        → is_select (glot.class_of stmt) ≡ true
        → cfg.default_row_limit ≡ d
        → Limits stmt (inject glot cfg d stmt)
    unfolding inject
    inject-Limits stmt none is e = as_is (inr (inr (ap unlimited e)))
    inject-Limits stmt (some k) is e = elim (Bool-cases (unlimited (some k))) [
      | inl u ↦ rw u (as_is (inr (inr (ap unlimited e ∙ u))))
      | inr u ↦ rw u (injected k is)
    ]

    limited-Limits :
        (stmt : Node) (l : Option LimitExpression)
        → is_select (glot.class_of stmt) ≡ true
        → glot.limit_of stmt ≡ l
        → (stmt' : Node) × (limited glot cfg l stmt ≡ ok stmt') × Limits stmt stmt'
    unfolding limited
    limited-Limits stmt none is e =
        (inject glot cfg cfg.default_row_limit stmt, refl, inject-Limits stmt _ is refl)
    limited-Limits stmt (some l) is e =
        (stmt, rw (check_limit-ok cfg.max_row_limit l) refl, as_is (inr (inl (l, e))))

    row_limit-Limits :
        (stmt : Node) → (stmt' : Node) × (row_limit glot cfg stmt ≡ ok stmt') × Limits stmt stmt'
    unfolding row_limit
    row_limit-Limits stmt = elim (Bool-cases (is_select (glot.class_of stmt))) [
      | inl e ↦ rw e (limited-Limits stmt (glot.limit_of stmt) e refl)
      | inr e ↦ rw e (stmt, refl, as_is (inl e))
    ]

    Limits-IsSafe : (stmt stmt' : Node) → Limits stmt stmt' → IsSafe stmt → IsSafe stmt'
    Limits-IsSafe stmt _ (as_is why) s = s
    Limits-IsSafe stmt _ (injected k e) s = limit-IsSafe k stmt e s

    guard_one-ok :
        (stmts : List Node) (out : String)
        → guard_one glot cfg stmts ≡ ok out
        → (stmt : Node) × (stmts ≡ stmt ∷ []) × (guard_statement glot cfg stmt ≡ ok out)
    unfolding guard_one
    guard_one-ok (stmt ∷ []) out h = (stmt, refl, h)
    guard_one-ok [] out h = cc
    guard_one-ok (a ∷ b ∷ stmts) out h = cc

    guard_parsed-ok :
        (parsed : Option (List (Option Node))) (out : String)
        → guard_parsed glot cfg parsed ≡ ok out
        → (statements : List (Option Node)) × (parsed ≡ some statements)
          × ((stmt : Node) × (present statements ≡ stmt ∷ [])
              × (guard_statement glot cfg stmt ≡ ok out))
    unfolding guard_parsed
    guard_parsed-ok none out h = cc
    guard_parsed-ok (some statements) out h =
        (statements, refl, guard_one-ok (present statements) out h)

    -- The statement that the SQL returned by the guard is, and the one that it was.
    record IsAccepted (out : String) : Type 0 where
      before : Node
      after : Node
      safe : IsSafe before
      limits : Limits before after
      printed : glot.sql after ≡ out
      settled : row_limit glot cfg before ≡ ok after

    guard_statement-IsAccepted :
        (stmt : Node) (out : String)
        → guard_statement glot cfg stmt ≡ ok out
        → (a : IsAccepted out) × (stmt ≡ a.before)
    unfolding guard_statement
    guard_statement-IsAccepted stmt out h =
        let (q, h1) = require_passed (is_query (glot.class_of stmt)) guard_error _ h in
        let (w, h2) =
          require_passed (not (any (λ n. is_write (glot.class_of n)) (glot.walk stmt))) guard_error
            _ h1 in
        let (f, h3) =
          require_passed
            (not (any (λ n. foreign_table cfg.allowed_schemas (glot.class_of n)) (glot.walk stmt)))
            guard_error _ h2 in
        let (stmt', e, l) = row_limit-Limits stmt in
        (
          record {
            before = stmt;
            after = stmt';
            safe = record { query = q; reads = not-true _ w; schemas = not-true _ f };
            limits = l;
            printed = ok-injective (rw e at h3);
            settled = e;
          },
          refl,
        )

    -- What a text that was parsed as one statement is read back as.
    Limits-parses :
        (text : String) (statements : List (Option Node)) (stmt stmt' : Node)
        → Limits stmt stmt'
        → glot.parse text ≡ some statements
        → present statements ≡ stmt ∷ []
        → is_query (glot.class_of stmt) ≡ true
        → glot.parse (glot.sql stmt') ≡ some (some stmt' ∷ [])
    Limits-parses text statements stmt _ (as_is why) t one q =
        glot.parse-sql text statements stmt t one q
    Limits-parses text statements stmt _ (injected k e) t one q =
        glot.parse-sql-limit text statements stmt k t one e

    IsAccepted-parses :
        (sql out : String)
        → guard glot cfg sql ≡ ok out
        → (a : IsAccepted out) × (glot.parse out ≡ some (some a.after ∷ []))
    unfolding guard
    IsAccepted-parses sql out h =
        let (statements, t, parsed) = guard_parsed-ok (glot.parse sql) out h in
        let (stmt, one, e) = parsed in
        let (a, same) = guard_statement-IsAccepted stmt out e in
        (
          a,
          ap glot.parse (sym a.printed)
              ∙ Limits-parses sql statements a.before a.after a.limits t
                  (one ∙ ap (λ n. n ∷ []) same) a.safe.query,
        )

    -- Whatever SQL comes in, the SQL that the guard returns parses to one statement, which is a query,
    -- writes nothing anywhere in its tree, and reads only tables that are qualified with an allowed
    -- schema.
    pub guard-IsSafe :
        (sql out : String)
        → guard glot cfg sql ≡ ok out
        → (stmt : Node) × (glot.parse out ≡ some (some stmt ∷ [])) × IsSafe stmt
    guard-IsSafe sql out h =
        let (a, parses) = IsAccepted-parses sql out h in
        (a.after, parses, Limits-IsSafe a.before a.after a.limits a.safe)

    Limits-limit_of :
        (stmt stmt' : Node)
        → Limits stmt stmt'
        → unlimited cfg.default_row_limit ≡ false
        → (is_select (glot.class_of stmt') ≡ false)
          ⊎ ((l : LimitExpression) × (glot.limit_of stmt' ≡ some l))
    Limits-limit_of stmt _ (as_is (inl e)) d = inl e
    Limits-limit_of stmt _ (as_is (inr (inl l))) d = inr l
    Limits-limit_of stmt _ (as_is (inr (inr u))) d = cc
    Limits-limit_of stmt _ (injected k e) d = inr (glot.limit_of-limit k stmt e)

    -- Unless the default limit is negative or missing, every SELECT that the guard returns has a LIMIT.
    pub guard-limit_of :
        (sql out : String)
        → unlimited cfg.default_row_limit ≡ false
        → guard glot cfg sql ≡ ok out
        → (stmt : Node) × (glot.parse out ≡ some (some stmt ∷ []))
          × ((is_select (glot.class_of stmt) ≡ false)
              ⊎ ((l : LimitExpression) × (glot.limit_of stmt ≡ some l)))
    guard-limit_of sql out d h =
        let (a, parses) = IsAccepted-parses sql out h in
        (a.after, parses, Limits-limit_of a.before a.after a.limits d)

    row_limit-settled :
        (stmt stmt' : Node)
        → Limits stmt stmt'
        → row_limit glot cfg stmt ≡ ok stmt'
        → row_limit glot cfg stmt' ≡ ok stmt'
    unfolding row_limit limited
    row_limit-settled stmt _ (as_is why) e = e
    row_limit-settled stmt _ (injected k is) e =
        elim (Bool-cases (is_select (glot.class_of (glot.limit k stmt)))) [
          | inl s ↦
              let (l, limits) = glot.limit_of-limit k stmt is in
              rw (s, limits, check_limit-ok cfg.max_row_limit l) refl
          | inr s ↦ rw s refl
        ]

    -- The guard is idempotent: it returns its own output as it is.
    pub guard-guard : (sql out : String) → guard glot cfg sql ≡ ok out → guard glot cfg out ≡ ok out
    unfolding guard guard_parsed guard_one guard_statement
    guard-guard sql out h =
        let (a, parses) = IsAccepted-parses sql out h in
        let s = Limits-IsSafe a.before a.after a.limits a.safe in
        rw
          (
            parses,
            s.query,
            s.reads,
            s.schemas,
            row_limit-settled a.before a.after a.limits a.settled,
          )
          (ap (λ x. ok x) a.printed)
