-- ===== src/Common/Dsn.antt =====
-- common/config_store.py: source DSNs, with libpq's parser and the URL quoting as arguments.
use Prim.Native.String.{◌++◌ as append}
use text.Mathlib.Text.{◌==◌ as str_eq, starts_with}
use text.Mathlib.TextPositions.{starts_with-append}
use postgres_s3_warehouse_sy.Prelude.{
  ap, sym, ◌∙◌, inl, inr, Bool-cases, eq_iff, arith, not, ◌≡◌, refl, String, Bool, true, false,
  Option, none, some, if◌then◌else◌, truthy,
}
use postgres_s3_warehouse_sy.Prelude.Int.{ℤ, pos}

pub record DbParts : Type 0 where
  pub db_host : String
  pub db_port : ℤ
  pub db_name : String
  pub db_user : String
  pub db_password : String
  pub db_sslmode : String

-- What `conninfo_to_dict` finds.
pub record Conninfo : Type 0 where
  pub host : Option String
  pub port : Option String
  pub dbname : Option String
  pub user : Option String
  pub password : Option String
  pub sslmode : Option String

abbrev or_text : Option String → String → String
or_text none default = default
or_text (some s) default = if truthy s then s else default

abbrev defaults : DbParts
defaults = record {
  db_host = "";
  db_port = pos 5432;
  db_name = "";
  db_user = "";
  db_password = "";
  db_sslmode = "require";
}

-- `quote`, `str` and `int` of Python (the last with `none` for a ValueError), and psycopg's
-- `conninfo_to_dict` with `none` for its errors.
pub record Libpq : Type 0 where
  pub quote : String → String
  pub int_text : ℤ → String
  pub read_int : String → Option ℤ
  pub conninfo_to_dict : String → Option Conninfo

not-false : (b : Bool) → not b ≡ false → b ≡ true
not-false b e = ground arith

truthy-append : (s : String) → truthy (append "postgresql://" s) ≡ true
truthy-append s = elim (Bool-cases (truthy (append "postgresql://" s))) [
  | inl e ↦ e
  | inr e ↦
      let is_empty = (eq_iff (append "postgresql://" s) "").0 (not-false _ e) in
      let never : starts_with "" "postgresql://" ≡ true =
        ap (λ t. starts_with t "postgresql://") (sym is_empty)
        ∙ starts_with-append "postgresql://" s in
      cc
]

module _ (libpq : Libpq) where
  open libpq use {quote, int_text, read_int, conninfo_to_dict}

  unfoldable pub build_dsn : DbParts → String
  build_dsn p = append "postgresql://" (
      append (quote p.db_user) (
        append ":" (
          append (quote p.db_password) (
            append "@" (
              append p.db_host (
                append ":" (
                  append (int_text p.db_port)
                    (append "/" (append p.db_name (append "?sslmode=" p.db_sslmode))))))))))

  port_of : Option String → Option ℤ
  port_of none = some (pos 5432)
  port_of (some s) = if truthy s then read_int s else some (pos 5432)

  with_port : Conninfo → Option ℤ → DbParts
  with_port d none = defaults
  with_port d (some port) = record {
    db_host = or_text d.host "";
    db_port = port;
    db_name = or_text d.dbname "";
    db_user = or_text d.user "";
    db_password = or_text d.password "";
    db_sslmode = or_text d.sslmode "require";
  }

  parsed : Option Conninfo → DbParts
  unfolding port_of with_port
  parsed none = defaults
  parsed (some d) = with_port d (port_of d.port)

  -- Any error leaves the defaults.
  unfoldable pub parse_dsn : Option String → DbParts
  unfolding parsed
  parse_dsn none = defaults
  parse_dsn (some dsn) = if truthy dsn then parsed (conninfo_to_dict dsn) else defaults

  normalized : DbParts → String → String
  unfolding build_dsn
  normalized p dsn = if truthy p.db_host then build_dsn p else dsn

  pub normalize_dsn : Option String → Option String
  unfolding normalized
  normalize_dsn none = none
  normalize_dsn (some dsn) =
      some (if truthy dsn then normalized (parse_dsn (some dsn)) dsn else dsn)

  -- The law of libpq that `normalize_dsn` relies on, at given parts: the URL that `build_dsn`
  -- writes is read into them.
  pub record IsRead (p : DbParts) : Type 0 where
    pub conninfo : Conninfo
    pub read : conninfo_to_dict (build_dsn p) ≡ some conninfo
    pub host : conninfo.host ≡ some p.db_host
    pub dbname : conninfo.dbname ≡ some p.db_name
    pub user : conninfo.user ≡ some p.db_user
    pub password : conninfo.password ≡ some p.db_password
    pub sslmode : conninfo.sslmode ≡ some p.db_sslmode
    pub port : conninfo.port ≡ some (int_text p.db_port)
    pub read_port : read_int (int_text p.db_port) ≡ some p.db_port

  or_text-some : (s : String) → or_text (some s) "" ≡ s
  or_text-some s = elim (Bool-cases (truthy s)) [
    | inl e ↦ rw e refl
    | inr e ↦ rw e (sym ((eq_iff s "").0 (not-false (str_eq s "") e)))
  ]

  truthy-build_dsn : (p : DbParts) → truthy (build_dsn p) ≡ true
  unfolding build_dsn
  truthy-build_dsn p = truthy-append _

  -- Parts with a port and an SSL mode are read back from their DSN.
  pub parse_dsn-build_dsn :
      (p : DbParts)
      → IsRead p
      → truthy p.db_sslmode ≡ true
      → truthy (int_text p.db_port) ≡ true
      → parse_dsn (some (build_dsn p)) ≡ p
  unfolding parse_dsn parsed port_of with_port
  parse_dsn-build_dsn p r mode port =
      rw
        (
          truthy-build_dsn p,
          r.read,
          r.port,
          port,
          r.read_port,
          r.host,
          r.dbname,
          r.user,
          r.password,
          r.sslmode,
          mode,
          or_text-some p.db_host,
          or_text-some p.db_name,
          or_text-some p.db_user,
          or_text-some p.db_password,
        )
        refl
