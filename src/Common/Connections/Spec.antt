-- ===== src/Common/Connections/Spec.antt =====
-- What the store of common/config_store.py promises: a list of connections with plain secrets,
-- and the selections, with no cache, no clock and no cipher.
use text.Mathlib.Text.{◌==◌ as str_eq}
use postgres_s3_warehouse_sy.Prelude.{
  String, Bool, not, ◌&&◌, Option, none, some, List, [], ◌∷◌, ◌++◌, map, any, filter, find?,
  if◌then◌else◌,
}
use postgres_s3_warehouse_sy.Prelude.Int.{ℤ, eqb_ℤ}
use postgres_s3_warehouse_sy.Prelude.Result.{Result, ok, constraint_violation, ◌>>=◌, require}
use postgres_s3_warehouse_sy.Common.Connections.{
  Options, Secrets, Connection, SelectionRow, same_name, given,
}

pub record Plain : Type 0 where
  pub conns : List Connection
  pub selection : List SelectionRow

abbrev pub listed : Bool → Plain → List Connection
listed enabled_only p = if enabled_only then filter (λ c. c.options.enabled) p.conns else p.conns

abbrev pub by_id : ℤ → Plain → Option Connection
by_id connection_id p = find? (λ c. eqb_ℤ c.id connection_id) p.conns

abbrev pub by_name : String → Plain → Option Connection
by_name name p = find? (λ c. str_eq c.options.name name) p.conns

abbrev pub or_old : Option String → Option String → Option String
or_old none old = old
or_old (some new) old = some new

-- An update keeps every secret that it is not given.
abbrev pub or_old_secrets : Secrets → Secrets → Secrets
or_old_secrets new old = record {
  source_dsn = or_old new.source_dsn old.source_dsn;
  aws_access_key = or_old new.aws_access_key old.aws_access_key;
  aws_secret_key = or_old new.aws_secret_key old.aws_secret_key;
}

abbrev pub updated : ℤ → Options → Secrets → Connection → Connection
updated connection_id options secrets c =
    if eqb_ℤ c.id connection_id
    then record c { options = options; secrets = or_old_secrets secrets c.secrets }
    else c

abbrev pub taken : Option ℤ → Options → List Connection → Bool
taken none options conns = any (λ c. same_name c.options options) conns
taken (some connection_id) options conns =
    any (λ c. eqb_ℤ c.id connection_id) conns
    && any (λ c. not (eqb_ℤ c.id connection_id) && same_name c.options options) conns

abbrev pub upserted : ℤ → Option ℤ → Options → Secrets → Plain → Result (Plain × ℤ)
upserted new_id none options secrets p = do
  _ ← require (given secrets.source_dsn) constraint_violation
  _ ← require (not (taken none options p.conns)) constraint_violation
  ok (
    record p {
      conns = p.conns ++ (record { id = new_id; options = options; secrets = secrets } ∷ []);
    },
    new_id,
  )
upserted new_id (some connection_id) options secrets p = do
  _ ← require (not (taken (some connection_id) options p.conns)) constraint_violation
  ok (record p { conns = map (updated connection_id options secrets) p.conns }, connection_id)

abbrev pub deleted : ℤ → Plain → Plain
deleted connection_id p = record {
  conns = filter (λ c. not (eqb_ℤ c.id connection_id)) p.conns;
  selection = filter (λ r. not (eqb_ℤ r.connection_id connection_id)) p.selection;
}
