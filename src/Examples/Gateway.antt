-- ===== src/Examples/Gateway.antt =====
-- Requests, pools and query jobs at concrete inputs.
use postgres_s3_warehouse_sy.Prelude.{
  ℕ, suc, ◌+◌, ◌≡◌, refl, String, false, Option, none, some, List, [], ◌∷◌, ◌++◌, count, length,
  ltb, ◌==◌, if◌then◌else◌,
}
use postgres_s3_warehouse_sy.Prelude.Int.{pos}
use postgres_s3_warehouse_sy.Prelude.Result.{Result, ok, err, external}
use postgres_s3_warehouse_sy.Gateway.Auth.{
  Principal, ApiToken, Claims, AuthSettings, Jose, current_principal, verify_jwt,
}
use postgres_s3_warehouse_sy.Gateway.Auth.Origins.{Comes, current_principal-Comes}
use postgres_s3_warehouse_sy.Gateway.Pool.{Reaches, started, next, enter, init, for_each}
use postgres_s3_warehouse_sy.Gateway.Pool.Leases.{Reaches-once, for_each-leased}
use postgres_s3_warehouse_sy.Gateway.Query.{RunSteps, submit, run}
use postgres_s3_warehouse_sy.Gateway.Query.Ends.{Ended, run-Ended}

abbrev claims : Claims
claims = record { sub = some "eve"; roles = "admin" ∷ [] }

-- A library that reads any token, with keys that have no id.
abbrev jose : Jose
jose = record {
  Jwk = ℕ;
  kid = λ k. none;
  unverified_claims = λ token. some claims;
  unverified_kid = λ token. some none;
  decode = λ token key. some claims;
}

abbrev jwks : Result (List ℕ)
jwks = ok (7 ∷ [])

abbrev no_token : String → Option ApiToken
no_token creds = none

abbrev verified : AuthSettings
verified = record {
  jwks_url = "https://idp/jwks";
  jwt_issuer = "https://idp";
  microsoft_login = false;
}

abbrev eve : Principal
eve = record { sub = "eve"; roles = "admin" ∷ []; email = ""; connection_id = none }

current_principal-Comes_example : Comes jose jwks no_token none (some "token") eve
unfolding current_principal verify_jwt
current_principal-Comes_example =
    current_principal-Comes jose jwks no_token verified none (some "token") eve refl refl

-- A pool of two connections of which one is leased.
one_leased : Reaches 2 (record { available = 1 ∷ []; leased = 0 ∷ [] })
unfolding init
one_leased = next started (enter 0 (1 ∷ []) [])

Reaches-once_example :
    count (λ j. j == 0) (1 ∷ []) + count (λ j. j == 0) (0 ∷ []) ≡ (if ltb 0 2 then 1 else 0)
Reaches-once_example = Reaches-once 2 (record { available = 1 ∷ []; leased = 0 ∷ [] }) 0 one_leased

abbrev idle : List ℕ
idle = 0 ∷ 1 ∷ 2 ∷ []

abbrev free : List ℕ
free = 2 ∷ []

for_each-leased_example :
    for_each (suc (length (1 ∷ free))) (1 ∷ free) ≡ ok ((1 ∷ free) ++ (1 ∷ []), free ++ (1 ∷ []))
for_each-leased_example = for_each-leased 1 free

abbrev steps : RunSteps
steps = record {
  prepare = ok tt;
  copy = ok tt;
  upload = ok "s3://lake/results/job.parquet";
  read_rows = err external;
  read_size = ok (pos 4);
  ended = pos 12;
}

run-Ended_example : Ended steps (run steps (submit "job" (pos 10) "SELECT 1" "eve"))
run-Ended_example = run-Ended steps "job" "SELECT 1" "eve" (pos 10)
