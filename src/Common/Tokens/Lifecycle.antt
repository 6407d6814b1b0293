-- ===== src/Common/Tokens/Lifecycle.antt =====
-- A token of common/config_store.py lives from its creation to its revocation.
use text.Mathlib.Text.{◌==◌ as str_eq, starts_with}
use text.Mathlib.TextPositions.{starts_with-append}
use postgres_s3_warehouse_sy.Prelude.{
  ◌≡◌, refl, ap, sym, ◌∙◌, String, Bool, true, false, not, Option, none, some, List, [], ◌∷◌, ◌++◌,
  map, any, find?, if◌then◌else◌, truthy, subst, ◌||◌, eq_iff, Bool-cases, inl, inr, count, ◌≤◌,
  All, arith,
}
use postgres_s3_warehouse_sy.Prelude.Int.{ℤ}
use postgres_s3_warehouse_sy.Prelude.Result.{
  ok, constraint_violation, require, >>=-eq-ok, ok-injective,
}
use postgres_s3_warehouse_sy.Prelude.Table.{beq_refl, string_key}
use postgres_s3_warehouse_sy.Common.Users.{clamped}
use postgres_s3_warehouse_sy.Common.Tokens.Changes.{
  Op, Keeps, IsRole, has, live, run, run-keeps, revoked_row-Keeps,
}
use postgres_s3_warehouse_sy.Common.Tokens.{
  TokenRow, TokenInfo, info, revoked_row, revoke_api_token, fresh_token, create_api_token, answers,
  mark_used, verify_api_token,
}
use postgres_s3_warehouse_sy.Common.Tokens.Kept.{
  IsRevoked, Change-IsRevoked, HasUnique, Change-HasUnique, AllRoles, Change-AllRoles,
  any-map-false, any-count, find?-any, has-Keeps, live-Keeps,
}

find?-All :
    (P : TokenRow → Type 0) (p : TokenRow → Bool) (rows : List TokenRow) (r : TokenRow)
    → All P rows
    → find? p rows ≡ some r
    → P r
find?-All P p [] r all found = cc
find?-All P p (x ∷ rows) r all found = elim (Bool-cases (p x)) [
  | inl e ↦ let found' = rw e at found in let is : x ≡ r = cc in subst P is all.0
  | inr e ↦ find?-All P p rows r all.1 (rw e at found)
]

count-live :
    (h : String) (rows : List TokenRow) → count (has h) rows ≡ 0 → any (live h) rows ≡ false
count-live h [] e = refl
count-live h (r ∷ rows) e = ground (arith, count-live h rows)

live-revoked_row : (h : String) (r : TokenRow) → live h (revoked_row r.id r) ≡ false
live-revoked_row h r = ground arith

has-live : (h : String) (r : TokenRow) → live h r ≡ true → has h r ≡ true
has-live h r e = ground arith

-- Revoking the row that a token finds revokes the token.
revoke-IsRevoked :
    (h : String) (rows : List TokenRow) (r : TokenRow)
    → find? (live h) rows ≡ some r
    → count (has h) rows ≤ 1
    → IsRevoked h (map (revoked_row r.id) rows)
revoke-IsRevoked h [] r found once = cc
revoke-IsRevoked h (x ∷ rows) r found once = elim (Bool-cases (live h x)) [
  | inl e ↦
      let found' = rw e at found in
      let is : x ≡ r = cc in
      let rest = no_more x rows once e in
      subst (λ y. IsRevoked h (map (revoked_row y.id) (x ∷ rows))) is
        (record {
          there = rw (has-Keeps _ k h x, has-live h x e) refl;
          all = rw (live-revoked_row h x) (any-map-false (live h) _ rows (live-Keeps _ k h) rest);
        })
  | inr e ↦
      let found' = rw e at found in
      let ih = revoke-IsRevoked h rows r found' (tail_once x rows once) in
      record {
        there = rw ih.there (either (has h (revoked_row r.id x)));
        all = rw (live-Keeps _ (revoked_row-Keeps r.id) h x e) ih.all;
      }
]
  where
    k : Keeps (revoked_row x.id)
    k = revoked_row-Keeps x.id

    either : (a : Bool) → (a || true) ≡ true
    either a = ground arith

    tail_once :
        (x : TokenRow) (rows : List TokenRow)
        → count (has h) (x ∷ rows) ≤ 1
        → count (has h) rows ≤ 1
    tail_once x rows once = ground arith

    no_more :
        (x : TokenRow) (rows : List TokenRow)
        → count (has h) (x ∷ rows) ≤ 1
        → live h x ≡ true
        → any (live h) rows ≡ false
    no_more x rows once e = count-live h rows (ground arith)

find?-append_one :
    (p : TokenRow → Bool) (rows : List TokenRow) (new : TokenRow)
    → any p rows ≡ false
    → find? p (rows ++ (new ∷ [])) ≡ (if p new then some new else none)
find?-append_one p [] new e = refl
find?-append_one p (r ∷ rows) new e = ground (arith, find?-append_one p rows new)

not_live :
    (h : String) (rows : List TokenRow) → any (has h) rows ≡ false → any (live h) rows ≡ false
not_live h rows e = count-live h rows (any-count (has h) rows e)

require-ok_not : (b : Bool) {u : Unit {0}} → require (not b) constraint_violation ≡ ok u → b ≡ false
require-ok_not true h = cc
require-ok_not false h = refl

not-false : (b : Bool) → not b ≡ false → b ≡ true
not-false b e = ground arith

truthy-fresh_token : (random : String) → truthy (fresh_token random) ≡ true
truthy-fresh_token random = elim (Bool-cases (truthy (fresh_token random))) [
  | inl e ↦ e
  | inr e ↦
      let is_empty =
        (eq_iff (fresh_token random) "").0 (not-false (str_eq (fresh_token random) "") e) in
      let starts = starts_with-append "vmt_" random in
      let never : starts_with "" "vmt_" ≡ true =
        ap (λ s. starts_with s "vmt_") (sym is_empty) ∙ starts in
      cc
]

module _ (hash : String → String) where
  -- A token that is accepted is found in its row.
  pub record Accepts (token : String) (rows : List TokenRow) (i : TokenInfo) : Type 0 where
    pub row : TokenRow
    pub found : find? (answers hash token) rows ≡ some row
    pub as_info : info row ≡ i

  marked-Accepts :
      (now : ℤ) (token : String) (rows : List TokenRow) (i : TokenInfo) (o : Option TokenRow)
      → find? (answers hash token) rows ≡ o
      → (mark_used hash now rows o).1 ≡ some i
      → Accepts token rows i
  unfolding mark_used
  marked-Accepts now token rows i none e h = cc
  marked-Accepts now token rows i (some r) e h = record { row = r; found = e; as_info = cc }

  verify-Accepts :
      (now : ℤ) (token : String) (rows : List TokenRow) (i : TokenInfo)
      → (verify_api_token hash now token rows).1 ≡ some i
      → Accepts token rows i
  unfolding verify_api_token
  verify-Accepts now token rows i h = elim (Bool-cases (truthy token)) [
    | inl e ↦ marked-Accepts now token rows i _ refl (rw e at h)
    | inr e ↦ let h' = rw e at h in cc
  ]

  verify-IsRevoked :
      (now : ℤ) (token : String) (rows : List TokenRow)
      → IsRevoked (hash token) rows
      → (verify_api_token hash now token rows).1 ≡ none
  unfolding verify_api_token mark_used
  verify-IsRevoked now token rows r =
      rw (find?-any (answers hash token) rows r.all)
        (elim (Bool-cases (truthy token)) [ inl e ↦ rw e refl | inr e ↦ rw e refl ])

  -- Whatever was done to the table before, a token that is accepted as row `i.id` is rejected for
  -- ever once `i.id` is revoked, whatever is done after it: no later creation, use or revocation
  -- makes it valid again.
  pub verify_api_token-revoke_api_token :
      (before later : List Op) (now now' : ℤ) (token : String) (i : TokenInfo)
      → (verify_api_token hash now token (run hash before [])).1 ≡ some i
      → (verify_api_token hash now' token
          (run hash later (revoke_api_token i.id (run hash before [])))).1
        ≡ none
  unfolding revoke_api_token
  verify_api_token-revoke_api_token before later now now' token i h =
      let rows = run hash before [] in
      let a = verify-Accepts now token rows i h in
      let once =
        run-keeps hash HasUnique Change-HasUnique before [] (λ x. omega arith) (hash token) in
      let revoked = revoke-IsRevoked (hash token) rows a.row a.found once in
      let same_id = ap (λ x. x.id) a.as_info in
      verify-IsRevoked now' token _ (
        run-keeps hash (IsRevoked (hash token)) (Change-IsRevoked (hash token)) later _
          (subst (λ n. IsRevoked (hash token) (map (revoked_row n) rows)) same_id revoked))

  -- A principal from the table of tokens is an admin or a viewer, whatever roles were asked for.
  pub verify_api_token-IsRole :
      (ops : List Op) (now : ℤ) (token : String) (i : TokenInfo)
      → (verify_api_token hash now token (run hash ops [])).1 ≡ some i
      → IsRole i.role
  verify_api_token-IsRole ops now token i h =
      let a = verify-Accepts now token (run hash ops []) i h in
      let all = run-keeps hash AllRoles Change-AllRoles ops [] tt in
      subst (λ x. IsRole x.role) a.as_info
        (find?-All (λ r. IsRole r.role) (answers hash token) (run hash ops []) a.row all a.found)

  -- A token that was just created is accepted, with the row's id, the e-mail and the connection it
  -- was created for, and the role "admin" only if that was asked for; it does not depend on what
  -- the table held, as long as the creation succeeded.
  pub verify_api_token-create_api_token :
      (rows rows' : List TokenRow) (new_id now : ℤ) (random name email role token : String)
      (connection_id : ℤ)
      → create_api_token hash new_id random name email connection_id role rows ≡ ok (rows', token)
      → (verify_api_token hash now token rows').1
        ≡ some (record {
          id = new_id;
          email = email;
          connection_id = connection_id;
          role = clamped role;
        })
  unfolding verify_api_token create_api_token mark_used
  verify_api_token-create_api_token rows rows' new_id now random name email role token c h =
      let (u, allowed, last) = >>=-eq-ok (require _ constraint_violation) _ h in
      let free = require-ok_not (any (has (hash (fresh_token random))) rows) allowed in
      subst
        (λ x.
          (verify_api_token hash now x.1 x.0).1
          ≡ some (record { id = new_id; email = email; connection_id = c; role = clamped role }))
        (ok-injective last)
        (rw
          (
            truthy-fresh_token random,
            find?-append_one (live (hash (fresh_token random))) rows _ (not_live _ rows free),
            beq_refl (hash (fresh_token random)),
          )
          refl)
