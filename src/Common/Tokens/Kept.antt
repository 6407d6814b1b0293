-- ===== src/Common/Tokens/Kept.antt =====
-- What every change of the table of tokens (common/config_store.py) keeps.
use text.Mathlib.Text.{◌==◌ as str_eq}
use postgres_s3_warehouse_sy.Prelude.{
  ◌≡◌, refl, ap, sym, ◌∙◌, String, Bool, true, false, not, ◌&&◌, none, List, [], ◌∷◌, ◌++◌, map,
  any, find?, subst, count-append, All-append, ◌||◌, eq_iff, Bool-cases, inl, inr, count, ◌≤◌, All,
  arith,
}
use postgres_s3_warehouse_sy.Prelude.Table.{string_key}
use postgres_s3_warehouse_sy.Common.Tokens.Changes.{
  Keeps, Change, same, appended, mapped, IsRole, has, live,
}
use postgres_s3_warehouse_sy.Common.Tokens.{TokenRow}

any-append :
    (p : TokenRow → Bool) (xs ys : List TokenRow) → any p (xs ++ ys) ≡ (any p xs || any p ys)
any-append p [] ys = refl
any-append p (x ∷ xs) ys = ground (arith, any-append p xs ys)

any-map :
    (p : TokenRow → Bool) (g : TokenRow → TokenRow) (rows : List TokenRow)
    → ((r : TokenRow) → p (g r) ≡ p r)
    → any p (map g rows) ≡ any p rows
any-map p g [] alike = refl
any-map p g (r ∷ rows) alike = rw (alike r, any-map p g rows alike) refl

count-map_same :
    (p : TokenRow → Bool) (g : TokenRow → TokenRow) (rows : List TokenRow)
    → ((r : TokenRow) → p (g r) ≡ p r)
    → count p (map g rows) ≡ count p rows
count-map_same p g [] alike = refl
count-map_same p g (r ∷ rows) alike = rw (alike r, count-map_same p g rows alike) refl

pub any-map-false :
    (p : TokenRow → Bool) (g : TokenRow → TokenRow) (rows : List TokenRow)
    → ((r : TokenRow) → p r ≡ false → p (g r) ≡ false)
    → any p rows ≡ false
    → any p (map g rows) ≡ false
any-map-false p g [] keeps h = refl
any-map-false p g (r ∷ rows) keeps h = ground (arith, keeps r, any-map-false p g rows keeps)

pub any-count : (p : TokenRow → Bool) (rows : List TokenRow) → any p rows ≡ false → count p rows ≡ 0
any-count p [] h = refl
any-count p (r ∷ rows) h = ground (arith, any-count p rows)

pub find?-any :
    (p : TokenRow → Bool) (rows : List TokenRow) → any p rows ≡ false → find? p rows ≡ none
find?-any p [] h = refl
find?-any p (r ∷ rows) h = ground (arith, find?-any p rows)

-- Some row has the hash, and every row that has it is revoked.
pub record IsRevoked (h : String) (rows : List TokenRow) : Type 0 where
  pub there : any (has h) rows ≡ true
  pub all : any (live h) rows ≡ false

pub has-Keeps :
    (g : TokenRow → TokenRow) (k : Keeps g) (h : String) (r : TokenRow) → has h (g r) ≡ has h r
has-Keeps g k h r = ap (λ x. str_eq x h) (k.hash r)

pub live-Keeps :
    (g : TokenRow → TokenRow) (k : Keeps g) (h : String) (r : TokenRow)
    → live h r ≡ false
    → live h (g r) ≡ false
live-Keeps g k h r dead =
    ap (λ b. b && not (g r).revoked) (has-Keeps g k h r)
    ∙ still (has h r) r.revoked (g r).revoked (k.dead r) dead
  where
    still : (a b c : Bool) → (b ≡ true → c ≡ true) → (a && not b) ≡ false → (a && not c) ≡ false
    still a b c f e = ground (arith, f)

pub Change-IsRevoked :
    (h : String) (rows rows' : List TokenRow)
    → Change rows rows'
    → IsRevoked h rows
    → IsRevoked h rows'
Change-IsRevoked h rows _ same r = r
Change-IsRevoked h rows _ (mapped g k) r = record {
  there = any-map (has h) g rows (has-Keeps g k h) ∙ r.there;
  all = any-map-false (live h) g rows (live-Keeps g k h) r.all;
}
Change-IsRevoked h rows _ (appended new free role) r = record {
  there = any-append (has h) rows (new ∷ []) ∙ rw r.there refl;
  all = any-append (live h) rows (new ∷ []) ∙ rw (r.all, other) refl;
}
  where
    other : has h new ≡ false
    other = elim (Bool-cases (has h new)) [
      | inl e ↦
          let eq = (eq_iff new.token_hash h).0 e in
          let there = ap (λ x. any (has x) rows) eq ∙ r.there in cc
      | inr ne ↦ ne
    ]

-- No two rows have one hash.
abbrev pub HasUnique : List TokenRow → Type 0
HasUnique rows = (h : String) → count (has h) rows ≤ 1

pub Change-HasUnique :
    (rows rows' : List TokenRow) → Change rows rows' → HasUnique rows → HasUnique rows'
Change-HasUnique rows _ same u = u
Change-HasUnique rows _ (mapped g k) u =
    λ h. rw (count-map_same (has h) g rows (has-Keeps g k h)) (u h)
Change-HasUnique rows _ (appended new free role) u = λ h.
    rw (count-append (has h) rows (new ∷ [])) (elim (Bool-cases (has h new)) [
      | inl e ↦
          let none_had =
            any-count (has h) rows
              (ap (λ x. any (has x) rows) (sym ((eq_iff new.token_hash h).0 e)) ∙ free) in
          rw (e, none_had) (omega arith)
      | inr e ↦ let before = u h in rw e (omega arith)
    ])

abbrev pub AllRoles : List TokenRow → Type 0
AllRoles rows = All (λ r. IsRole r.role) rows

pub Change-AllRoles :
    (rows rows' : List TokenRow) → Change rows rows' → AllRoles rows → AllRoles rows'
Change-AllRoles rows _ same a = a
Change-AllRoles rows _ (mapped g k) a = All-map g k rows a
  where
    All-map :
        (g : TokenRow → TokenRow) (k : Keeps g) (rows : List TokenRow)
        → All (λ r. IsRole r.role) rows
        → All (λ r. IsRole r.role) (map g rows)
    All-map g k [] a = tt
    All-map g k (r ∷ rows) a = (subst IsRole (sym (k.role r)) a.0, All-map g k rows a.1)
Change-AllRoles rows _ (appended new free role) a =
    All-append (λ r. IsRole r.role) rows (new ∷ []) a (role, tt)
