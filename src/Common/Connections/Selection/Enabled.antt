-- ===== src/Common/Connections/Selection/Enabled.antt =====
-- Which objects of a connection are enabled.
use text.Mathlib.Text.{◌==◌ as str_eq}
use postgres_s3_warehouse_sy.Prelude.{
  ◌≡◌, refl, ap, sym, ◌∙◌, String, Bool, true, false, not, ◌&&◌, ◌||◌, Option, none, some, List, [],
  ◌∷◌, ◌++◌, map, any, filter, arith, Bool-cases, inl, inr, append_assoc, append-nil, if◌then◌else◌,
}
use postgres_s3_warehouse_sy.Prelude.Int.{ℤ, eqb_ℤ, eqb_ℤ_iff}
use postgres_s3_warehouse_sy.Prelude.Result.{
  ok, constraint_violation, require, >>=-eq-ok, ok-injective,
}
use postgres_s3_warehouse_sy.Common.Connections.{SelectionItem, SelectionRow}
use postgres_s3_warehouse_sy.Common.Connections.Selection.{
  or_true, selection_row, of_connection, same_key, insert_row, insert_items, without,
  replace_selection, before, insert_sorted, order_by, get_selection, fqn_text, enabled_names,
  enabled_fqns,
}

insert_row-ok :
    (connected : Bool) (r : SelectionRow) (rows rows' : List SelectionRow)
    → insert_row connected r rows ≡ ok rows'
    → rows' ≡ rows ++ (r ∷ [])
unfolding insert_row
insert_row-ok connected r rows rows' h =
    let (u, e, rest) = >>=-eq-ok (require connected constraint_violation) _ h in
    let (u', e', last) =
      >>=-eq-ok (require (not (any (same_key r) rows)) constraint_violation) _ rest in
    sym (ok-injective last)

-- What is left after the items are inserted: the rows of before, then the items.
insert_items-ok :
    (connected : Bool) (c : ℤ) (items : List SelectionItem) (rows rows' : List SelectionRow)
    → insert_items connected c items rows ≡ ok rows'
    → rows' ≡ rows ++ map (selection_row c) items
unfolding insert_items
insert_items-ok connected c [] rows rows' h = sym (ok-injective h) ∙ sym (append-nil rows)
insert_items-ok connected c (it ∷ items) rows rows' h =
    let (next, inserted, rest) =
      >>=-eq-ok (insert_row connected (selection_row c it) rows) (insert_items connected c items)
        h in
    insert_items-ok connected c items next rows' rest
    ∙ ap (λ l. l ++ map (selection_row c) items)
        (insert_row-ok connected (selection_row c it) rows next inserted)
    ∙ append_assoc rows (selection_row c it ∷ []) (map (selection_row c) items)

any_ext : {A : Type 0} (p q : A → Bool) (xs : List A) → ((x : A) → p x ≡ q x) → any p xs ≡ any q xs
any_ext p q [] h = refl
any_ext p q (x ∷ xs) h = ground (arith, h x, any_ext p q xs h)

any-append :
    {A : Type 0} (p : A → Bool) (xs ys : List A) → any p (xs ++ ys) ≡ (any p xs || any p ys)
any-append p [] ys = refl
any-append p (x ∷ xs) ys = ground (arith, any-append p xs ys)

any-map :
    {A B : Type 0} (p : B → Bool) (f : A → B) (xs : List A)
    → any p (map f xs) ≡ any (λ x. p (f x)) xs
any-map p f [] = refl
any-map p f (x ∷ xs) = ground (arith, any-map p f xs)

any-filter :
    {A : Type 0} (p q : A → Bool) (xs : List A) → any p (filter q xs) ≡ any (λ x. q x && p x) xs
any-filter p q [] = refl
any-filter p q (x ∷ xs) = ground (arith, any-filter p q xs)

any-insert_sorted :
    (le : String → String → Bool) (p : SelectionRow → Bool) (r : SelectionRow)
    (rows : List SelectionRow)
    → any p (insert_sorted le r rows) ≡ (p r || any p rows)
unfolding insert_sorted
any-insert_sorted le p r [] = refl
any-insert_sorted le p r (x ∷ rows) = elim (Bool-cases (before le r x)) [
  | inl e ↦ rw e refl
  | inr e ↦ rw e (ground (arith, any-insert_sorted le p r rows))
]

any-order_by :
    (le : String → String → Bool) (p : SelectionRow → Bool) (rows : List SelectionRow)
    → any p (order_by le rows) ≡ any p rows
unfolding order_by
any-order_by le p [] = refl
any-order_by le p (r ∷ rows) =
    any-insert_sorted le p r (order_by le rows) ∙ ap (λ b. p r || b) (any-order_by le p rows)

not_both : (x c d : ℤ) → eqb_ℤ x c ≡ true → eqb_ℤ c d ≡ false → eqb_ℤ x d ≡ false
not_both x c d e ne = ground arith

-- A selected object: a row of the connection, and an enabled one with the name.
abbrev pub is_enabled : ℤ → String → SelectionRow → Bool
is_enabled c fqn r = of_connection c r && (r.enabled && str_eq (fqn_text r.schema r.name) fqn)

-- The enabled objects of a connection as a set, or none where it has no rows.
abbrev pub enabled_set : ℤ → List SelectionRow → Option (String → Bool)
enabled_set c rows =
    if any (of_connection c) rows then some (λ fqn. any (is_enabled c fqn) rows) else none

names_by_any :
    (rows : List SelectionRow)
    → enabled_names rows ≡ (
        if any (λ r. true) rows
        then some (λ fqn. any (λ r. r.enabled && str_eq (fqn_text r.schema r.name) fqn) rows)
        else none)
unfolding enabled_names
names_by_any [] = refl
names_by_any (r ∷ rows) = λ i.
    some
      (λ fqn. any-filter (λ x. str_eq (fqn_text x.schema x.name) fqn) (λ x. x.enabled) (r ∷ rows) i)

and_true : (a : Bool) → (a && true) ≡ a
and_true a = ground arith

-- The order of the rows does not matter to `enabled_fqns`.
pub enabled_fqns-enabled_set :
    (le : String → String → Bool) (c : ℤ) (rows : List SelectionRow)
    → enabled_fqns le c rows ≡ enabled_set c rows
unfolding enabled_fqns get_selection
enabled_fqns-enabled_set le c rows =
    let own = filter (of_connection c) rows in
    let some_row =
      any-order_by le (λ r. true) own
      ∙ any-filter (λ r. true) (of_connection c) rows
      ∙ any_ext _ (of_connection c) rows (λ r. and_true (of_connection c r)) in
    let named : (fqn : String)
        → any (λ r. r.enabled && str_eq (fqn_text r.schema r.name) fqn) (order_by le own)
          ≡ any (is_enabled c fqn) rows =
      λ fqn.
        any-order_by le (λ r. r.enabled && str_eq (fqn_text r.schema r.name) fqn) own
        ∙ any-filter (λ r. r.enabled && str_eq (fqn_text r.schema r.name) fqn) (of_connection c)
            rows in
    names_by_any (order_by le own) ∙ (λ i. if some_row i then some (λ fqn. named fqn i) else none)

any_of_others :
    (c : ℤ) (p : SelectionRow → Bool) (rows : List SelectionRow)
    → any (λ r. of_connection c r && p r) (without c rows) ≡ false
any_of_others c p rows =
    any-filter (λ r. of_connection c r && p r) (λ r. not (of_connection c r)) rows
    ∙ any_ext _ (λ r. false) rows (λ r. both (of_connection c r) (p r))
    ∙ never rows
  where
    both : (a b : Bool) → (not a && (a && b)) ≡ false
    both a b = ground arith

    never : (xs : List SelectionRow) → any (λ r. false) xs ≡ false
    never [] = refl
    never (x ∷ xs) = never xs

-- After a replacement the connection's rows are the items'.
any_own :
    (c : ℤ) (p : SelectionRow → Bool) (items : List SelectionItem) (rows : List SelectionRow)
    → any (λ r. of_connection c r && p r) (without c rows ++ map (selection_row c) items)
      ≡ any (λ it. p (selection_row c it)) items
any_own c p items rows =
    any-append (λ r. of_connection c r && p r) (without c rows) (map (selection_row c) items)
    ∙ ap (λ b. b || any (λ r. of_connection c r && p r) (map (selection_row c) items))
        (any_of_others c p rows)
    ∙ any-map (λ r. of_connection c r && p r) (selection_row c) items
    ∙ any_ext _ (λ it. p (selection_row c it)) items
        (λ it. ap (λ b. b && p (selection_row c it)) ((eqb_ℤ_iff c c).1 refl))

any_other :
    (c d : ℤ) (p : SelectionRow → Bool) (items : List SelectionItem) (rows : List SelectionRow)
    → eqb_ℤ c d ≡ false
    → any (λ r. of_connection d r && p r) (without c rows ++ map (selection_row c) items)
      ≡ any (λ r. of_connection d r && p r) rows
any_other c d p items rows ne =
    any-append (λ r. of_connection d r && p r) (without c rows) (map (selection_row c) items)
    ∙ ap (λ b. any (λ r. of_connection d r && p r) (without c rows) || b)
        (any-map (λ r. of_connection d r && p r) (selection_row c) items
          ∙ any_ext _ (λ it. false) items (λ it. ap (λ b. b && p (selection_row c it)) ne)
          ∙ never items)
    ∙ or_false (any (λ r. of_connection d r && p r) (without c rows))
    ∙ any-filter (λ r. of_connection d r && p r) (λ r. not (of_connection c r)) rows
    ∙ any_ext _ (λ r. of_connection d r && p r) rows (λ r. apart r.connection_id (p r))
  where
    never : (xs : List SelectionItem) → any (λ it. false) xs ≡ false
    never [] = refl
    never (x ∷ xs) = never xs

    or_false : (a : Bool) → (a || false) ≡ a
    or_false a = ground arith

    apart : (x : ℤ) (b : Bool) → (not (eqb_ℤ x c) && (eqb_ℤ x d && b)) ≡ (eqb_ℤ x d && b)
    apart x b = elim (Bool-cases (eqb_ℤ x d)) [
      | inl e ↦ elim (Bool-cases (eqb_ℤ x c)) [
        | inl f ↦ let g = not_both x c d f ne in cc
        | inr f ↦ rw f refl
      ]
      | inr e ↦ rw e (ground arith)
    ]

-- The names of the enabled items, where there are items; an item is enabled unless it says otherwise.
abbrev pub enabled_items : List SelectionItem → Option (String → Bool)
enabled_items [] = none
enabled_items (it ∷ items) =
    some (λ fqn. any (λ x. or_true x.enabled && str_eq (fqn_text x.schema x.name) fqn) (it ∷ items))

items_by_any :
    (items : List SelectionItem)
    → (if any (λ it. true) items
        then some
            (λ fqn. any (λ x. or_true x.enabled && str_eq (fqn_text x.schema x.name) fqn) items)
        else none)
      ≡ enabled_items items
items_by_any [] = refl
items_by_any (it ∷ items) = refl

-- A selection that is replaced without an error consists of the items: whatever order the database
-- sorts by, `enabled_fqns` gives the set of the names of the enabled items, or none where there are
-- no items. The sets of the other connections stay.
pub replace_selection-enabled_fqns :
    (le : String → String → Bool) (connected : Bool) (c d : ℤ) (items : List SelectionItem)
    (rows rows' : List SelectionRow)
    → replace_selection connected c items rows ≡ ok rows'
    → eqb_ℤ c d ≡ false
    → (enabled_fqns le c rows' ≡ enabled_items items)
      × (enabled_fqns le d rows' ≡ enabled_fqns le d rows)
unfolding replace_selection
replace_selection-enabled_fqns le connected c d items rows rows' h ne =
    let left = insert_items-ok connected c items (without c rows) rows' h in
    let all = without c rows ++ map (selection_row c) items in
    (
      enabled_fqns-enabled_set le c rows'
          ∙ ap (enabled_set c) left
          ∙ (λ i.
              if own_rows i
              then some (λ fqn.
                any_own c (λ r. r.enabled && str_eq (fqn_text r.schema r.name) fqn) items rows i)
              else none)
          ∙ items_by_any items,
      enabled_fqns-enabled_set le d rows'
          ∙ ap (enabled_set d) left
          ∙ (λ i.
              if other_rows i
              then some (λ fqn.
                any_other c d (λ r. r.enabled && str_eq (fqn_text r.schema r.name) fqn) items rows
                  ne i)
              else none)
          ∙ sym (enabled_fqns-enabled_set le d rows),
    )
  where
    own_rows :
        any (of_connection c) (without c rows ++ map (selection_row c) items)
        ≡ any (λ it. true) items
    own_rows =
        any_ext (of_connection c) _ _ (λ r. sym (and_true (of_connection c r)))
        ∙ any_own c (λ r. true) items rows

    other_rows :
        any (of_connection d) (without c rows ++ map (selection_row c) items)
        ≡ any (of_connection d) rows
    other_rows =
        any_ext (of_connection d) _ _ (λ r. sym (and_true (of_connection d r)))
        ∙ any_other c d (λ r. true) items rows ne
        ∙ any_ext _ (of_connection d) rows (λ r. and_true (of_connection d r))
