-- ===== src/State/Time.antt =====
-- The values of a watermark column: Python's datetime, date and int, and how they compare.
-- Times and offsets are in microseconds, dates in days since 1970-01-01.
use postgres_s3_warehouse_sy.Prelude.{
  Bool, true, false, Option, none, some, ◌≡◌, refl, arith, if◌then◌else◌,
}
use postgres_s3_warehouse_sy.Prelude.Int.{ℤ, ◌-ℤ◌, eqb_ℤ, leb_ℤ}
use postgres_s3_warehouse_sy.Prelude.Result.{Result, ok, err, type_error}

-- `clock` is the wall clock; `offset` the distance from UTC of an aware datetime.
pub record Datetime : Type 0 where
  pub clock : ℤ
  pub offset : Option ℤ

pub data Kind : Type 0 where
  timestamp_tz timestamp_naive date integer : Kind

pub data Value : Type 0 where
  moment : Datetime → Value
  day : ℤ → Value
  number : ℤ → Value

-- The instant of an aware datetime, the wall clock of a naive one.
abbrev pub instant : Datetime → ℤ
instant d = elim d.offset [ none ↦ d.clock | some o ↦ d.clock -ℤ o ]

abbrev pub is_aware : Datetime → Bool
is_aware d = elim d.offset [ none ↦ false | some o ↦ true ]

abbrev same_awareness : Bool → Bool → Bool
same_awareness true b = b
same_awareness false true = false
same_awareness false false = true

-- `a == b`: values of different sorts are unequal.
pub value_eq : Value → Value → Bool
value_eq (moment a) (moment b) =
    if same_awareness (is_aware a) (is_aware b) then eqb_ℤ (instant a) (instant b) else false
value_eq (day a) (day b) = eqb_ℤ a b
value_eq (number a) (number b) = eqb_ℤ a b
value_eq _ _ = false

-- `a <= b`: values of different sorts raise TypeError.
pub value_le : Value → Value → Result Bool
value_le (moment a) (moment b) =
    if same_awareness (is_aware a) (is_aware b)
    then ok (leb_ℤ (instant a) (instant b))
    else err type_error
value_le (day a) (day b) = ok (leb_ℤ a b)
value_le (number a) (number b) = ok (leb_ℤ a b)
value_le _ _ = err type_error

-- `(a, i) <= (b, j)` on tuples: the first place where they differ decides.
unfoldable pub tuple_le : Value → ℤ → Value → ℤ → Result Bool
unfolding value_eq value_le
tuple_le a i b j = if value_eq a b then ok (leb_ℤ i j) else value_le a b

-- The place of a value in the order of its kind.
abbrev pub rank : Value → ℤ
rank (moment d) = instant d
rank (day d) = d
rank (number n) = n

-- The lexicographic order of (rank, id).
abbrev pub lex_le : ℤ → ℤ → ℤ → ℤ → Bool
lex_le a i b j = if eqb_ℤ a b then leb_ℤ i j else leb_ℤ a b

-- The values that a column of the kind holds.
abbrev pub HasKind : Kind → Value → Type 0
HasKind timestamp_tz (moment d) = (o : ℤ) × (d.offset ≡ some o)
HasKind timestamp_naive (moment d) = d.offset ≡ none
HasKind date (day d) = Unit
HasKind integer (number n) = Unit
HasKind _ _ = ⊥

if_ok : (b x y : Bool) → (if b then ok x else ok y) ≡ ok (if b then x else y)
if_ok true x y = refl
if_ok false x y = refl

-- Within a kind the comparison of tuples never raises, and is the order of (rank, id).
pub tuple_le-HasKind :
    (k : Kind) (a : Value) (i : ℤ) (b : Value) (j : ℤ)
    → HasKind k a
    → HasKind k b
    → tuple_le a i b j ≡ ok (lex_le (rank a) i (rank b) j)
unfolding tuple_le
tuple_le-HasKind timestamp_tz (moment a) i (moment b) j (o, ha) (p, hb) = rw (ha, hb) (if_ok _ _ _)
tuple_le-HasKind timestamp_naive (moment a) i (moment b) j ha hb = rw (ha, hb) (if_ok _ _ _)
tuple_le-HasKind date (day a) i (day b) j ha hb = if_ok _ _ _
tuple_le-HasKind integer (number a) i (number b) j ha hb = if_ok _ _ _
tuple_le-HasKind _ _ i _ j ha hb = ground arith

pub value_le-HasKind :
    (k : Kind) (a b : Value)
    → HasKind k a
    → HasKind k b
    → value_le a b ≡ ok (leb_ℤ (rank a) (rank b))
unfolding value_le
value_le-HasKind timestamp_tz (moment a) (moment b) (o, ha) (p, hb) = rw (ha, hb) refl
value_le-HasKind timestamp_naive (moment a) (moment b) ha hb = rw (ha, hb) refl
value_le-HasKind date (day a) (day b) ha hb = refl
value_le-HasKind integer (number a) (number b) ha hb = refl
value_le-HasKind _ _ _ ha hb = ground arith
