-- ===== src/Prelude/Table.antt =====
-- Rows of a database table with a primary key, as a list of records.
use mathlib.Core.Logic.{inl, inr}
use alice_skilltech_tools.Prelude.Tests.{Bool-cases, if◌then◌else◌, ◌==◌}
use alice_skilltech_tools.Prelude.Lists.{filter}
use Prim.Native.Nat.{ℕ}
use mathlib.Core.Path.{◌≡◌, refl, sym, subst}
use mathlib.Core.Bool.{Bool, true, false}
use mathlib.Core.Option
use mathlib.Core.Option.{Option, none, some}
use mathlib.Core.List.{List, [], ◌∷◌, ◌++◌}
use native.Mathlib.Omega.{arith}

pub record HasKey (A : Type 0) : Type 0 where
  pub key : A → ℕ

module _ {A : Type 0} ⦃k : HasKey A⦄ where
  -- session.get(Model, id): the row with that primary key.
  unfoldable pub get : ℕ → List A → Option A
  get id [] = none
  get id (row ∷ rows) = if k.key row == id then some row else get id rows

  -- Writes to the row with that primary key.
  unfoldable pub modify : ℕ → (A → A) → List A → List A
  modify id f [] = []
  modify id f (row ∷ rows) = (if k.key row == id then f row else row) ∷ modify id f rows

  -- Whether a row has that primary key.
  unfoldable pub has : ℕ → List A → Bool
  has id [] = false
  has id (row ∷ rows) = if k.key row == id then true else has id rows

  -- The primary key constraint.
  abbrev pub HasUniqueKeys : List A → Type 0
  HasUniqueKeys [] = Unit
  HasUniqueKeys (row ∷ rows) = (has (k.key row) rows ≡ false) × HasUniqueKeys rows

  pub key-get : (id : ℕ) (rows : List A) (row : A) → get id rows ≡ some row → k.key row ≡ id
  unfolding get
  key-get id [] row h = cc
  key-get id (r ∷ rows) row h = ground (arith, key-get id rows row)

  -- Reading one row after a write that keeps the keys.
  pub get-modify :
      (id j : ℕ) (f : A → A) (rows : List A)
      → ((row : A) → k.key row ≡ id → k.key (f row) ≡ id)
      → get j (modify id f rows) ≡ (if id == j then Option.map f (get j rows) else get j rows)
  unfolding get modify
  get-modify id j f [] keeps = ground arith
  get-modify id j f (r ∷ rows) keeps = ground (arith, keeps r, get-modify id j f rows keeps)

  pub get-append_fresh :
      (id : ℕ) (rows : List A) (row : A)
      → has id rows ≡ false
      → k.key row ≡ id
      → get id (rows ++ row ∷ []) ≡ some row
  unfolding get has
  get-append_fresh id [] row h e = ground arith
  get-append_fresh id (r ∷ rows) row h e = ground (arith, get-append_fresh id rows row)

  pub get-append_ne :
      (j : ℕ) (rows : List A) (row : A)
      → (k.key row == j) ≡ false
      → get j (rows ++ row ∷ []) ≡ get j rows
  unfolding get
  get-append_ne j [] row h = ground arith
  get-append_ne j (r ∷ rows) row h = ground (arith, get-append_ne j rows row)

  pub has_of_get : (id : ℕ) (rows : List A) (row : A) → get id rows ≡ some row → has id rows ≡ true
  unfolding get has
  has_of_get id [] row h = cc
  has_of_get id (r ∷ rows) row h = ground (arith, has_of_get id rows row)

  pub has-modify :
      (id j : ℕ) (f : A → A) (rows : List A)
      → ((row : A) → k.key row ≡ id → k.key (f row) ≡ id)
      → has j (modify id f rows) ≡ has j rows
  unfolding has modify
  has-modify id j f [] keeps = refl
  has-modify id j f (r ∷ rows) keeps = ground (arith, keeps r, has-modify id j f rows keeps)

  pub modify-HasUniqueKeys :
      (id : ℕ) (f : A → A) (rows : List A)
      → ((row : A) → k.key row ≡ id → k.key (f row) ≡ id)
      → HasUniqueKeys rows
      → HasUniqueKeys (modify id f rows)
  unfolding modify
  modify-HasUniqueKeys id f [] keeps u = tt
  modify-HasUniqueKeys id f (r ∷ rows) keeps u = (
    ground (arith, keeps r, u.0, has-modify id (k.key r) f rows keeps),
    modify-HasUniqueKeys id f rows keeps u.1,
  )

  pub has-append :
      (j : ℕ) (rows : List A) (row : A)
      → has j (rows ++ row ∷ []) ≡ (if has j rows then true else k.key row == j)
  unfolding has
  has-append j [] row = ground arith
  has-append j (r ∷ rows) row = ground (arith, has-append j rows row)

  pub append-HasUniqueKeys :
      (rows : List A) (row : A)
      → has (k.key row) rows ≡ false
      → HasUniqueKeys rows
      → HasUniqueKeys (rows ++ row ∷ [])
  unfolding has
  append-HasUniqueKeys [] row h u = (refl, tt)
  append-HasUniqueKeys (r ∷ rows) row h u = (
    ground (arith, h, u.0, has-append (k.key r) rows row),
    append-HasUniqueKeys rows row (ground (arith, h)) u.1,
  )

  pub get_of_not_has : (id : ℕ) (rows : List A) → has id rows ≡ false → get id rows ≡ none
  unfolding get has
  get_of_not_has id [] h = refl
  get_of_not_has id (r ∷ rows) h = ground (arith, get_of_not_has id rows)

  -- With unique keys, a query finds a row by its key exactly when the row passes the test.
  pub get-filter :
      (id : ℕ) (p : A → Bool) (rows : List A)
      → HasUniqueKeys rows
      → get id (filter p rows)
        ≡ elim (get id rows) [ none ↦ none | some row ↦ if p row then some row else none ]
  unfolding get
  get-filter id p [] u = refl
  get-filter id p (r ∷ rows) u =
      ground (arith, get-filter id p rows u.1, get_of_not_has (k.key r) rows u.0)

  has-filter :
      (id : ℕ) (p : A → Bool) (rows : List A) → has id rows ≡ false → has id (filter p rows) ≡ false
  unfolding has
  has-filter id p [] h = refl
  has-filter id p (r ∷ rows) h = ground (arith, has-filter id p rows)

  pub filter-HasUniqueKeys :
      (p : A → Bool) (rows : List A) → HasUniqueKeys rows → HasUniqueKeys (filter p rows)
  filter-HasUniqueKeys p [] u = tt
  filter-HasUniqueKeys p (r ∷ rows) u = elim (Bool-cases (p r)) [
    | inl e ↦ rw e (has-filter (k.key r) p rows u.0, filter-HasUniqueKeys p rows u.1)
    | inr e ↦ rw e (filter-HasUniqueKeys p rows u.1)
  ]

  -- A row that is found is found by its own key.
  pub get_self :
      (id : ℕ) (rows : List A) (row : A) → get id rows ≡ some row → get (k.key row) rows ≡ some row
  get_self id rows row e = subst (λ j. get j rows ≡ some row) (sym (key-get id rows row e)) e
