-- ===== src/Prelude/Rows.antt =====
-- Lemmas on the rows that a SELECT gives after an INSERT or an UPDATE.
use native.Mathlib.Omega.{arith}
use mathlib.Core.Option
use mathlib.Core.Path.{◌≡◌, refl}
use mathlib.Core.Logic.{inl, inr}
use mathlib.Core.Bool.{Bool, true, false}
use mathlib.Core.Option.{Option, none, some}
use mathlib.Core.List.{List, [], ◌∷◌, ◌++◌}
use developer_assistant.Prelude.Tests.{Bool-cases}
use developer_assistant.Prelude.Lists.{All}
use developer_assistant.Prelude.Table.{update_where, select, fetchone}
use developer_assistant.Prelude.Newest.{Any}

pub select-append_other :
    {A : Type 0} (p : A → Bool) (xs : List A) (y : A)
    → p y ≡ false
    → select p (xs ++ y ∷ []) ≡ select p xs
unfolding select
select-append_other p [] y h = ground arith
select-append_other p (x ∷ xs) y h = ground (arith, select-append_other p xs y h)

pub fetchone-append :
    {A : Type 0} (p : A → Bool) (xs : List A) (y : A)
    → p y ≡ true
    → fetchone (select p (xs ++ y ∷ []))
      ≡ elim (fetchone (select p xs)) [ some x ↦ some x | none ↦ some y ]
unfolding select fetchone
fetchone-append p [] y h = ground arith
fetchone-append p (x ∷ xs) y h = ground (arith, fetchone-append p xs y h)

-- The first row of a test after an UPDATE of its rows that keeps the test true.
pub fetchone-update_where :
    {A : Type 0} (p : A → Bool) (f : A → A) (xs : List A)
    → ((x : A) → p x ≡ true → p (f x) ≡ true)
    → fetchone (select p (update_where p f xs)) ≡ Option.map f (fetchone (select p xs))
unfolding select fetchone update_where
fetchone-update_where p f [] keep = refl
fetchone-update_where p f (x ∷ xs) keep = elim (Bool-cases (p x)) [
  | inl e ↦ rw (e, keep x e) refl
  | inr e ↦ rw (e, e) (fetchone-update_where p f xs keep)
]

module _ {A : Type 0} (p : A → Bool) where
  pub All-select : (P : A → Type 0) (xs : List A) → All P xs → All P (select p xs)
  unfolding select
  All-select P [] h = tt
  All-select P (x ∷ xs) h = elim (Bool-cases (p x)) [
    | inl e ↦ rw e (h.0, All-select P xs h.1)
    | inr e ↦ rw e (All-select P xs h.1)
  ]

  pub Any-select :
      (P : A → Type 0) (xs : List A) → Any (λ x. (p x ≡ true) × P x) xs → Any P (select p xs)
  unfolding select
  Any-select P (x ∷ xs) (inl (e, h)) = rw e (inl h)
  Any-select P (x ∷ xs) (inr h) = elim (Bool-cases (p x)) [
    | inl e ↦ rw e (inr (Any-select P xs h))
    | inr e ↦ rw e (Any-select P xs h)
  ]
  Any-select P [] h = absurd h

  -- The row that is found has the property, if every row that passes the test has it.
  pub Any-of_found :
      (P : A → Type 0) (xs : List A) (x : A)
      → fetchone (select p xs) ≡ some x
      → All (λ y. p y ≡ true → P y) xs
      → Any P xs
  unfolding select fetchone
  Any-of_found P [] x e h = cc
  Any-of_found P (y ∷ xs) x e h = elim (Bool-cases (p y)) [
    | inl f ↦ inl (h.0 f)
    | inr f ↦ inr (Any-of_found P xs x (rest f e) h.1)
  ]
    where
      rest : p y ≡ false → fetchone (select p (y ∷ xs)) ≡ some x → fetchone (select p xs) ≡ some x
      rest f g = ground (arith, f, g)

pub Any-map :
    {A : Type 0} (P Q : A → Type 0) (xs : List A) → ((x : A) → P x → Q x) → Any P xs → Any Q xs
Any-map P Q (x ∷ xs) f (inl h) = inl (f x h)
Any-map P Q (x ∷ xs) f (inr h) = inr (Any-map P Q xs f h)
Any-map P Q [] f h = absurd h

pub Any-last : {A : Type 0} (P : A → Type 0) (xs : List A) (y : A) → P y → Any P (xs ++ y ∷ [])
Any-last P [] y h = inl h
Any-last P (x ∷ xs) y h = inr (Any-last P xs y h)

pub Any-update_where :
    {A : Type 0} (P Q : A → Type 0) (p : A → Bool) (f : A → A) (xs : List A)
    → ((x : A) → P x → p x ≡ true)
    → ((x : A) → P x → Q (f x))
    → Any P xs
    → Any Q (update_where p f xs)
unfolding update_where
Any-update_where P Q p f [] t g h = absurd h
Any-update_where P Q p f (x ∷ xs) t g (inl h) = rw (t x h) (inl (g x h))
Any-update_where P Q p f (x ∷ xs) t g (inr h) = inr (Any-update_where P Q p f xs t g h)
