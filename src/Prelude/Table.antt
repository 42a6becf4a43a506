-- ===== src/Prelude/Table.antt =====
-- Rows of an SQL table in the order of their ids, and the statements that the program runs on it:
-- `UPDATE … WHERE p RETURNING *` and `SELECT … WHERE p`.
use Prim.Native.Nat.{ℕ, ◌<◌}
use native.Mathlib.Omega.{arith}
use mathlib.Core.Option
use mathlib.Core.Path.{◌≡◌, refl}
use mathlib.Core.Bool.{Bool, true, false, ◌&&◌}
use mathlib.Core.Option.{Option, none, some}
use mathlib.Core.List.{List, [], ◌∷◌, ◌++◌}
use developer_assistant.Prelude.Tests.{if◌then◌else◌, Bool-cases, ◌==◌}
use developer_assistant.Prelude.Lists.{All, Apart, All-map}
use mathlib.Core.Logic.{inl, inr}

module _ {ℓ} {A : Type ℓ} where
  unfoldable pub update_where : (A → Bool) → (A → A) → List A → List A
  update_where p f [] = []
  update_where p f (x ∷ xs) = (if p x then f x else x) ∷ update_where p f xs

  unfoldable pub select : (A → Bool) → List A → List A
  select p [] = []
  select p (x ∷ xs) = let rest = select p xs in if p x then x ∷ rest else rest

  -- the rows that `UPDATE … RETURNING *` gives back
  unfoldable pub returning : (A → Bool) → (A → A) → List A → List A
  returning p f [] = []
  returning p f (x ∷ xs) = let rest = returning p f xs in if p x then f x ∷ rest else rest

  -- `cursor.fetchone()`
  unfoldable pub fetchone : List A → Option A
  fetchone [] = none
  fetchone (x ∷ xs) = some x

  -- A property of rows survives an update that keeps it on the rows it changes.
  pub All-update_where {κ} :
      (P : A → Type κ) (p : A → Bool) (f : A → A) (xs : List A)
      → ((x : A) → p x ≡ true → P x → P (f x))
      → All P xs
      → All P (update_where p f xs)
  unfolding update_where
  All-update_where P p f [] keep h = tt
  All-update_where P p f (x ∷ xs) keep h = elim (Bool-cases (p x)) [
    | inl e ↦ rw e (keep x e h.0, All-update_where P p f xs keep h.1)
    | inr e ↦ rw e (h.0, All-update_where P p f xs keep h.1)
  ]

  -- An update that never brings two rows nearer keeps the rows apart.
  pub Apart-update_where :
      (R : A → A → Type 0) (p : A → Bool) (f : A → A)
      → ((x y : A) → R x y → R (f x) y)
      → ((x y : A) → R x y → R x (f y))
      → (xs : List A) → Apart R xs
      → Apart R (update_where p f xs)
  unfolding update_where
  Apart-update_where R p f left right [] h = tt
  Apart-update_where R p f left right (x ∷ xs) h =
      (first (p x), Apart-update_where R p f left right xs h.1)
    where
      rest : All (R x) (update_where p f xs)
      rest = All-update_where (R x) p f xs (λ y _ r. right x y r) h.0

      moved : (ys : List A) → All (R x) ys → All (R (f x)) ys
      moved = elim [ [] ↦ λ g. tt | y ∷ (ys → ih) ↦ λ g. (left x y g.0, ih g.1) ]

      first : (b : Bool) → All (R (if b then f x else x)) (update_where p f xs)
      first true = moved (update_where p f xs) rest
      first false = rest

abbrev pub when_row {ℓ} : {A : Type ℓ} → (A → Bool) → (A → A) → Option A → Option A
when_row q f none = none
when_row q f (some r) = if q r then some (f r) else none

-- Rows with a numeric key.
module _ {A : Type 0} (id : A → ℕ) where
  -- SELECT * … WHERE id = ?
  unfoldable pub find_row : ℕ → List A → Option A
  find_row i rows = fetchone (select (λ r. id r == i) rows)

  -- What an UPDATE that keeps the ids makes of the row with an id.
  pub find_row-update_where :
      (p : A → Bool) (f : A → A)
      → ((r : A) → id (f r) ≡ id r)
      → (i : ℕ) (rows : List A)
      → find_row i (update_where p f rows)
        ≡ Option.map (λ r. if p r then f r else r) (find_row i rows)
  unfolding find_row fetchone select update_where
  find_row-update_where p f same i [] = refl
  find_row-update_where p f same i (r ∷ rows) =
      ground (arith, same r, find_row-update_where p f same i rows)

  -- A row put behind the others is found last.
  pub find_row-append :
      (i : ℕ) (rows : List A) (x r : A)
      → find_row i rows ≡ some r
      → find_row i (rows ++ x ∷ []) ≡ some r
  unfolding find_row fetchone select
  find_row-append i [] x r h = cc
  find_row-append i (s ∷ rows) x r h = ground (arith, find_row-append i rows x r)

  pub key_of_row : (i : ℕ) (rows : List A) (r : A) → find_row i rows ≡ some r → id r ≡ i
  unfolding find_row fetchone select
  key_of_row i [] r h = cc
  key_of_row i (s ∷ rows) r h = ground (arith, key_of_row i rows r)

  abbrev AboveAll : ℕ → List A → Type 0
  AboveAll i rows = All (λ r. i < id r) rows

  returning_above :
      (i : ℕ) (q : A → Bool) (f : A → A) (rows : List A)
      → AboveAll i rows
      → fetchone (returning (λ r. (id r == i) && q r) f rows) ≡ none
  unfolding fetchone returning
  returning_above i q f [] h = refl
  returning_above i q f (r ∷ rows) h = ground (arith, returning_above i q f rows h.1)

  -- The row that an UPDATE of one id under a condition gives back.
  pub fetchone-returning_row :
      (i : ℕ) (q : A → Bool) (f : A → A) (rows : List A)
      → Apart (λ a b. id a < id b) rows
      → fetchone (returning (λ r. (id r == i) && q r) f rows) ≡ when_row q f (find_row i rows)
  unfolding find_row fetchone select returning
  fetchone-returning_row i q f [] h = refl
  fetchone-returning_row i q f (r ∷ rows) h = elim (Bool-cases (id r == i)) [
    | inl e ↦ elim (Bool-cases (q r)) [
      | inl g ↦ ground arith
      | inr g ↦ ground (
        arith,
        returning_above i q f rows
            (All-map (λ s. id r < id s) (λ s. i < id s) rows (λ s g. ground arith) h.0),
      )
    ]
    | inr e ↦ ground (arith, fetchone-returning_row i q f rows h.1)
  ]
