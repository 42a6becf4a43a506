-- ===== src/Prelude/Newest.antt =====
-- `SELECT … ORDER BY time DESC`: rows of one time stay in the order of their ids.
use Prim.Native.Nat.{ℕ, ◌≤◌, ◌<◌}
use native.Mathlib.Omega.{arith}
use mathlib.Core.Path.{◌≡◌, refl}
use mathlib.Core.Logic.{◌⊎◌, inl, inr}
use mathlib.Core.Bool.{Bool, true}
use mathlib.Core.Option.{some}
use mathlib.Core.List.{List, [], ◌∷◌}
use developer_assistant.Prelude.Tests.{if◌then◌else◌, Bool-cases, leb}
use developer_assistant.Prelude.Lists.{All, All-map}
use developer_assistant.Prelude.Table.{select, fetchone}

-- Some entry has the property.
abbrev pub Any {ℓ} : {A : Type ℓ} → (A → Type 0) → List A → Type 0
Any P [] = ⊥
Any P (x ∷ xs) = P x ⊎ Any P xs

module _ {A : Type 0} (time : A → ℕ) where
  unfoldable pub insert_newest : A → List A → List A
  insert_newest r [] = r ∷ []
  insert_newest r (s ∷ rs) =
      let rest = insert_newest r rs in if leb (time s) (time r) then r ∷ s ∷ rs else s ∷ rest

  unfoldable pub newest_first : List A → List A
  newest_first [] = []
  newest_first (r ∷ rs) = insert_newest r (newest_first rs)

  abbrev Descending : List A → Type 0
  Descending [] = Unit
  Descending (x ∷ xs) = All (λ y. time y ≤ time x) xs × Descending xs

  All-insert_newest :
      (P : A → Type 0) (r : A) (rs : List A) → P r → All P rs → All P (insert_newest r rs)
  unfolding insert_newest
  All-insert_newest P r [] p h = (p, tt)
  All-insert_newest P r (s ∷ rs) p h = elim (Bool-cases (leb (time s) (time r))) [
    | inl e ↦ rw e (p, h)
    | inr e ↦ rw e (h.0, All-insert_newest P r rs p h.1)
  ]

  Any-insert_newest :
      (P : A → Type 0) (r : A) (rs : List A) → Any P (r ∷ rs) → Any P (insert_newest r rs)
  unfolding insert_newest
  Any-insert_newest P r [] h = h
  Any-insert_newest P r (s ∷ rs) h = elim (Bool-cases (leb (time s) (time r))) [
    | inl e ↦ rw e h
    | inr e ↦ rw e (elim h [
      | inl p ↦ inr (Any-insert_newest P r rs (inl p))
      | inr (inl p) ↦ inl p
      | inr (inr p) ↦ inr (Any-insert_newest P r rs (inr p))
    ])
  ]

  Descending-insert_newest : (r : A) (rs : List A) → Descending rs → Descending (insert_newest r rs)
  unfolding insert_newest
  Descending-insert_newest r [] h = (tt, tt)
  Descending-insert_newest r (s ∷ rs) h = elim (Bool-cases (leb (time s) (time r))) [
    | inl e ↦ rw e (
      (
        ground arith,
        All-map (λ y. time y ≤ time s) (λ y. time y ≤ time r) rs (λ y g. ground arith) h.0,
      ),
      h,
    )
    | inr e ↦ rw e (
      All-insert_newest (λ y. time y ≤ time s) r rs (ground arith) h.0,
      Descending-insert_newest r rs h.1,
    )
  ]

  All-newest_first : (P : A → Type 0) (rs : List A) → All P rs → All P (newest_first rs)
  unfolding newest_first
  All-newest_first P [] h = tt
  All-newest_first P (r ∷ rs) h =
      All-insert_newest P r (newest_first rs) h.0 (All-newest_first P rs h.1)

  Any-newest_first : (P : A → Type 0) (rs : List A) → Any P rs → Any P (newest_first rs)
  unfolding newest_first
  Any-newest_first P [] h = h
  Any-newest_first P (r ∷ rs) (inl p) = Any-insert_newest P r (newest_first rs) (inl p)
  Any-newest_first P (r ∷ rs) (inr p) =
      Any-insert_newest P r (newest_first rs) (inr (Any-newest_first P rs p))

  Descending-newest_first : (rs : List A) → Descending (newest_first rs)
  unfolding newest_first
  Descending-newest_first [] = tt
  Descending-newest_first (r ∷ rs) =
      Descending-insert_newest r (newest_first rs) (Descending-newest_first rs)

  None-below :
      (q : A → Bool) (now : ℕ) (rs : List A)
      → All (λ y. time y < now) rs
      → Any (λ y. (q y ≡ true) × (now ≤ time y)) rs
      → ⊥
  None-below q now [] h a = a
  None-below q now (r ∷ rs) h (inl (e, g)) = omega (arith, h.0, g)
  None-below q now (r ∷ rs) h (inr a) = None-below q now rs h.1 a

  first-Descending :
      (q : A → Bool) (P : A → Type 0) (now : ℕ) (rs : List A)
      → Descending rs
      → All (λ y. P y ⊎ (time y < now)) rs
      → Any (λ y. (q y ≡ true) × (now ≤ time y)) rs
      → (s : A) × (fetchone (select q rs) ≡ some s) × P s
  unfolding select fetchone
  first-Descending q P now [] d h a = absurd a
  first-Descending q P now (r ∷ rs) d h a = elim (Bool-cases (q r)) [
    | inl e ↦ rw e (
      r,
      refl,
      elim h.0 [
        | inl p ↦ p
        | inr l ↦ absurd (elim a [
          | inl (f, g) ↦ omega arith
          | inr b ↦
              None-below q now rs
                (All-map (λ y. time y ≤ time r) (λ y. time y < now) rs (λ y g. omega arith) d.0) b
        ])
      ],
    )
    | inr e ↦ rw e (elim a [
      | inl (f, g) ↦ absurd (ground arith)
      | inr b ↦ first-Descending q P now rs d.1 h.1 b
    ])
  ]

  -- The newest row that passes a test has a property, if every row has it or is older than a moment
  -- at which there is a row that passes the test.
  pub first_newest :
      (q : A → Bool) (P : A → Type 0) (now : ℕ) (rs : List A)
      → All (λ y. P y ⊎ (time y < now)) rs
      → Any (λ y. (q y ≡ true) × (now ≤ time y)) rs
      → (s : A) × (fetchone (select q (newest_first rs)) ≡ some s) × P s
  first_newest q P now rs h a =
      first-Descending q P now (newest_first rs) (Descending-newest_first rs)
        (All-newest_first (λ y. P y ⊎ (time y < now)) rs h)
        (Any-newest_first (λ y. (q y ≡ true) × (now ≤ time y)) rs a)
