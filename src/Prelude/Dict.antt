-- ===== src/Prelude/Dict.antt =====
-- A `dict` with text keys as an association list in the order of insertion.
use Prim.Native.String.{String}
use native.Mathlib.Omega.{arith}
use mathlib.Core.Path.{◌≡◌, refl}
use mathlib.Core.Option.{Option, none, some}
use mathlib.Core.List.{List, [], ◌∷◌}
use text.Mathlib.Text.{◌==◌ as str_eq}
use text.Mathlib.TextEquality.{eq_iff}
use developer_assistant.Prelude.Tests.{if◌then◌else◌}

abbrev pub Dict : Type 0 → Type 0
Dict A = List (String × A)

module _ {A : Type 0} where
  -- d.get(k)
  unfoldable pub get : String → Dict A → Option A
  get k [] = none
  get k ((j, a) ∷ d) = let rest = get k d in if str_eq j k then some a else rest

  -- d[k] = a
  unfoldable pub put : String → A → Dict A → Dict A
  put k a [] = (k, a) ∷ []
  put k a ((j, b) ∷ d) = let rest = put k a d in if str_eq j k then (j, a) ∷ d else (j, b) ∷ rest

  -- del d[k]
  unfoldable pub remove : String → Dict A → Dict A
  remove k [] = []
  remove k ((j, a) ∷ d) = let rest = remove k d in if str_eq j k then rest else (j, a) ∷ rest

  pub get-put :
      (k j : String) (a : A) (d : Dict A)
      → get k (put j a d) ≡ (if str_eq j k then some a else get k d)
  unfolding get put
  get-put k j a [] = refl
  get-put k j a ((i, b) ∷ d) = ground (
    arith,
    get-put k j a d,
    (eq_iff i j).0,
    (eq_iff i k).0,
    (eq_iff j k).0,
    (eq_iff i j).1,
    (eq_iff i k).1,
    (eq_iff j k).1,
  )

  pub get-remove :
      (k j : String) (d : Dict A) → get k (remove j d) ≡ (if str_eq j k then none else get k d)
  unfolding get remove
  get-remove k j [] = ground arith
  get-remove k j ((i, b) ∷ d) = ground (
    arith,
    get-remove k j d,
    (eq_iff i j).0,
    (eq_iff i k).0,
    (eq_iff j k).0,
    (eq_iff i j).1,
    (eq_iff i k).1,
    (eq_iff j k).1,
  )
