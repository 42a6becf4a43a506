-- ===== src/Prelude/Lists.antt =====
-- Predicates by recursion on a list, which the tactics read, and lists over the native numbers.
use Prim.Native.Nat.{ℕ, suc}
use mathlib.Core.Bool.{Bool, false, ◌||◌}
use mathlib.Core.List.{List, [], ◌∷◌, ◌++◌}
use Prim.Native.String.{String}
use text.Mathlib.Text.{◌==◌ as str_eq}

abbrev pub All {ℓ κ} : {A : Type ℓ} → (A → Type κ) → List A → Type κ
All P [] = Unit
All P (x ∷ xs) = P x × All P xs

-- Every two entries, at different places, are related, the earlier one first.
abbrev pub Apart {ℓ} : {A : Type ℓ} → (A → A → Type 0) → List A → Type 0
Apart R [] = Unit
Apart R (x ∷ xs) = All (R x) xs × Apart R xs

abbrev pub length {ℓ} : {A : Type ℓ} → List A → ℕ
length [] = 0
length (_ ∷ xs) = suc (length xs)

-- `s in names`
unfoldable pub one_of : String → List String → Bool
one_of s [] = false
one_of s (t ∷ ts) = str_eq s t || one_of s ts

module _ {ℓ κ} {A : Type ℓ} where
  pub All-append : (P : A → Type κ) (xs : List A) {y : A} → All P xs → P y → All P (xs ++ y ∷ [])
  All-append P [] h p = (p, tt)
  All-append P (x ∷ xs) h p = (h.0, All-append P xs h.1 p)

  pub All-const : (P : A → Type κ) (xs : List A) → ((x : A) → P x) → All P xs
  All-const P [] f = tt
  All-const P (x ∷ xs) f = (f x, All-const P xs f)

  pub All-map :
      (P : A → Type κ) (Q : A → Type κ) (xs : List A) → ((x : A) → P x → Q x) → All P xs → All Q xs
  All-map P Q [] f h = tt
  All-map P Q (x ∷ xs) f h = (f x h.0, All-map P Q xs f h.1)

module _ {ℓ} {A : Type ℓ} where
  pub Apart-append :
      (R : A → A → Type 0) (xs : List A) (y : A)
      → Apart R xs
      → All (λ x. R x y) xs
      → Apart R (xs ++ y ∷ [])
  Apart-append R [] y h p = (tt, tt)
  Apart-append R (x ∷ xs) y h p = (All-append (R x) xs h.0 p.0, Apart-append R xs y h.1 p.1)
