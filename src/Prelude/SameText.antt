-- ===== src/Prelude/SameText.antt =====
-- The Boolean test of two texts decides their equality.
use native.Mathlib.Omega.{arith}
use mathlib.Core.Path.{◌≡◌, refl}
use mathlib.Core.Bool.{true}
use mathlib.Core.List.{[], ◌∷◌}
use developer_assistant.Prelude.Text.{Text, same_text}

pub same_text_refl : (s : Text) → same_text s s ≡ true
unfolding same_text
same_text_refl [] = refl
same_text_refl (c ∷ s) = ground (arith, same_text_refl s)

pub same_text-eq : (s t : Text) → same_text s t ≡ true → s ≡ t
unfolding same_text
same_text-eq [] [] h = refl
same_text-eq [] (d ∷ t) h = ground (arith, h)
same_text-eq (c ∷ s) [] h = ground (arith, h)
same_text-eq (c ∷ s) (d ∷ t) h = ground (arith, h, same_text-eq s t)
