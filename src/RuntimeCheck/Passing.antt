-- ===== src/RuntimeCheck/Passing.antt =====
-- runtime_check.py: when a single step of the check lets the next one run, and the skills of a role.
use mathlib.Core.Bool.{false≢true}
use mathlib.Core.Option.{some-injective, none-ne-some}
use mathlib.Core.Path.{subst}
use developer_assistant.Prelude.{
  Option, none, String, Bool, true, false, some, List, [], ◌∷◌, one_of, non_empty, str_eq, eq_iff,
  ◌≡◌, ◌↔◌, refl, sym, arith, Bool-cases, inl, inr, ◌⊎◌,
}
use developer_assistant.Prelude.Text.{Text, codes, same_text, text_in}
use developer_assistant.Prelude.SameText.{same_text-eq}
use developer_assistant.Prelude.Dict.{get}
use developer_assistant.Prelude.Results.{Result, ok}
use developer_assistant.RuntimeCheck.Host.{
  Schema, Invariant, CheckError, unreadable, no_row, version, Host, allowed_roles, role_skills,
}
use developer_assistant.RuntimeCheck.Check.{
  Abort, all_in, builtin_of, require, require_gated, reading,
}

pub text_in-all_in :
    (x : Text) (a b : List Text) → all_in a b ≡ true → text_in x a ≡ true → text_in x b ≡ true
unfolding all_in text_in
text_in-all_in x [] b h m = ground (arith, m)
text_in-all_in x (s ∷ a) b h m = ground (arith, h, m, text_in-all_in x a b, same_text-eq x s)

-- The skills of the other roles are without the Telegram gateway.
pub no_gateway :
    (role : String)
    → str_eq role "orchestrator" ≡ false
    → text_in (codes "telegram-gateway") (builtin_of (get role role_skills)) ≡ false
unfolding get text_in same_text codes
no_gateway role n = elim (Bool-cases (str_eq "orchestrator" role)) [
  | inl e ↦
      ground (arith, n, (eq_iff role "orchestrator").1 (sym ((eq_iff "orchestrator" role).0 e)))
  | inr e ↦ ground (arith, e)
]

pub allowed_is_named : (role : String) → one_of role allowed_roles ≡ true → non_empty role ≡ true
unfolding one_of
allowed_is_named role h = elim (Bool-cases (str_eq role "")) [
  | inl e ↦ ground (arith, subst (λ r. one_of r allowed_roles ≡ true) ((eq_iff role "").0 e) h)
  | inr e ↦ rw e refl
]

pub Schema-cases : (s : Schema) → (s ≡ unreadable) ⊎ ((s ≡ no_row) ⊎ ((v : Text) × (s ≡ version v)))
Schema-cases unreadable = inl refl
Schema-cases no_row = inr (inl refl)
Schema-cases (version v) = inr (inr (v, refl))

module _ (h : Host) (role : String) where
  pub reading_passes :
      {A : Type 0} (o : Option A) (rest : A → Result Abort Unit)
      → (reading h role o rest ≡ ok tt) ↔ ((a : A) × (o ≡ some a) × (rest a ≡ ok tt))
  reading_passes none rest = (λ e. cc, λ (a, e, f). cc)
  reading_passes (some a) rest =
      (λ e. (a, refl, e), λ (b, e, f). subst (λ x. rest x ≡ ok tt) (sym (some-injective a b e)) f)

  pub require_passes :
      (b : Bool) (i : Invariant) (e : CheckError) (rest : Result Abort Unit)
      → (require h role b i e rest ≡ ok tt) ↔ ((b ≡ true) × (rest ≡ ok tt))
  require_passes true i e rest = (λ r. (refl, r), λ (c, r). r)
  require_passes false i e rest = (λ r. cc, λ (c, r). cc)

  pub gated_passes :
      (b : Bool) (o : Option Bool) (i : Invariant) (e : CheckError) (rest : Result Abort Unit)
      → (require_gated h role b o i e rest ≡ ok tt) ↔ ((b ≡ true → o ≡ some true) × (rest ≡ ok tt))
  gated_passes false o i e rest = (λ r. (λ c. cc, r), λ (g, r). r)
  gated_passes true none i e rest = (λ r. cc, λ (g, r). absurd (none-ne-some _ (g refl)))
  gated_passes true (some true) i e rest = (λ r. (λ c. refl, r), λ (g, r). r)
  gated_passes true (some false) i e rest =
      (λ r. cc, λ (g, r). absurd (false≢true (some-injective false true (g refl))))
