-- ===== src/ModelCatalog/Prefix.antt =====
-- When a configuration is accepted, and when the check raises an IndexError.
use mathlib.Core.Path.{subst}
use developer_assistant.Prelude.{
  String, true, some, List, [], ◌∷◌, ◌++◌, ◌≡◌, ◌↔◌, refl, sym, arith, Bool-cases, Option-cases,
  inl, inr,
}
use developer_assistant.Prelude.Text.{Text, same_text, text_in}
use developer_assistant.Prelude.SameText.{same_text_refl, same_text-eq}
use developer_assistant.Prelude.Dict.{Dict, get}
use developer_assistant.ModelCatalog.Table.{RoleAssignment}
use developer_assistant.ModelCatalog.Verify.{
  accepted, index_error, AgentConfig, get_role_assignment, all_listed, verify_positions,
  verify_assignment, verify_runtime_config,
}

-- The first list is the beginning of the second.
abbrev pub IsPrefix : List Text → List Text → Type 0
IsPrefix fs gs = (rest : List Text) × (gs ≡ fs ++ rest)

-- The first list is the second and at least one more.
abbrev pub IsLonger : List Text → List Text → Type 0
IsLonger fs gs = (f : Text) × ((rest : List Text) × (fs ≡ gs ++ f ∷ rest))

accepted-IsPrefix : (fs gs : List Text) → verify_positions fs gs ≡ accepted → IsPrefix fs gs
unfolding verify_positions
accepted-IsPrefix [] gs h = (gs, refl)
accepted-IsPrefix (f ∷ fs) [] h = ground (arith, h)
accepted-IsPrefix (f ∷ fs) (g ∷ gs) h = elim (Bool-cases (same_text f g)) [
  | inl e ↦
      let p = accepted-IsPrefix fs gs (ground (arith, h, e)) in
      let q = same_text-eq f g e in (p.0, cc (p.1, q))
  | inr e ↦ ground (arith, h, e)
]

prefix_accepted : (fs rest : List Text) → verify_positions fs (fs ++ rest) ≡ accepted
unfolding verify_positions
prefix_accepted [] rest = refl
prefix_accepted (f ∷ fs) rest = rw (same_text_refl f) (prefix_accepted fs rest)

index_error-IsLonger : (fs gs : List Text) → verify_positions fs gs ≡ index_error → IsLonger fs gs
unfolding verify_positions
index_error-IsLonger [] gs h = ground (arith, h)
index_error-IsLonger (f ∷ fs) [] h = (f, (fs, refl))
index_error-IsLonger (f ∷ fs) (g ∷ gs) h = elim (Bool-cases (same_text f g)) [
  | inl e ↦
      let p = index_error-IsLonger fs gs (ground (arith, h, e)) in
      let q = same_text-eq f g e in (p.0, (p.1.0, cc (p.1.1, q)))
  | inr e ↦ ground (arith, h, e)
]

longer_fails :
    (gs : List Text) (f : Text) (rest : List Text)
    → verify_positions (gs ++ f ∷ rest) gs ≡ index_error
unfolding verify_positions
longer_fails [] f rest = refl
longer_fails (g ∷ gs) f rest = rw (same_text_refl g) (longer_fails gs f rest)

text_in-weaken : (x g : Text) (gs : List Text) → text_in x gs ≡ true → text_in x (g ∷ gs) ≡ true
unfolding text_in
text_in-weaken x g gs h = ground (arith, h)

listed_weaken :
    (fs gs : List Text) (g : Text) → all_listed fs gs ≡ true → all_listed fs (g ∷ gs) ≡ true
unfolding all_listed
listed_weaken [] gs g h = refl
listed_weaken (f ∷ fs) gs g h = ground (arith, h, listed_weaken fs gs g, text_in-weaken f g gs)

prefix_listed : (fs rest : List Text) → all_listed fs (fs ++ rest) ≡ true
unfolding all_listed text_in
prefix_listed [] rest = refl
prefix_listed (f ∷ fs) rest =
    ground (arith, same_text_refl f, listed_weaken fs (fs ++ rest) f (prefix_listed fs rest))

accepted_of :
    (role : String) (c : AgentConfig) (catalog : Dict RoleAssignment) (a : RoleAssignment)
    → get role catalog ≡ some a
    → c.model ≡ a.main
    → (rest : List Text) → a.fallbacks ≡ c.fallback_models ++ rest
    → verify_runtime_config role c catalog ≡ accepted
unfolding verify_runtime_config verify_assignment get_role_assignment
accepted_of role c catalog a e m rest p = ground (
  arith,
  e,
  subst (λ x. same_text c.model x ≡ true) m (same_text_refl c.model),
  subst (λ g. all_listed c.fallback_models g ≡ true) (sym p) (prefix_listed c.fallback_models rest),
  subst (λ g. verify_positions c.fallback_models g ≡ accepted) (sym p)
      (prefix_accepted c.fallback_models rest),
)

-- A configuration is accepted exactly if its role is in the catalog, its model is the main model of
-- the role, and its fallbacks are the beginning of the role's.
pub verify_accepts_iff :
    (role : String) (c : AgentConfig) (catalog : Dict RoleAssignment)
    → (verify_runtime_config role c catalog ≡ accepted) ↔ (
        (a : RoleAssignment) × ((get role catalog ≡ some a)
          × ((c.model ≡ a.main) × IsPrefix c.fallback_models a.fallbacks)))
unfolding verify_runtime_config verify_assignment get_role_assignment
verify_accepts_iff role c catalog = (
  λ h. elim (Option-cases (get role catalog)) [
    | inl e ↦ ground (arith, h, e)
    | inr (a, e) ↦ (
      a,
      (
        e,
        (
          same_text-eq c.model a.main (ground (arith, h, e)),
          accepted-IsPrefix c.fallback_models a.fallbacks (ground (arith, h, e)),
        ),
      ),
    )
  ],
  λ t. accepted_of role c catalog t.0 t.1.0 t.1.1.0 t.1.1.1.0 t.1.1.1.1,
)

-- The check ends in an IndexError exactly if the model is the main model of the role, the fallbacks are
-- all those of the role and at least one more, and each of them is in the catalog's list.
pub verify_index_error_iff :
    (a : RoleAssignment) (c : AgentConfig)
    → (verify_assignment a c ≡ index_error) ↔ (
        (c.model ≡ a.main)
        × ((all_listed c.fallback_models a.fallbacks ≡ true)
            × IsLonger c.fallback_models a.fallbacks))
unfolding verify_assignment
verify_index_error_iff a c = (
  λ h. (
    same_text-eq c.model a.main (ground (arith, h)),
    (ground (arith, h), index_error-IsLonger c.fallback_models a.fallbacks (ground (arith, h))),
  ),
  λ t. ground (
    arith,
    t.1.0,
    subst (λ x. same_text c.model x ≡ true) t.0 (same_text_refl c.model),
    subst (λ f. verify_positions f a.fallbacks ≡ index_error) (sym t.1.1.1.1)
        (longer_fails a.fallbacks t.1.1.0 t.1.1.1.0),
  ),
)
