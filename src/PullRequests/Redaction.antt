-- ===== src/PullRequests/Redaction.antt =====
-- github_pr_integration.py: the credentials that a URL or a JSON value holds.
use developer_assistant.Prelude.{
  ℕ, zero, suc, Bool, true, false, ◌||◌, Option, none, some, [], ◌∷◌, ◌++◌, ◌==◌, if◌then◌else◌,
  ◌+◌, All, ◌≡◌, refl, ap, ◌∙◌, arith,
}
use developer_assistant.Prelude.Text.{Text, Unicode, codes, starts_with}
use developer_assistant.Prelude.Json.{
  Json, string, number, boolean, null, array, object, Items, no_items, item, Members, no_members,
  member,
}
use developer_assistant.GithubWorkflow.Credentials.{redact_token}

-- `[^@/:]+@` from here: the number of its characters, whether or not one came before.
user_length : Bool → Text → Option ℕ
user_length begun [] = none
user_length begun (c ∷ s) =
    let rest = user_length true s in
    if c == b'@'
    then (if begun then some 1 else none)
    else if c == b'/' || c == b':'
    then none
    else elim rest [ some n ↦ some (suc n) | none ↦ none ]

drop : ℕ → Text → Text
drop zero s = s
drop (suc n) [] = []
drop (suc n) (c ∷ s) = drop n s

-- `(https?://)([^@/:]+@)` from here: the first group, and the number of characters of both.
url_here : Text → Option (Text × ℕ)
unfolding starts_with user_length drop
url_here s =
    if starts_with s (codes "http://")
    then elim (user_length false (drop 7 s)) [
      | some n ↦ some (codes "http://", 7 + n)
      | none ↦ none
    ]
    else if starts_with s (codes "https://")
    then elim (user_length false (drop 8 s)) [
      | some n ↦ some (codes "https://", 8 + n)
      | none ↦ none
    ]
    else none

-- re.sub from here, where the first number of characters belongs to the last match.
unfoldable pub sub_users : ℕ → Text → Text
unfolding url_here
sub_users skip [] = []
sub_users (suc skip) (c ∷ s) = sub_users skip s
sub_users zero (c ∷ s) = elim (url_here (c ∷ s)) [
  | none ↦ c ∷ sub_users zero s
  | some (scheme, zero) ↦ c ∷ sub_users zero s
  | some (scheme, suc n) ↦ scheme ++ (codes "***REDACTED***@" ++ sub_users n s)
]

-- _redact_url
unfoldable pub redact_url : Unicode → Text → Text
unfolding sub_users
redact_url u url = redact_token u (sub_users zero url)

-- _redact_value
unfoldable mutual
  pub redact_value : Unicode → Json → Json
  redact_value u (string s) = string (redact_url u s)
  redact_value u (number n) = number n
  redact_value u (boolean b) = boolean b
  redact_value u null = null
  redact_value u (array is) = array (redact_items u is)
  redact_value u (object ms) = object (redact_members u ms)

  pub redact_items : Unicode → Items → Items
  redact_items u no_items = no_items
  redact_items u (item v is) = item (redact_value u v) (redact_items u is)

  pub redact_members : Unicode → Members → Members
  redact_members u no_members = no_members
  redact_members u (member k v ms) = member k (redact_value u v) (redact_members u ms)

abbrev pub IsUser : Text → Type 0
IsUser user = All (λ c. (c == b'@') ≡ false) user

length-with_password :
    (begun : Bool) (user rest : Text) → IsUser user → user_length begun (user ++ b':' ∷ rest) ≡ none
unfolding user_length
length-with_password begun [] rest p = refl
length-with_password begun (c ∷ user) rest p =
    ground (arith, p.0, length-with_password true user rest p.1)

-- At no place of the text a scheme begins.
unfoldable pub HasNoScheme : Text → Type 0
HasNoScheme [] = Unit
HasNoScheme (c ∷ s) =
    ((starts_with (c ∷ s) (codes "http://") ≡ false)
      × (starts_with (c ∷ s) (codes "https://") ≡ false))
    × HasNoScheme s

abbrev pub scheme : Bool → Text
scheme false = codes "http://"
scheme true = codes "https://"

-- A URL with a user, a password and a host.
abbrev pub with_password : Bool → Text → Text → Text → Text
with_password secure user password host =
    scheme secure ++ (user ++ b':' ∷ (password ++ b'@' ∷ host))

no_url_here :
    (s : Text)
    → starts_with s (codes "http://") ≡ false
    → starts_with s (codes "https://") ≡ false
    → url_here s ≡ none
unfolding url_here
no_url_here s h k = rw (h, k) refl

sub_users_same : (s : Text) → HasNoScheme s → sub_users zero s ≡ s
unfolding sub_users HasNoScheme
sub_users_same [] h = refl
sub_users_same (c ∷ s) h =
    rw (no_url_here (c ∷ s) h.0.0 h.0.1, sub_users) (ap (λ r. c ∷ r) (sub_users_same s h.1))

sub_users-with_password :
    (secure : Bool) (user rest : Text)
    → IsUser user
    → sub_users zero (scheme secure ++ (user ++ b':' ∷ rest))
      ≡ scheme secure ++ sub_users zero (user ++ b':' ∷ rest)
unfolding sub_users url_here starts_with drop codes
sub_users-with_password true user rest p =
    rw (length-with_password false user rest p, sub_users) refl
sub_users-with_password false user rest p =
    rw (length-with_password false user rest p, sub_users) refl

-- A password stays in the URL: an http or https URL whose user is followed by a password, in which
-- no second scheme begins and the token patterns find nothing, is given back as it is.
pub redact_url-with_password :
    (u : Unicode) (secure : Bool) (user password host : Text)
    → IsUser user
    → HasNoScheme (user ++ b':' ∷ (password ++ b'@' ∷ host))
    → redact_token u (with_password secure user password host)
      ≡ with_password secure user password host
    → redact_url u (with_password secure user password host)
      ≡ with_password secure user password host
unfolding redact_url
redact_url-with_password u secure user password host p n t =
    let rest = password ++ b'@' ∷ host in
    ap (redact_token u) (
      sub_users-with_password secure user rest p
      ∙ ap (λ r. scheme secure ++ r) (sub_users_same (user ++ b':' ∷ rest) n))
    ∙ t
