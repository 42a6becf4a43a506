-- ===== src/PullRequests/State.antt =====
-- github_pr_integration.py: the state of a project, and its texts for Telegram.
use developer_assistant.Prelude.{
  ℕ, Bool, false, not, ◌&&◌, Option, none, some, List, [], ◌∷◌, ◌++◌, ◌==◌, if◌then◌else◌,
}
use developer_assistant.Prelude.Text.{
  Text, Unicode, codes, starts_with, same_text, truthy, or_text, ends_with,
}
use developer_assistant.Prelude.Decimal.{decimal}
use developer_assistant.GithubWorkflow.Credentials.{redact_token}

pub record ReviewGateState : Type 0 where
  pub review_artifact_path : Text
  pub verdict : Text
  pub reviewer : Text
  pub date : Text

unfoldable pub is_valid_artifact_path : ReviewGateState → Bool
unfolding ends_with
is_valid_artifact_path g =
    if not (truthy g.review_artifact_path)
    then false
    else starts_with g.review_artifact_path (codes "docs/reviews/")
      && ends_with g.review_artifact_path (codes ".md")

unfoldable pub review_text : ReviewGateState → Text
review_text g =
    if not (truthy g.review_artifact_path)
    then codes "no review"
    else or_text g.verdict (codes "pending")
      ++ (codes " (" ++ (g.review_artifact_path ++ codes ")"))

-- A conclusion that the API answers with `null` is `none`.
pub record PrCheckState : Type 0 where
  pub check_name : Text
  pub status : Text
  pub conclusion : Option Text

unfoldable pub status_text : PrCheckState → Text
status_text c =
    if truthy c.status then c.check_name ++ (codes ": " ++ c.status) else codes "no checks"

unfoldable pub check_text : PrCheckState → Text
unfolding status_text
check_text c = elim c.conclusion [
  | none ↦ status_text c
  | some d ↦
      if same_text c.status (codes "completed") && truthy d
      then c.check_name ++ (codes ": " ++ d)
      else status_text c
]

pub record ProjectGitHubState : Type 0 where
  pub repo_owner : Text
  pub repo_name : Text
  pub repo_url : Text
  pub active_branch : Text
  pub active_pr_number : ℕ
  pub active_pr_url : Text
  pub active_pr_state : Text
  pub linked_ticket : Text
  pub check_state : Option PrCheckState
  pub review_gate : Option ReviewGateState
  pub founder_acknowledged : Bool

-- ProjectGitHubState()
abbrev pub new_project : ProjectGitHubState
new_project = record {
  repo_owner = [];
  repo_name = [];
  repo_url = [];
  active_branch = [];
  active_pr_number = 0;
  active_pr_url = [];
  active_pr_state = [];
  linked_ticket = [];
  check_state = none;
  review_gate = none;
  founder_acknowledged = false;
}

unfoldable pub is_registered : ProjectGitHubState → Bool
is_registered s = truthy s.repo_owner && truthy s.repo_name

unfoldable pub repo_full_name : ProjectGitHubState → Text
unfolding is_registered
repo_full_name s = if is_registered s then s.repo_owner ++ (codes "/" ++ s.repo_name) else []

-- The lines, or the parts, that stand behind a test.
abbrev line_if : Bool → Text → List Text
line_if b t = if b then t ∷ [] else []

abbrev check_line : Option PrCheckState → List Text
unfolding check_text
check_line none = []
check_line (some c) = (codes "CI: " ++ check_text c) ∷ []

abbrev review_line : Option ReviewGateState → List Text
unfolding review_text
review_line none = []
review_line (some g) = (codes "Ревью: " ++ review_text g) ∷ []

-- separator.join(lines)
unfoldable pub join : Text → List Text → Text
join sep [] = []
join sep (a ∷ []) = a
join sep (a ∷ b ∷ rest) = a ++ (sep ++ join sep (b ∷ rest))

unfoldable pub pr_line : ProjectGitHubState → Text
pr_line s = codes "PR #" ++ decimal s.active_pr_number

unfoldable pub to_russian_status : Unicode → ProjectGitHubState → Text
unfolding check_line review_line repo_full_name pr_line join
to_russian_status u s = join (codes "\n") (
    line_if (truthy (repo_full_name s)) (codes "Репозиторий: " ++ redact_token u (repo_full_name s))
    ++ (line_if (truthy s.repo_url) (codes "URL: " ++ redact_token u s.repo_url)
        ++ (line_if (truthy s.active_branch) (codes "Ветка: " ++ s.active_branch)
            ++ (line_if (not (s.active_pr_number == 0))
                  (pr_line s ++ (codes ": " ++ or_text s.active_pr_state (codes "unknown")))
                ++ (line_if (truthy s.linked_ticket) (codes "Тикет: " ++ s.linked_ticket)
                    ++ (check_line s.check_state
                        ++ (review_line s.review_gate
                            ++ (codes "Мерж-гейт: "
                                ++ (if s.founder_acknowledged
                                    then codes "подтверждено основателем"
                                    else codes "требуется подтверждение основателя"))
                              ∷ [])))))))

unfoldable pub progress_parts : Unicode → ProjectGitHubState → List Text
unfolding check_line review_line repo_full_name pr_line
progress_parts u s =
    line_if (truthy (repo_full_name s)) (codes "Репо: " ++ redact_token u (repo_full_name s))
    ++ (line_if (not (s.active_pr_number == 0)) (pr_line s)
        ++ (check_line s.check_state ++ review_line s.review_gate))

abbrev or_no_state : List Text → Text
unfolding join
or_no_state [] = codes "no GitHub state"
or_no_state (p ∷ ps) = join (codes " | ") (p ∷ ps)

unfoldable pub to_progress_text : Unicode → ProjectGitHubState → Text
unfolding progress_parts or_no_state
to_progress_text u s = or_no_state (progress_parts u s)
