-- ===== src/GithubWorkflow/Requests.antt =====
-- github_workflow.py: the requests to the REST API. `urllib.parse.quote(…, safe="")` is a parameter.
use developer_assistant.Prelude.{String, Bool, Option, none, some, List, [], ◌∷◌, ◌++◌}
use developer_assistant.Prelude.Dict.{put}
use developer_assistant.Prelude.Text.{Text, codes}

pub data Value : Type 0 where
  text : Text → Value
  flag : Bool → Value

pub record GitHubRestRequest : Type 0 where
  pub method : String
  pub url : Text
  pub headers : List (String × Text)
  pub body : Option (List (String × Value))

-- GitHubRESTRequest.with_auth
unfoldable pub with_auth : GitHubRestRequest → Text → List (String × Text)
with_auth r token = put "Authorization" (codes "Bearer " ++ token) r.headers

abbrev api_base : Text
api_base = codes "https://api.github.com"

abbrev accept_headers : List (String × Text)
accept_headers =
    ("Accept", codes "application/vnd.github+json")
    ∷ (("X-GitHub-Api-Version", codes "2022-11-28") ∷ [])

module _ (quote : Text → Text) where
  unfoldable pub repo_url : Text → Text → Text
  repo_url owner repo = api_base ++ (codes "/repos/" ++ (quote owner ++ (codes "/" ++ quote repo)))

  unfoldable pub build_repo_create_request : Text → Text → Text → Bool → Bool → GitHubRestRequest
  build_repo_create_request owner name description private auto_init = record {
    method = "POST";
    url = api_base ++ (codes "/orgs/" ++ (quote owner ++ codes "/repos"));
    headers = accept_headers;
    body = some (
        ("name", text name)
        ∷ (("description", text description)
            ∷ (("private", flag private) ∷ (("auto_init", flag auto_init) ∷ []))));
  }

  unfoldable pub build_repo_register_request : Text → Text → GitHubRestRequest
  unfolding repo_url
  build_repo_register_request owner name = record {
    method = "GET";
    url = repo_url owner name;
    headers = accept_headers;
    body = none;
  }

  unfoldable pub build_pr_open_request : Text → Text → Text → Text → Text → Text → GitHubRestRequest
  unfolding repo_url
  build_pr_open_request owner repo head base title body = record {
    method = "POST";
    url = repo_url owner repo ++ codes "/pulls";
    headers = accept_headers;
    body = some (
        ("head", text head)
        ∷ (("base", text base) ∷ (("title", text title) ∷ (("body", text body) ∷ []))));
  }

  abbrev given : String → Option Text → List (String × Value)
  given name none = []
  given name (some v) = (name, text v) ∷ []

  abbrev if_any : List (String × Value) → Option (List (String × Value))
  if_any [] = none
  if_any (f ∷ fs) = some (f ∷ fs)

  -- The number of the request is handed in as its digits.
  unfoldable pub build_pr_update_request :
      Text → Text → Text → Option Text → Option Text → Option Text → Option Text → GitHubRestRequest
  unfolding repo_url
  build_pr_update_request owner repo pr_number title body state base = record {
    method = "PATCH";
    url = repo_url owner repo ++ (codes "/pulls/" ++ pr_number);
    headers = accept_headers;
    body =
        if_any (
          given "title" title ++ (given "body" body ++ (given "state" state ++ given "base" base)));
  }

  unfoldable pub build_check_status_request : Text → Text → Text → GitHubRestRequest
  unfolding repo_url
  build_check_status_request owner repo ref = record {
    method = "GET";
    url = repo_url owner repo ++ (codes "/commits/" ++ (quote ref ++ codes "/check-runs"));
    headers = accept_headers;
    body = none;
  }

  unfoldable pub build_pr_metadata_request : Text → Text → Text → GitHubRestRequest
  unfolding repo_url
  build_pr_metadata_request owner repo pr_number = record {
    method = "GET";
    url = repo_url owner repo ++ (codes "/pulls/" ++ pr_number);
    headers = accept_headers;
    body = none;
  }
