-- ===== src/Access.antt =====
-- Which requests reach a handler: the middlewares of sentinel_home/api/middleware.py and, around it,
-- sentinel_home/dashboard/routes.py, in the order of sentinel_home/main.py.
pub mod Guarded
mod Examples
use sentinel_home.Prelude.{
  ℕ, String, Bool, true, false, not, Option, List, [], ◌∷◌, any, truthy, has_prefix, ◌==◌,
  string_eq, if◌then◌else◌,
}
use sentinel_home.Models.{Database, get_or}
use sentinel_home.Auth.{Auth, is_authenticated}
use sentinel_home.Rules.{Request, serve_db}

-- the parts of a request that the middlewares read: the path, the method, the headers `X-API-Key` and
-- `HX-Request` and the cookie `sh_session`
pub record HttpRequest : Type 0 where
  pub path : String
  pub method : String
  pub api_key : Option String
  pub htmx : Option String
  pub cookie : Option String

-- what a middleware does with a request
pub data Passage : Type 0 where
  passed unauthorized session_expired to_login : Passage

-- `APIKeyMiddleware.dispatch`, given the configured key
unfoldable pub check_api_key : String → HttpRequest → Passage
check_api_key configured r =
    if not (has_prefix r.path "/api/")
    then passed
    else if not (truthy configured)
    then passed
    else if r.method == "GET"
    then passed
    else if get_or "" r.api_key == configured
    then passed
    else unauthorized

abbrev public_paths : List String
public_paths = "/login" ∷ "/static" ∷ "/api/" ∷ "/favicon.ico" ∷ []

-- `DashboardAuthMiddleware.dispatch`, with the sessions that it leaves
unfoldable pub check_session : ℕ → HttpRequest → Auth → Passage × Auth
check_session now r s =
    let (known, s') = is_authenticated now r.cookie s in
    if any (has_prefix r.path) public_paths
    then (passed, s)
    else if known
    then (passed, s')
    else (if truthy (get_or "" r.htmx) then session_expired else to_login, s')

abbrev pub is_passed : Passage → Bool
is_passed passed = true
is_passed _ = false

-- both, the dashboard's first
unfoldable pub admit : ℕ → String → HttpRequest → Auth → Passage × Auth
unfolding check_session check_api_key
admit now configured r s =
    let (outcome, s') = check_session now r s in
    (if is_passed outcome then check_api_key configured r else outcome, s')

-- a request to a rule endpoint, with its clock reading
pub record RuleCall : Type 0 where
  pub now : ℕ
  pub http : HttpRequest
  pub request : Request

-- The handler runs only on an admitted request.
unfoldable pub serve_call : String → RuleCall → Database × Auth → Database × Auth
unfolding admit
serve_call configured c (db, s) =
    let (outcome, s') = admit c.now configured c.http s in
    (if is_passed outcome then serve_db c.now c.request db else db, s')

unfoldable pub serve_calls : String → List RuleCall → Database × Auth → Database × Auth
unfolding serve_call
serve_calls configured [] st = st
serve_calls configured (c ∷ calls) st = serve_calls configured calls (serve_call configured c st)
