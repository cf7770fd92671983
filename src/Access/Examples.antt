-- ===== src/Access/Examples.antt =====
-- The theorems about the middlewares at concrete requests.
use sentinel_home.Prelude.{
  String, string_eq, ◌≡◌, ◌≢◌, refl, true, false, none, some, List, [], ◌∷◌, arith, map, select,
  has_prefix,
}
use sentinel_home.Models.{Database}
use sentinel_home.Auth.{Auth}
use sentinel_home.Rules.{freeze, delete}
use sentinel_home.Rules.Numbering.{serve_all}
use sentinel_home.Access.{HttpRequest, is_passed, admit, RuleCall, serve_calls}
use sentinel_home.Access.Guarded.{sends_key, request_of, admit-trusted, serve_calls-serve_all}

abbrev request : String → HttpRequest
request key = record {
  path = "/api/v1/rules/1";
  method = "DELETE";
  api_key = some key;
  htmx = none;
  cookie = none;
}

abbrev auth : Auth
auth = record { sessions = ("u", 50) ∷ []; failures = []; stored = some "ab$cd"; available = true }

abbrev db : Database
db = record {
  available = true;
  rules = [];
  versions = [];
  patterns = [];
  jobs = [];
  findings = [];
  alerts = [];
  baselines = [];
  devices = [];
  events = [];
}

writes : (method : String) → (string_eq.equals method "GET" ≡ false) → method ≢ "GET"
writes method other e = ground (arith, string_eq.decides method "GET", e, other)

admitted : is_passed (admit 9 "secret" (request "secret") auth).0 ≡ true
unfolding admit has_prefix
admitted = refl

admit-trusted_example : (request "secret").api_key ≡ some "secret"
unfolding has_prefix
admit-trusted_example =
    admit-trusted 9 "secret" (request "secret") auth "ab$cd" refl refl (writes "DELETE" refl) refl
      admitted

abbrev calls : List RuleCall
calls =
    record { now = 1; http = request "guess"; request = delete 1 }
    ∷ record { now = 2; http = request "secret"; request = freeze 1 }
    ∷ []

serve_calls-serve_all_example :
    serve_calls "secret" calls (db, auth)
    ≡ (serve_all (map request_of (select (λ c. sends_key "secret" c.http) calls)) db, auth)
unfolding has_prefix
serve_calls-serve_all_example =
    serve_calls-serve_all "secret" calls db auth refl
      ((refl, writes "DELETE" refl), ((refl, writes "DELETE" refl), tt))
