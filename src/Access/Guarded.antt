-- ===== src/Access/Guarded.antt =====
-- What the middlewares of sentinel_home/api/middleware.py and sentinel_home/dashboard/routes.py guard.
use sentinel_home.Prelude.{
  ℕ, ◌≤◌, String, ◌≡◌, ◌≢◌, refl, sym, ◌∙◌, ap, inl, inr, Bool, true, false, Option, none, some,
  List, [], ◌∷◌, arith, All, any, map, select, truthy, has_prefix, Bool-cases, ◌==◌, string_eq,
  if◌then◌else◌,
}
use sentinel_home.Prelude.Dict.{lookup}
use sentinel_home.Models.{Database, get_or}
use sentinel_home.Auth.{Auth, get_password_hash, is_authenticated}
use sentinel_home.Auth.Sessions.{is_authenticated_iff}
use sentinel_home.Rules.{Request, serve_db}
use sentinel_home.Rules.Numbering.{serve_all}
use sentinel_home.Access.{
  HttpRequest, Passage, passed, is_passed, check_api_key, check_session, admit, RuleCall,
  serve_call, serve_calls,
}

-- a path that anybody may ask for
abbrev pub is_open_path : String → Bool
is_open_path path = any (has_prefix path) ("/login" ∷ "/static" ∷ "/favicon.ico" ∷ [])

-- the cookie of a session that has not run out
abbrev pub HasSession : ℕ → HttpRequest → Auth → Type 0
HasSession now r s =
    (token : String) × (expiry : ℕ) × (r.cookie ≡ some token)
    × (lookup token s.sessions ≡ some expiry)
    × (now ≤ expiry)

check_session-api :
    (now : ℕ) (r : HttpRequest) (s : Auth)
    → has_prefix r.path "/api/" ≡ true
    → check_session now r s ≡ (passed, s)
unfolding check_session
check_session-api now r s api = ground (arith, api)

admit-api :
    (now : ℕ) (configured : String) (r : HttpRequest) (s : Auth)
    → has_prefix r.path "/api/" ≡ true
    → admit now configured r s ≡ (check_api_key configured r, s)
unfolding admit
admit-api now configured r s api = rw (check_session-api now r s api) refl

-- the right key is sent
abbrev pub sends_key : String → HttpRequest → Bool
sends_key configured r = get_or "" r.api_key == configured

check_api_key-guarded :
    (configured : String) (r : HttpRequest)
    → truthy configured ≡ true
    → has_prefix r.path "/api/" ≡ true
    → r.method ≢ "GET"
    → is_passed (check_api_key configured r) ≡ sends_key configured r
unfolding check_api_key
check_api_key-guarded configured r set api writes =
    let other : (r.method == "GET") ≡ false =
      ground (arith, string_eq.decides r.method "GET", writes) in
    ground (arith, set, api, other)

sent_key :
    (configured : String) (key : Option String)
    → truthy configured ≡ true
    → (get_or "" key == configured) ≡ true
    → key ≡ some configured
sent_key configured none set same =
    ground (arith, set, same, string_eq.decides "" configured, string_eq.decides configured "")
sent_key configured (some k) set same = ap some ((string_eq.decides k configured).0 same)

check_session-pages :
    (now : ℕ) (r : HttpRequest) (s : Auth)
    → has_prefix r.path "/api/" ≡ false
    → is_open_path r.path ≡ false
    → is_passed (check_session now r s).0 ≡ (is_authenticated now r.cookie s).0
unfolding check_session
check_session-pages now r s pages closed = ground (arith, pages, closed)

admit-pages :
    (now : ℕ) (configured : String) (r : HttpRequest) (s : Auth)
    → is_passed (admit now configured r s).0 ≡ true
    → is_passed (check_session now r s).0 ≡ true
unfolding admit
admit-pages now configured r s passes = elim (Bool-cases (is_passed (check_session now r s).0)) [
  | inl known ↦ known
  | inr stopped ↦ absurd (ground (arith, stopped, passes))
]

-- With an API key set, and a password that the database gives, a request that is admitted, is not a GET
-- and does not ask for the login page or a static file carries the key, if its path lies under /api/,
-- and otherwise the cookie of a session that has not run out.
pub admit-trusted :
    (now : ℕ) (configured : String) (r : HttpRequest) (s : Auth) (hash : String)
    → truthy configured ≡ true
    → get_password_hash s ≡ some hash
    → r.method ≢ "GET"
    → is_open_path r.path ≡ false
    → is_passed (admit now configured r s).0 ≡ true
    → if has_prefix r.path "/api/" then (r.api_key ≡ some configured) else HasSession now r s
admit-trusted now configured r s hash set password writes closed passes =
    elim (Bool-cases (has_prefix r.path "/api/")) [
      | inl api ↦
          let sent : sends_key configured r ≡ true =
            sym (check_api_key-guarded configured r set api writes)
            ∙ ap (λ o. is_passed o.0) (sym (admit-api now configured r s api))
            ∙ passes in
          rw api (sent_key configured r.api_key set sent)
      | inr pages ↦
          let known : (is_authenticated now r.cookie s).0 ≡ true =
            sym (check_session-pages now r s pages closed)
            ∙ admit-pages now configured r s passes in
          elim ((is_authenticated_iff now r.cookie s).0 known) [
            | inl nobody ↦ absurd cc
            | inr (token, expiry, cookie, named, held, started, alive) ↦
                rw pages (token, expiry, cookie, held, alive)
          ]
    ]

-- a request for a rule endpoint that writes
abbrev pub IsWrite : RuleCall → Type 0
IsWrite c = (has_prefix c.http.path "/api/" ≡ true) × (c.http.method ≢ "GET")

abbrev pub request_of : RuleCall → ℕ × Request
request_of c = (c.now, c.request)

serve_call-write :
    (configured : String) (c : RuleCall) (db : Database) (s : Auth)
    → truthy configured ≡ true
    → IsWrite c
    → serve_call configured c (db, s)
      ≡ (if sends_key configured c.http then serve_db c.now c.request db else db, s)
unfolding serve_call
serve_call-write configured c db s set write =
    let step : Passage × Auth → Database × Auth =
      λ o. (if is_passed o.0 then serve_db c.now c.request db else db, o.1) in
    ap step (admit-api c.now configured c.http s write.0)
    ∙ ap (λ b. (if b then serve_db c.now c.request db else db, s))
        (check_api_key-guarded configured c.http set write.0 write.1)

-- With an API key set, requests to the endpoints of rules whose paths lie under /api/ and whose method is
-- not GET have the effect, one after the other, of those among them that carry the key, and the others
-- none; the sessions stay as they are.
pub serve_calls-serve_all :
    (configured : String) (calls : List RuleCall) (db : Database) (s : Auth)
    → truthy configured ≡ true
    → All IsWrite calls
    → serve_calls configured calls (db, s)
      ≡ (serve_all (map request_of (select (λ c. sends_key configured c.http) calls)) db, s)
unfolding serve_calls
serve_calls-serve_all configured [] db s set writes = refl
serve_calls-serve_all configured (c ∷ calls) db s set writes =
    let step = serve_call-write configured c db s set writes.0 in
    elim (Bool-cases (sends_key configured c.http)) [
      | inl keyed ↦
          rw (step, keyed)
            (serve_calls-serve_all configured calls (serve_db c.now c.request db) s set writes.1)
      | inr bare ↦ rw (step, bare) (serve_calls-serve_all configured calls db s set writes.1)
    ]
