-- ===== src/Salt/Client/Transport.antt =====
-- pkg/salt/client.go, `Login`, `rawPost` and what they call: a session with the server, renewed once
-- where a token has expired.
use vcf_salt_operator.Prelude.{
  ℕ, String, ◌<>◌, Bool, not, ◌&&◌, [], ◌∷◌, ◌++◌, Option, none, some, str_eq, ltb, leb, ◌==◌,
  if◌then◌else◌,
}
use vcf_salt_operator.Prelude.Dict.{Dict}
use vcf_salt_operator.Kube.Error.{Result, ok, err, failure}
use vcf_salt_operator.Salt.Json.{
  Json, Members, object, string, no_members, member, get_member, as_text, as_members, read_members,
  is_set,
}
use vcf_salt_operator.Salt.Client.{
  get_verb, post_verb, Request, Response, Net, RaasClient, Session, Call, give, result, within,
  require, expect, session, set_jwt, send, ◌>>=◌, ◌>>◌,
}

abbrev pub unauthorized : ℕ
unauthorized = 401

-- `status >= 200 && status < 300`
abbrev pub is_success : ℕ → Bool
is_success status = leb 200 status && ltb status 300

-- A body and its status.
pub record Reply : Type 0 where
  pub body : String
  pub status : ℕ

abbrev pub bearer : String → Dict String
bearer jwt = if str_eq jwt "" then [] else ("Authorization", "Bearer " <> jwt) ∷ []

abbrev pub xsrf_header : String → Dict String
xsrf_header token = if str_eq token "" then [] else ("X-Xsrftoken", token) ∷ []

module _ (net : Net) (c : RaasClient) where
  -- `xsrfToken`, of a jar that is always there.
  unfoldable pub xsrf_token : Session → String
  xsrf_token s = if net.valid_url c.base_url then s.xsrf else ""

  -- `http.NewRequestWithContext` and `c.httpClient.Do`
  unfoldable pub request : Request → Call Response
  request r = do require (net.valid_url r.url) "build request"; send net r

  abbrev pub cookies_request : String → Request
  cookies_request path = record {
    verb = get_verb;
    url = c.base_url <> path;
    headers = ("Accept", "application/json") ∷ ("X-Requested-With", "XMLHttpRequest") ∷ [];
    payload = none;
  }

  -- `fetchCookies`: the status of the response; its body is read and dropped.
  unfoldable pub fetch_cookies : String → Call ℕ
  fetch_cookies path = do answer ← request (cookies_request path); give answer.status

  abbrev pub credentials : Json
  credentials = object (
      member "username" (string c.username) (
        member "password" (string c.password) (
          member "config_name" (string "internal")
            (member "token_type" (string "jwt") no_members))))

  abbrev pub login_request : String → Request
  login_request token = record {
    verb = post_verb;
    url = c.base_url <> "/account/login";
    headers =
        ("Content-Type", "application/json")
        ∷ ("Accept", "application/json")
        ∷ ("X-Xsrftoken", token)
        ∷ ("X-Requested-With", "XMLHttpRequest")
        ∷ [];
    payload = some credentials;
  }

  -- The members of a document that is an object, or `null`.
  abbrev pub parsed_members : Option Json → Option Members
  parsed_members none = none
  parsed_members (some v) = read_members v

  unfoldable pub login : Call (Unit {0})
  login = do
    status ← within "login failed" (fetch_cookies "/account/login")
    s ← session
    require (not (str_eq (xsrf_token s) "")) "login failed: no _xsrf cookie"
    answer ← within "login: POST /account/login" (request (login_request (xsrf_token s)))
    body ← within "login: read response" (result answer.body)
    require (is_success answer.status) "login failed: HTTP status"
    m ← expect "login: parse response" (parsed_members (net.parse body))
    let jwt = as_text (get_member "jwt" m)
    require (not (str_eq jwt "")) "login failed: no JWT in response"
    set_jwt jwt

  abbrev pub rpc_request : Json → Session → Request
  rpc_request fields s = record {
    verb = post_verb;
    url = c.base_url <> "/rpc";
    headers =
        ("Content-Type", "application/json")
        ∷ ("Accept", "application/json")
        ∷ ("X-Requested-With", "XMLHttpRequest")
        ∷ (xsrf_header (xsrf_token s) ++ bearer s.jwt);
    payload = some fields;
  }

  -- `doPost`
  unfoldable pub do_post : Json → Call Reply
  do_post fields = do
    s ← session
    answer ← within "POST /rpc" (request (rpc_request fields s))
    body ← within "read response body" (result answer.body)
    give (record { body = body; status = answer.status })

  -- `rawPost`
  unfoldable pub raw_post : Json → Call Reply
  raw_post fields = do
    reply ← do_post fields
    if reply.status == unauthorized
        then (do within "JWT expired; re-login failed" login; do_post fields)
        else give reply

  -- A post whose status must be a success, as each call of the API starts.
  unfoldable pub posted : String → Json → Call String
  posted label fields = do
    reply ← within label (raw_post fields)
    require (is_success reply.status) label
    give reply.body

-- `rpc`
abbrev pub rpc : String → String → Members → Json
rpc resource method kwarg = object (
    member "resource" (string resource)
      (member "method" (string method) (member "kwarg" (object kwarg) no_members)))

-- `checkBodyError`: a body that is no object has no error.
abbrev pub body_error : Option Members → Result (Unit {0})
body_error none = ok tt
body_error (some m) = if is_set (get_member "error" m) then err (failure "API error") else ok tt

module _ (net : Net) where
  unfoldable pub check_body_error : String → Result (Unit {0})
  check_body_error body = body_error (as_members (net.parse body))

  -- `Call`
  unfoldable pub call : RaasClient → String → String → Members → Call String
  call c resource method kwarg = do
    reply ← raw_post net c (rpc resource method kwarg)
    require (is_success reply.status) "HTTP status"
    give reply.body
