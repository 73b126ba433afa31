-- ===== src/Salt/Client/Requests.antt =====
-- pkg/salt/client.go: the protocol of the requests of a session.
pub mod Sent
pub mod Login
use vcf_salt_operator.Prelude.{
  ℕ, String, ◌<>◌, Bool, true, false, not, ◌≡◌, ◌≢◌, ◌⊎◌, inl, inr, refl, sym, subst, arith,
  Bool-cases, List, [], ◌∷◌, Option, none, some, str_eq, ◌==◌, if◌then◌else◌,
}
use vcf_salt_operator.Kube.Error.{Error, Result, ok, err}
use vcf_salt_operator.Salt.Json.{Json, Members, as_text, get_member}
use vcf_salt_operator.Salt.Client.{
  Request, Response, Net, RaasClient, Session, Call, give, result, within, require, expect, session,
  set_jwt, set_master_pub, send, answered, kept_cookie, wait, ◌>>=◌, ◌>>◌,
}
use vcf_salt_operator.Salt.Client.Transport.{
  xsrf_token, request, parsed_members, cookies_request, fetch_cookies, login_request, login,
  rpc_request, rpc, do_post, raw_post, posted,
}
use vcf_salt_operator.Salt.Client.Documents.{Document, call_of, cookie_of}
use vcf_salt_operator.Salt.Client.Keeps.{
  KeepsSession-give, KeepsSession, session_rules, KeepsSession-bind, Leads, Leads-bind,
  Leads-within, Leads-require, Leads-stop, Leads-value, Leads-session, KeepsSession-Leads,
  Leads-KeepsSession, After,
}

-- A login is among the requests.
pub data HasLogin (net : Net) (c : RaasClient) : List Request → Type 0 where
  newest : (token : String) (t : List Request) → HasLogin net c (login_request net c token ∷ t)
  older : {t : List Request} (r : Request) → HasLogin net c t → HasLogin net c (r ∷ t)

-- A token that the server answered a login with.
pub record IsGranted (net : Net) (c : RaasClient) (jwt : String) : Type 0 where
  pub tick : ℕ
  pub token : String
  pub response : Response
  pub body : String
  pub members : Members
  pub answers : net.answer tick (login_request net c token) ≡ ok response
  pub carries : response.body ≡ ok body
  pub reads : parsed_members net c (net.parse body) ≡ some members
  pub is_token : jwt ≡ as_text (get_member "jwt" members)

-- No token, or one that was granted, behind a login.
abbrev pub Bearer : Net → RaasClient → String → List Request → Type 0
Bearer net c jwt t = (jwt ≡ "") ⊎ (HasLogin net c t × IsGranted net c jwt)

-- The token of a cookie that a response set.
pub record IsCookie (net : Net) (xsrf : String) : Type 0 where
  pub tick : ℕ
  pub origin : Request
  pub response : Response
  pub answers : net.answer tick origin ≡ ok response
  pub sets : response.xsrf_cookie ≡ some xsrf

abbrev pub Jar : Net → String → Type 0
Jar net xsrf = (xsrf ≡ "") ⊎ IsCookie net xsrf

-- The protocol, the newest request first. A login follows a request for the cookie, at once and with
-- the token of a cookie; a call carries one of the documents of the API, which have no place for credentials, and a
-- bearer token only if a login was answered with it; a request has a valid URL.
pub data Protocol (given : String → String → Members → Type 0) (net : Net) (c : RaasClient)
    : List Request → Type 0 where
  opened : Protocol given net c []
  asked :
      {t : List Request}
      → net.valid_url (c.base_url <> "/account/login") ≡ true
      → Protocol given net c t
      → Protocol given net c (cookie_of c.base_url ∷ t)
  logged_in :
      {t : List Request} {token : String}
      → (str_eq token "") ≡ false
      → Jar net token
      → net.valid_url (c.base_url <> "/account/login") ≡ true
      → Protocol given net c (cookie_of c.base_url ∷ t)
      → Protocol given net c (login_request net c token ∷ cookie_of c.base_url ∷ t)
  called :
      {t : List Request} (resource method : String) (kwarg : Members) (xsrf jwt : String)
      → Document given c.master_id resource method kwarg
      → Jar net xsrf
      → Bearer net c jwt t
      → net.valid_url (c.base_url <> "/rpc") ≡ true
      → Protocol given net c t
      → Protocol given net c (call_of c.base_url resource method kwarg xsrf jwt ∷ t)

module _ (given : String → String → Members → Type 0) (net : Net) (c : RaasClient) where
  -- The invariant of a session.
  pub record Lawful (s : Session) : Type 0 where
    pub follows : Protocol given net c s.sent
    pub cookie_from : Jar net s.xsrf
    pub token_from : Bearer net c s.jwt s.sent

  -- The cookie was asked for last.
  pub record Asked (s : Session) : Type 0 where
    pub before : List Request
    pub last : s.sent ≡ cookie_of c.base_url ∷ before
    pub lawful : Lawful s

  -- The credentials were sent.
  pub record Known (s : Session) : Type 0 where
    pub at : HasLogin net c s.sent
    pub lawful : Lawful s
