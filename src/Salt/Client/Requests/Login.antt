-- ===== src/Salt/Client/Requests/Login.antt =====
-- pkg/salt/client.go, `Login` and `rawPost`, and the protocol of the requests.
use vcf_salt_operator.Prelude.{ℕ, String, true, false, not, ◌≡◌, inl, inr, refl, arith, str_eq}
use vcf_salt_operator.Salt.Json.{Members, as_text, get_member}
use vcf_salt_operator.Kube.Error.{ok}
use vcf_salt_operator.Salt.Client.Documents.{Document}
use vcf_salt_operator.Salt.Client.{
  Net, RaasClient, Response, Session, session, result, within, require, expect, set_jwt,
  set_master_pub, wait, ◌>>=◌, ◌>>◌,
}
use vcf_salt_operator.Salt.Client.Transport.{
  xsrf_token, is_success, parsed_members, login_request, fetch_cookies, login, rpc, do_post,
  raw_post,
}
use vcf_salt_operator.Salt.Client.Keeps.{
  KeepsSession-give, KeepsSession, session_rules, Leads, Leads-bind, Leads-within, Leads-require,
  Leads-stop, Leads-session, Leads-result, Leads-expect, Leads-given, KeepsSession-Leads,
  Leads-KeepsSession,
}
use vcf_salt_operator.Salt.Client.Calls.{IsStable}
use vcf_salt_operator.Salt.Client.Sessions.{ApiReach, ApiReach-Keeps}
use vcf_salt_operator.Salt.Client.Requests.{Protocol, opened, Lawful, Asked, Known, IsGranted, Jar}
use vcf_salt_operator.Salt.Client.Requests.Sent.{
  Asked-after, Known-after, Lawful-call, Leads-request, Leads-answered, xsrf_token-Jar,
}

not_empty : (s : String) → not (str_eq s "") ≡ true → str_eq s "" ≡ false
not_empty s e = ground arith

module _ (given : String → String → Members → Type 0) (net : Net) (c : RaasClient) where
  fetch_cookies-Leads :
      Leads
        (Lawful given net c)
        (λ _. Asked given net c)
        (Lawful given net c)
        (fetch_cookies net c "/account/login")
  unfolding fetch_cookies
  fetch_cookies-Leads =
      Leads-bind _ _
        (Leads-request given net c _ (λ s h. h) (Asked-after given net c)
          λ s h a f. (Asked-after given net c s h a f).lawful)
        λ a. Leads-stop _ (λ s h. h.lawful) (Leads-KeepsSession _ (KeepsSession-give a.status))

  -- The token is kept: it is the one that the server granted.
  set_jwt-Leads :
      (jwt : String)
      → IsGranted net c jwt
      → Leads (Known given net c) (λ _. Lawful given net c) (Lawful given net c) (set_jwt jwt)
  unfolding set_jwt
  set_jwt-Leads jwt g = record {
    from = λ s h. record {
      follows = h.lawful.follows;
      cookie_from = h.lawful.cookie_from;
      token_from = inr (h.at, g);
    };
  }

  -- A login behind the answer of the server.
  granted-Leads :
      (token : String) (a : Response)
      → ((t : ℕ) × (net.answer t (login_request net c token) ≡ ok a))
      → Leads
          (Known given net c)
          (λ _. Lawful given net c)
          (Lawful given net c)
          (do
            body ← within "login: read response" (result a.body)
            require (is_success a.status) "login failed: HTTP status"
            m ← expect "login: parse response" (parsed_members net c (net.parse body))
            let jwt = as_text (get_member "jwt" m)
            require (not (str_eq jwt "")) "login failed: no JWT in response"
            set_jwt jwt)
  granted-Leads token a (t, e) =
      Leads-bind _ _ (Leads-stop _ known (Leads-within _ _ (Leads-result a.body))) λ body.
        Leads-given _ λ carries. Leads-bind _ _ (Leads-stop _ known (Leads-require _ _)) λ _.
          Leads-given _ λ _. Leads-bind _ _ (Leads-stop _ known (Leads-expect _ _)) λ m.
            Leads-given _ λ reads. Leads-bind _ _ (Leads-stop _ known (Leads-require _ _)) λ _.
              Leads-given _ λ _. set_jwt-Leads _ (record {
                tick = t;
                token = token;
                response = a;
                body = body;
                members = m;
                answers = e;
                carries = carries;
                reads = reads;
                is_token = refl;
              })
    where
      known : (s : Session) → Known given net c s → Lawful given net c s
      known s h = h.lawful

  -- The session that a login reads, and the token of its cookie.
  token_session :
      Leads
        (Asked given net c)
        (λ s' s. Jar net (xsrf_token net c s') × Asked given net c s)
        (Asked given net c)
        session
  unfolding session
  token_session = record { from = λ s h. (xsrf_token-Jar net c s h.lawful.cookie_from, h) }

  login-Leads :
      Leads (Lawful given net c) (λ _. Lawful given net c) (Lawful given net c) (login net c)
  unfolding login
  login-Leads = Leads-bind _ _ (Leads-within _ _ fetch_cookies-Leads) λ status.
      Leads-bind _ _ (Leads-stop _ (λ s h. h.lawful) token_session) λ s'. Leads-given _ λ j.
        Leads-bind _ _ (Leads-stop _ (λ s h. h.lawful) (Leads-require _ _)) λ _.
          Leads-bind _ _
            (Leads-within _ _ (
              Leads-answered given net c _ (λ s h. h.1.lawful)
                (λ s h. Known-after given net c _ s (not_empty _ (h.1.0)) j (h.0, h.1.1))
                λ s h a f.
                  (Known-after given net c _ s (not_empty _ (h.1.0)) j (h.0, h.1.1) a f).lawful))
            λ a. Leads-given _ λ answers. granted-Leads _ a answers

  login-Lawful : KeepsSession (Lawful given net c) (login net c)
  login-Lawful = KeepsSession-Leads _ login-Leads

  do_post-Keeps :
      (resource method : String) (kwarg : Members)
      → Document given c.master_id resource method kwarg
      → KeepsSession (Lawful given net c) (do_post net c (rpc resource method kwarg))
  unfolding do_post
  do_post-Keeps resource method kwarg sent = KeepsSession-Leads _ (
      Leads-bind _ _ Leads-session λ s'.
        Leads-bind _ _
          (Leads-within _ _ (
            Leads-request given net c _ (λ s h. h.1)
              (λ s h. Lawful-call given net c resource method kwarg s s' sent h.1 (h.0))
              λ s h. Lawful-call given net c resource method kwarg s s' sent h.1 (h.0)))
          λ a. Leads-KeepsSession _ (search session_rules depth 8))

  raw_post-Keeps :
      (resource method : String) (kwarg : Members)
      → Document given c.master_id resource method kwarg
      → KeepsSession (Lawful given net c) (raw_post net c (rpc resource method kwarg))
  unfolding raw_post
  raw_post-Keeps resource method kwarg sent =
      search (session_rules, do_post-Keeps, login-Lawful) depth 12

  wait-Lawful : KeepsSession (Lawful given net c) (wait net)
  unfolding wait
  wait-Lawful = record {
    along = λ s h. record {
      follows = h.follows;
      cookie_from = h.cookie_from;
      token_from = h.token_from;
    };
  }

  set_master_pub-Lawful : (key : String) → KeepsSession (Lawful given net c) (set_master_pub key)
  unfolding set_master_pub
  set_master_pub-Lawful key = record {
    along = λ s h. record {
      follows = h.follows;
      cookie_from = h.cookie_from;
      token_from = h.token_from;
    };
  }

  Lawful-IsStable : IsStable given net c (Lawful given net c)
  Lawful-IsStable = record {
    at_post = raw_post-Keeps;
    at_wait = wait-Lawful;
    at_login = login-Lawful;
    at_master_pub = set_master_pub-Lawful;
  }

-- In each session that calls of the API lead to, whatever the server answers, the requests sent follow
-- the protocol: a login comes at once after a request for the cookie and carries a token that is not
-- empty, of a cookie that the server set; every other request is the one for the cookie, or a call whose document is written out for
-- the API without the credentials or given by a caller of `Call`, whose cookie token is empty or one that
-- the server set, and whose bearer token is empty or the one that the server answered an earlier login with.
pub ApiReach-Protocol :
    (given : String → String → Members → Type 0) (net : Net) (c : RaasClient) (s : Session)
    → ApiReach given net c s
    → Protocol given net c s.sent
ApiReach-Protocol given net c s r =
    (ApiReach-Keeps (Lawful-IsStable given net c)
      (record { follows = opened; cookie_from = inl refl; token_from = inl refl }) r).follows
