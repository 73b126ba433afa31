-- ===== src/Salt/Client/Clock.antt =====
-- pkg/salt/client.go: the clock of a session, which counts its requests and waits.
use vcf_salt_operator.Prelude.{ℕ, ◌≤◌, String, arith}
use vcf_salt_operator.Kube.Error.{Result, ok, err}
use vcf_salt_operator.Salt.Json.{Json}
use vcf_salt_operator.Salt.Client.{
  Request, Response, Net, RaasClient, Session, set_jwt, set_master_pub, send, answered, wait,
}
use vcf_salt_operator.Salt.Client.Transport.{request, fetch_cookies, login, do_post, raw_post}
use vcf_salt_operator.Salt.Client.Keeps.{KeepsSession, session_rules}
use vcf_salt_operator.Salt.Client.Calls.{IsStable}

-- `n` requests and waits at least.
abbrev pub Since : ℕ → Session → Type 0
Since n s = n ≤ s.tick

answered_tick :
    (n : ℕ) (r : Request) (a : Result Response) (s : Session)
    → n ≤ s.tick
    → n ≤ (answered r a s).1.tick
answered_tick n r (ok a) s h = omega arith
answered_tick n r (err e) s h = omega arith

module _ (net : Net) (c : RaasClient) (n : ℕ) where
  send-Since : (r : Request) → KeepsSession (Since n) (send net r)
  unfolding send
  send-Since r = record { along = λ s h. answered_tick n r (net.answer s.tick r) s h }

  request-Since : (r : Request) → KeepsSession (Since n) (request net c r)
  unfolding request
  request-Since r = search (session_rules, send-Since) depth 8

  fetch_cookies-Since : (path : String) → KeepsSession (Since n) (fetch_cookies net c path)
  unfolding fetch_cookies
  fetch_cookies-Since path = search (session_rules, request-Since) depth 8

  set_jwt-Since : (jwt : String) → KeepsSession (Since n) (set_jwt jwt)
  unfolding set_jwt
  set_jwt-Since jwt = record { along = λ s h. h }

  login-Since : KeepsSession (Since n) (login net c)
  unfolding login
  login-Since = search (session_rules, request-Since, fetch_cookies-Since, set_jwt-Since) depth 24

  do_post-Since : (fields : Json) → KeepsSession (Since n) (do_post net c fields)
  unfolding do_post
  do_post-Since fields = search (session_rules, request-Since) depth 12

  raw_post-Since : (fields : Json) → KeepsSession (Since n) (raw_post net c fields)
  unfolding raw_post
  raw_post-Since fields = search (session_rules, do_post-Since, login-Since) depth 12

  wait-Since : KeepsSession (Since n) (wait net)
  unfolding wait
  wait-Since = record { along = λ s h. omega arith }

  set_master_pub-Since : (key : String) → KeepsSession (Since n) (set_master_pub key)
  unfolding set_master_pub
  set_master_pub-Since key = record { along = λ s h. h }

  pub Since-IsStable : IsStable (λ resource method kwarg. Unit) net c (Since n)
  Since-IsStable = record {
    at_post = λ resource method kwarg sent. raw_post-Since _;
    at_wait = wait-Since;
    at_login = login-Since;
    at_master_pub = set_master_pub-Since;
  }
