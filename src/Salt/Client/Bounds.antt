-- ===== src/Salt/Client/Bounds.antt =====
-- pkg/salt/client.go: how many requests a call sends.
use vcf_salt_operator.Prelude.{ℕ, ◌+◌, ◌≤◌, String, Bool, true, false, arith, if◌then◌else◌, ◌==◌}
use vcf_salt_operator.Prelude.Lists.{length}
use vcf_salt_operator.Salt.Client.Keeps.{KeepsSession, session_rules}
use vcf_salt_operator.Kube.Error.{Result, ok, err}
use vcf_salt_operator.Salt.Json.{Json, Members}
use vcf_salt_operator.Salt.Client.{
  Request, Response, Net, RaasClient, Session, Call, give, within, set_jwt, send, answered,
  labelled, and_then, ◌>>=◌, ◌>>◌,
}
use vcf_salt_operator.Salt.Client.Jobs.{ret_of, save_job, route_cmd, dispatch}
use vcf_salt_operator.Salt.Client.Transport.{
  posted, request, fetch_cookies, login, do_post, raw_post, unauthorized,
}

-- The call sends `n` requests at most.
pub record Sends {A : Type 0} (n : ℕ) (m : Call A) : Type 0 where
  pub at_most : (s : Session) → length (m s).1.sent ≤ n + length s.sent

sent-and_then :
    {A B : Type 0} (n k t : ℕ) (r : Result A × Session) (f : A → Call B)
    → length r.1.sent ≤ n + t
    → ((a : A) → Sends k (f a))
    → length (and_then r f).1.sent ≤ n + k + t
sent-and_then n k t (ok a, s) f h g = omega (arith, (g a).at_most s)
sent-and_then n k t (err e, s) f h g = omega arith

sent-labelled :
    {A : Type 0} (n : ℕ) (label : String) (r : Result A × Session)
    → length r.1.sent ≤ n
    → length (labelled label r).1.sent ≤ n
sent-labelled n label (ok a, s) h = h
sent-labelled n label (err e, s) h = h

Sends-bind :
    {A B : Type 0} {n k : ℕ} (m : Call A) (f : A → Call B)
    → Sends n m
    → ((a : A) → Sends k (f a))
    → Sends (n + k) (m >>= f)
unfolding ◌>>=◌
Sends-bind {n = n} {k} m f h g = record {
  at_most = λ s. sent-and_then n k (length s.sent) (m s) f (h.at_most s) g;
}

Sends-within :
    {A : Type 0} {n : ℕ} (label : String) (m : Call A) → Sends n m → Sends n (within label m)
unfolding within
Sends-within label m h = record { at_most = λ s. sent-labelled _ label (m s) (h.at_most s) }

Sends-if :
    {A : Type 0} {n : ℕ} (b : Bool) (m m' : Call A)
    → Sends n m
    → Sends n m'
    → Sends n (if b then m else m')
Sends-if true m m' h h' = h
Sends-if false m m' h h' = h'

Sends-more : {A : Type 0} {n k : ℕ} (m : Call A) → n ≤ k → Sends n m → Sends k m
Sends-more m l h = record { at_most = λ s. omega (arith, h.at_most s) }

-- A call that keeps the length of what was sent sends nothing.
Sends-nothing :
    {A : Type 0} (m : Call A) → ((t : ℕ) → KeepsSession (λ s. length s.sent ≤ t) m) → Sends 0 m
Sends-nothing m h = record {
  at_most = λ s. omega (arith, (h (length s.sent)).along s (omega arith));
}

answered-sent :
    (r : Request) (a : Result Response) (s : Session)
    → length (answered r a s).1.sent ≤ 1 + length s.sent
answered-sent r (ok a) s = omega arith
answered-sent r (err e) s = omega arith

module _ (net : Net) (c : RaasClient) where
  send-Sends : (r : Request) → Sends 1 (send net r)
  unfolding send
  send-Sends r = record { at_most = λ s. answered-sent r (net.answer s.tick r) s }

  request-Sends : (r : Request) → Sends 1 (request net c r)
  unfolding request
  request-Sends r = Sends-bind _ _ (Sends-nothing _ λ t. search session_rules) λ _. send-Sends r

  fetch_cookies-Sends : (path : String) → Sends 1 (fetch_cookies net c path)
  unfolding fetch_cookies
  fetch_cookies-Sends path =
      Sends-bind _ _ (request-Sends _) λ a. Sends-nothing _ λ t. search session_rules

  set_jwt-keeps : (t : ℕ) (jwt : String) → KeepsSession (λ s. length s.sent ≤ t) (set_jwt jwt)
  unfolding set_jwt
  set_jwt-keeps t jwt = record { along = λ s h. h }

  login-Sends : Sends 2 (login net c)
  unfolding login
  login-Sends = Sends-bind {n = 1} {k = 1} _ _ (Sends-within _ _ (fetch_cookies-Sends _)) λ status.
      Sends-bind {n = 0} {k = 1} _ _ (Sends-nothing _ λ t. search session_rules) λ s.
        Sends-bind {n = 0} {k = 1} _ _ (Sends-nothing _ λ t. search session_rules) λ _.
          Sends-bind {n = 1} {k = 0} _ _ (Sends-within _ _ (request-Sends _))
            λ a. Sends-nothing _ λ t. search (session_rules, set_jwt-keeps) depth 12

  do_post-Sends : (fields : Json) → Sends 1 (do_post net c fields)
  unfolding do_post
  do_post-Sends fields =
      Sends-bind {n = 0} {k = 1} _ _ (Sends-nothing _ λ t. search session_rules) λ s.
        Sends-bind {n = 1} {k = 0} _ _ (Sends-within _ _ (request-Sends _))
          λ a. Sends-nothing _ λ t. search session_rules depth 8

  again-Sends :
      (fields : Json)
      → Sends 3 (do within "JWT expired; re-login failed" (login net c); do_post net c fields)
  again-Sends fields =
      Sends-bind {n = 2} {k = 1} _ _ (Sends-within _ _ login-Sends) λ _. do_post-Sends fields

  pub raw_post-Sends : (fields : Json) → Sends 4 (raw_post net c fields)
  unfolding raw_post
  raw_post-Sends fields = Sends-bind {n = 1} {k = 3} _ _ (do_post-Sends fields) λ r.
      Sends-if (r.status == unauthorized) _ (give r) (again-Sends fields)
        (Sends-more (give r) (omega arith) (Sends-nothing (give r) λ t. search session_rules))

  posted-Sends : (label : String) (fields : Json) → Sends 4 (posted net c label fields)
  unfolding posted
  posted-Sends label fields =
      Sends-bind {n = 4} {k = 0} _ _ (Sends-within _ _ (raw_post-Sends fields))
        λ r. Sends-nothing _ λ t. search session_rules depth 8

  ret_of-Sends : (label body : String) → Sends 0 (ret_of net c label body)
  unfolding ret_of
  ret_of-Sends label body = Sends-nothing _ λ t. search session_rules depth 12

  save_job-Sends : (name fun : String) (kwarg : Members) → Sends 4 (save_job net c name fun kwarg)
  unfolding save_job
  save_job-Sends name fun kwarg =
      Sends-bind {n = 4} {k = 0} _ _ (posted-Sends _ _) λ body. ret_of-Sends _ body

  route_cmd-Sends : (job_uuid id : String) → Sends 4 (route_cmd net c job_uuid id)
  unfolding route_cmd
  route_cmd-Sends job_uuid id =
      Sends-bind {n = 4} {k = 0} _ _ (posted-Sends _ _) λ body. ret_of-Sends _ body

  dispatch-Sends : (id fun : String) (kwarg : Members) → Sends 8 (dispatch net c id fun kwarg)
  unfolding dispatch
  dispatch-Sends id fun kwarg =
      Sends-bind {n = 4} {k = 4} _ _ (save_job-Sends _ fun kwarg) λ job. route_cmd-Sends job id

-- A post renews its token at most once: it sends four requests at most, whatever the server
-- answers, and the two posts that dispatch a job send eight at most.
pub dispatch_bound :
    (net : Net) (c : RaasClient) (s : Session) (fields : Json) (id fun : String) (kwarg : Members)
    → (length (raw_post net c fields s).1.sent ≤ 4 + length s.sent)
      × (length (dispatch net c id fun kwarg s).1.sent ≤ 8 + length s.sent)
dispatch_bound net c s fields id fun kwarg =
    ((raw_post-Sends net c fields).at_most s, (dispatch-Sends net c id fun kwarg).at_most s)
