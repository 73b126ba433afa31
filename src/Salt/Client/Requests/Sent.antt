-- ===== src/Salt/Client/Requests/Sent.antt =====
-- pkg/salt/client.go: what a request makes of a session that follows the protocol.
use vcf_salt_operator.Prelude.{
  ℕ, String, ◌<>◌, true, false, ◌≡◌, inl, inr, refl, sym, subst, Bool-cases, ◌∷◌, Option, none,
  some, str_eq,
}
use vcf_salt_operator.Kube.Error.{Result, ok, err}
use vcf_salt_operator.Salt.Json.{Members}
use vcf_salt_operator.Salt.Client.{
  Request, Response, Net, RaasClient, Session, send, answered, kept_cookie,
}
use vcf_salt_operator.Salt.Client.Transport.{xsrf_token, request, login_request, rpc_request, rpc}
use vcf_salt_operator.Salt.Client.Documents.{Document, cookie_of}
use vcf_salt_operator.Salt.Client.Keeps.{
  Leads, Leads-bind, Leads-require, Leads-stop, Leads-value, After,
}
use vcf_salt_operator.Salt.Client.Requests.{
  HasLogin, newest, older, Bearer, Jar, Protocol, asked, logged_in, called, Lawful, Asked, Known,
}

older_token :
    (s : Session) (net : Net) (c : RaasClient) (r : Request)
    → Bearer net c s.jwt s.sent
    → Bearer net c s.jwt (r ∷ s.sent)
older_token s net c r (inl e) = inl e
older_token s net c r (inr (h, g)) = inr (older r h, g)

-- A session after a request.
abbrev pub Over : Net → (Session → Type 0) → Request → Session → Type 0
Over net Q r s = (a : Result Response) → net.answer s.tick r ≡ a → Q (answered r a s).1

-- The jar after a response.
Jar-kept_cookie :
    (net : Net) (r : Request) (old : String) (t : ℕ) (x : Response) (o : Option String)
    → net.answer t r ≡ ok x
    → x.xsrf_cookie ≡ o
    → Jar net old
    → Jar net (kept_cookie old o)
Jar-kept_cookie net r old t x none f e h = h
Jar-kept_cookie net r old t x (some new) f e h =
    inr (record { tick = t; origin = r; response = x; answers = f; sets = e })

-- The token that a session sends is in the jar.
pub xsrf_token-Jar :
    (net : Net) (c : RaasClient) (s : Session) → Jar net s.xsrf → Jar net (xsrf_token net c s)
unfolding xsrf_token
xsrf_token-Jar net c s h = elim (Bool-cases (net.valid_url c.base_url)) [
  | inl y ↦ rw y h
  | inr n ↦ rw n (inl refl)
]

After-answered :
    (net : Net) (Q R : Session → Type 0) (r : Request) (a : Result Response) (s : Session)
    → net.answer s.tick r ≡ a
    → Over net Q r s
    → Over net R r s
    → After (λ x s'. ((t : ℕ) × (net.answer t r ≡ ok x)) × Q s') R (answered r a s)
After-answered net Q R r (ok a) s f q e = ((s.tick, f), q (ok a) f)
After-answered net Q R r (err x) s f q e = e (err x) f

module _ (given : String → String → Members → Type 0) (net : Net) (c : RaasClient) where
  Leads-send :
      {P Q R : Session → Type 0} (r : Request)
      → ((s : Session) → P s → Over net Q r s)
      → ((s : Session) → P s → Over net R r s)
      → Leads P (λ x s. ((t : ℕ) × (net.answer t r ≡ ok x)) × Q s) R (send net r)
  unfolding send
  Leads-send {Q = Q} {R} r q e = record {
    from = λ s h. After-answered net Q R r (net.answer s.tick r) s refl (q s h) (e s h);
  }

  -- A request, with the answer of the server at hand.
  pub Leads-answered :
      {P Q R : Session → Type 0} (r : Request)
      → ((s : Session) → P s → R s)
      → ((s : Session) → (net.valid_url r.url ≡ true) × P s → Over net Q r s)
      → ((s : Session) → (net.valid_url r.url ≡ true) × P s → Over net R r s)
      → Leads P (λ x s. ((t : ℕ) × (net.answer t r ≡ ok x)) × Q s) R (request net c r)
  unfolding request
  Leads-answered r stay q e =
      Leads-bind _ _ (Leads-stop _ stay (Leads-require _ _)) λ _. Leads-send r q e

  pub Leads-request :
      {P Q R : Session → Type 0} (r : Request)
      → ((s : Session) → P s → R s)
      → ((s : Session) → (net.valid_url r.url ≡ true) × P s → Over net Q r s)
      → ((s : Session) → (net.valid_url r.url ≡ true) × P s → Over net R r s)
      → Leads P (λ _. Q) R (request net c r)
  Leads-request r stay q e = Leads-value _ (λ x s h. h.1) (Leads-answered r stay q e)

  Lawful-after :
      (r : Request) (s : Session) (a : Result Response)
      → Protocol given net c (r ∷ s.sent)
      → Bearer net c s.jwt (r ∷ s.sent)
      → Jar net s.xsrf
      → net.answer s.tick r ≡ a
      → Lawful given net c (answered r a s).1
  Lawful-after r s (ok a) p t j f = record {
    follows = p;
    cookie_from = Jar-kept_cookie net r s.xsrf s.tick a _ f refl j;
    token_from = t;
  }
  Lawful-after r s (err e) p t j f = record { follows = p; cookie_from = j; token_from = t }

  sent_after :
      (r : Request) (s : Session) (a : Result Response) → (answered r a s).1.sent ≡ r ∷ s.sent
  sent_after r s (ok a) = refl
  sent_after r s (err e) = refl

  pub Lawful-call :
      (resource method : String) (kwarg : Members) (s s' : Session)
      → Document given c.master_id resource method kwarg
      → (s' ≡ s) × Lawful given net c s
      → net.valid_url (c.base_url <> "/rpc") ≡ true
      → Over net (Lawful given net c) (rpc_request net c (rpc resource method kwarg) s') s
  Lawful-call resource method kwarg s s' sent (e, h) v a f =
      Lawful-after _ s a
        (called resource method kwarg (xsrf_token net c s') s'.jwt sent
          (xsrf_token-Jar net c s' (rw e (h.cookie_from))) (rw e (h.token_from)) v h.follows)
        (older_token s net c _ h.token_from) h.cookie_from f

  pub Asked-after :
      (s : Session)
      → (net.valid_url (c.base_url <> "/account/login") ≡ true) × Lawful given net c s
      → Over net (Asked given net c) (cookie_of c.base_url) s
  Asked-after s (v, h) a f = record {
    before = s.sent;
    last = sent_after _ s a;
    lawful =
        Lawful-after _ s a (asked v h.follows) (older_token s net c _ h.token_from) h.cookie_from f;
  }

  login_follows :
      (token : String) (s : Session)
      → (str_eq token "") ≡ false
      → Jar net token
      → net.valid_url (c.base_url <> "/account/login") ≡ true
      → Asked given net c s
      → Protocol given net c (login_request net c token ∷ s.sent)
  login_follows token s n j v h =
      subst (λ t. Protocol given net c (login_request net c token ∷ t)) (sym (h.last))
        (logged_in n j v (subst (Protocol given net c) (h.last) (h.lawful.follows)))

  pub Known-after :
      (token : String) (s : Session)
      → (str_eq token "") ≡ false
      → Jar net token
      → (net.valid_url (c.base_url <> "/account/login") ≡ true) × Asked given net c s
      → Over net (Known given net c) (login_request net c token) s
  Known-after token s n j (v, h) a f = record {
    at = subst (HasLogin net c) (sym (sent_after _ s a)) (newest token s.sent);
    lawful =
        Lawful-after _ s a (login_follows token s n j v h)
          (older_token s net c _ h.lawful.token_from) h.lawful.cookie_from f;
  }
