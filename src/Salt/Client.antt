-- ===== src/Salt/Client.antt =====
-- pkg/salt/client.go: the client of the Salt API. A call changes the session of its client and may
-- end with an error.
pub mod Transport
pub mod Keys
pub mod Jobs
pub mod Wheel
pub mod Documents
pub mod Keeps
pub mod Calls
pub mod Sessions
pub mod Requests
pub mod Answers
pub mod Listings
pub mod Bounds
pub mod Clock
pub mod Settles
pub mod Deadline
use vcf_salt_operator.Prelude.{
  ℕ, suc, String, ◌<>◌, Bool, true, false, List, [], ◌∷◌, Option, none, some,
}
use vcf_salt_operator.Prelude.Dict.{Dict}
use vcf_salt_operator.Kube.Error.{Error, Result, ok, err, failure, context}
use vcf_salt_operator.Raasconn.{Connection}
use vcf_salt_operator.Salt.Json.{Json, trim_slashes}
use vcf_salt_operator.Salt.Unicode.{Unicode}

pub data Verb : Type 0 where
  get_verb post_verb : Verb

-- `http.Request`, its body a document.
pub record Request : Type 0 where
  pub verb : Verb
  pub url : String
  pub headers : Dict String
  pub payload : Option Json

-- `http.Response`: the status, what is read of the body (cut at the limit that the code sets), and
-- the `_xsrf` cookie that it leaves in the jar, if it sets one.
pub record Response : Type 0 where
  pub status : ℕ
  pub body : Result String
  pub xsrf_cookie : Option String

-- The network and the libraries: an answer depends on the number of requests and waits before it.
pub record Net : Type 0 where
  pub unicode : Unicode
  -- `json.Unmarshal`, before the shape of the result is looked at.
  pub parse : String → Option Json
  pub valid_url : String → Bool
  pub answer : ℕ → Request → Result Response
  -- Whether the context is done where a loop waits.
  pub expired : ℕ → Bool

-- `RaaSClient`, without what its calls change.
pub record RaasClient : Type 0 where
  pub base_url : String
  pub username : String
  pub password : String
  pub master_id : String

-- What the calls change: the token, the master's key that was read, the jar, and, newest first,
-- the requests sent. `tick` counts the requests and the waits.
pub record Session : Type 0 where
  pub jwt : String
  pub master_pub : String
  pub xsrf : String
  pub tick : ℕ
  pub sent : List Request

-- `NewRaaSClient`
unfoldable pub new_raas_client : Connection → RaasClient
new_raas_client conn = record {
  base_url = trim_slashes conn.url;
  username = conn.username;
  password = conn.password;
  master_id = conn.master_id;
}

-- `KeyPair`
pub record KeyPair : Type 0 where
  pub pub_key : String
  pub priv_key : String

abbrev pub new_session : Session
new_session = record { jwt = ""; master_pub = ""; xsrf = ""; tick = 0; sent = [] }

abbrev pub Call : Type 0 → Type 0
Call A = Session → Result A × Session

unfoldable pub give : {A : Type 0} → A → Call A
give a s = (ok a, s)

unfoldable pub refuse : {A : Type 0} → Error → Call A
refuse e s = (err e, s)

-- A result that needs no request.
unfoldable pub result : {A : Type 0} → Result A → Call A
result r s = (r, s)

abbrev pub labelled : {A : Type 0} → String → Result A × Session → Result A × Session
labelled label (ok a, s) = (ok a, s)
labelled label (err e, s) = (err (context label e), s)

-- `if err != nil { return fmt.Errorf(text, err) }`
unfoldable pub within : {A : Type 0} → String → Call A → Call A
within label m s = labelled label (m s)

-- `if !test { return fmt.Errorf(text) }`
unfoldable pub require : Bool → String → Call (Unit {0})
require true label s = (ok tt, s)
require false label s = (err (failure label), s)

-- A value that a document must have.
unfoldable pub expect : {A : Type 0} → String → Option A → Call A
expect label none s = (err (failure label), s)
expect label (some a) s = (ok a, s)

unfoldable pub session : Call Session
session s = (ok s, s)

unfoldable pub set_jwt : String → Call (Unit {0})
set_jwt jwt s = (ok tt, record s { jwt = jwt })

unfoldable pub set_master_pub : String → Call (Unit {0})
set_master_pub key s = (ok tt, record s { master_pub = key })

-- The jar after a response.
abbrev pub kept_cookie : String → Option String → String
kept_cookie old none = old
kept_cookie old (some new) = new

abbrev pub answered : Request → Result Response → Session → Result Response × Session
answered r (ok a) s = (
  ok a,
  record s { tick = suc s.tick; sent = r ∷ s.sent; xsrf = kept_cookie s.xsrf a.xsrf_cookie },
)
answered r (err e) s = (err e, record s { tick = suc s.tick; sent = r ∷ s.sent })

-- `c.httpClient.Do`
unfoldable pub send : Net → Request → Call Response
send net r s = answered r (net.answer s.tick r) s

-- `select { case <-ctx.Done(): ... case <-time.After(...): }`: whether the context ended the wait.
unfoldable pub wait : Net → Call Bool
wait net s = (ok (net.expired s.tick), record s { tick = suc s.tick })

abbrev pub and_then : {A B : Type 0} → Result A × Session → (A → Call B) → Result B × Session
and_then (ok a, s) f = f a s
and_then (err e, s) f = (err e, s)

infixl 5 ◌>>=◌ ◌>>◌
-- Opening this opens the calls above.
unfoldable pub ◌>>=◌ : {A B : Type 0} → Call A → (A → Call B) → Call B
unfolding give refuse result within require expect session set_jwt set_master_pub send wait
◌>>=◌ m f s = and_then (m s) f

abbrev pub ◌>>◌ : {B : Type 0} → Call (Unit {0}) → Call B → Call B
m >> k = m >>= λ _. k
