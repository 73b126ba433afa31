-- ===== src/Tests/Calls.antt =====
-- A server of the Salt API, and calls of its client.
use vcf_salt_operator.Prelude.{
  ℕ, ◌+◌, ◌≤◌, leb, String, Bool, true, false, ◌≡◌, ◌≢◌, refl, arith, Option, none, some, str_eq,
  if◌then◌else◌,
}
use vcf_salt_operator.Prelude.Lists.{length}
use vcf_salt_operator.Kube.Error.{Result, ok}
use vcf_salt_operator.Salt.Json.{
  Json, Members, object, string, array, boolean, no_members, member, no_items, item,
}
use vcf_salt_operator.Salt.Client.{
  Response, get_verb, post_verb, Net, RaasClient, KeyPair, new_session, new_raas_client, ◌>>=◌,
}
use vcf_salt_operator.Salt.Client.Transport.{login, raw_post, xsrf_token, request, do_post, posted}
use vcf_salt_operator.Salt.Client.Keys.{list_accepted_keys}
use vcf_salt_operator.Salt.Client.Jobs.{test_ping, refresh_pillar, dispatch, ret_of}
use vcf_salt_operator.Salt.Client.Wheel.{
  gen_accept_key, master_public_key, wheel, await_master, fetch_master_key,
}
use vcf_salt_operator.Salt.Client.Sessions.{start, then_call, logged_in_again, listed_accepted}
use vcf_salt_operator.Salt.Client.Requests.{Protocol}
use vcf_salt_operator.Salt.Client.Requests.Login.{ApiReach-Protocol}
use vcf_salt_operator.Salt.Client.Settles.{IsDeadline}
use vcf_salt_operator.Salt.Client.Deadline.{waits_end}
use vcf_salt_operator.Salt.Client.Answers.{IsComplete, gen_accept_key-IsComplete}
use vcf_salt_operator.Salt.Client.Bounds.{dispatch_bound}
use vcf_salt_operator.Tests.Fixtures.{ascii, connection}

abbrev pub client : RaasClient
client = new_raas_client connection

abbrev minion : String → Json
minion id = object (member "minion" (string id) no_members)

abbrev listing : Members
listing = member "results" (array (item (minion "web01") (item (minion "") no_items))) no_members

-- A job that the master accepted.
abbrev job : Json
job = object (member "ret" (string "20260101") no_members)

abbrev returned : Json → Json
returned v = object (
    member "ret"
      (object (
        member "master" (object (member "success" (boolean true) (member "return" v no_members)))
          no_members))
      no_members)

abbrev documents : String → Option Json
documents body =
    if str_eq body "token"
    then some (object (member "jwt" (string "jwt") no_members))
    else if str_eq body "listing"
    then some (object (member "ret" (object listing) no_members))
    else if str_eq body "job"
    then some job
    else if str_eq body "pair"
    then some
        (returned (object (member "pub" (string "PUB") (member "priv" (string "PRIV") no_members))))
    else if str_eq body "key"
    then some (
        returned (
          object (
            member "local" (object (member "master" (string "BEGIN PUBLIC KEY") no_members))
              no_members)))
    else none

abbrev answered_with : String → Result Response
answered_with body = ok (record { status = 200; body = ok body; xsrf_cookie = some "xsrf" })

-- A server whose first answer is the job, and every other one the same document.
abbrev pub net : String → Net
net body = record {
  unicode = ascii;
  parse = documents;
  valid_url = λ url. true;
  answer = λ t r. elim r.verb [
    | get_verb ↦ answered_with ""
    | post_verb ↦ answered_with (if leb t 0 then "job" else body)
  ];
  expired = λ t. leb 3 t;
}

expired_by_3 : (t : ℕ) → 3 ≤ t → leb 3 t ≡ true
expired_by_3 t h = ground arith

net-IsDeadline : (body : String) → IsDeadline (net body) 3
net-IsDeadline body t h = expired_by_3 t h

waits_end_example :
    ((test_ping (net "listing") client 4 "web01" new_session).0 ≢ ok none)
    × ((refresh_pillar (net "listing") client 4 "web01" new_session).0 ≢ ok none)
    × ((gen_accept_key (net "listing") client 4 "web01" false new_session).0 ≢ ok none)
    × ((master_public_key (net "listing") client 4 new_session).0 ≢ ok none)
waits_end_example =
    waits_end (net "listing") client 3 4 "web01" false new_session (net-IsDeadline "listing")
      (omega arith)

-- Nothing is given to `Call`.
abbrev NothingGiven : String → String → Members → Type 0
NothingGiven resource method kwarg = ⊥

ApiReach-Protocol_example :
    Protocol NothingGiven
      (net "token")
      client
      (list_accepted_keys (net "token") client (login (net "token") client new_session).1).1.sent
ApiReach-Protocol_example =
    ApiReach-Protocol NothingGiven (net "token") client _
      (then_call (then_call start (logged_in_again new_session)) (listed_accepted _))

dispatch_bound_example :
    (length (raw_post (net "job") client (string "ping") new_session).1.sent
      ≤ 4 + length new_session.sent)
    × (length (dispatch (net "job") client "web01" "test.ping" no_members new_session).1.sent
        ≤ 8 + length new_session.sent)
dispatch_bound_example =
    dispatch_bound (net "job") client new_session (string "ping") "web01" "test.ping" no_members

abbrev pub pair : KeyPair
pair = record { pub_key = "PUB"; priv_key = "PRIV" }

pub generates :
    (force : Bool)
    → gen_accept_key (net "pair") client 1 "web01" force new_session
      ≡ (ok (some (some pair)), (gen_accept_key (net "pair") client 1 "web01" force new_session).1)
unfolding gen_accept_key wheel await_master posted raw_post do_post request xsrf_token ret_of
    new_raas_client ◌>>=◌
generates force = refl

gen_accept_key-IsComplete_example : IsComplete pair
gen_accept_key-IsComplete_example =
    gen_accept_key-IsComplete (net "pair") client 1 "web01" false new_session _ pair
      (generates false)

pub reads :
    master_public_key (net "key") client 1 new_session
    ≡ (ok (some "BEGIN PUBLIC KEY"), (master_public_key (net "key") client 1 new_session).1)
unfolding master_public_key fetch_master_key wheel await_master posted raw_post do_post request
    xsrf_token ret_of new_raas_client ◌>>=◌
reads = refl
