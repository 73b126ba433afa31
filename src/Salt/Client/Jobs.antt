-- ===== src/Salt/Client/Jobs.antt =====
-- pkg/salt/client.go, jobs on a minion: saved, routed to it, and polled for their result. A loop that
-- waits for a result runs on fuel, and gives `none` where that runs out.
use vcf_salt_operator.Prelude.{
  ℕ, zero, suc, String, ◌<>◌, Bool, true, false, not, List, [], ◌∷◌, Option, none, some, str_eq,
  if◌then◌else◌,
}
use vcf_salt_operator.Prelude.Int.{ℤ, pos}
use vcf_salt_operator.Prelude.Lists.{contains}
use vcf_salt_operator.Kube.Error.{Result, ok, err, failure}
use vcf_salt_operator.Salt.Unicode.{Unicode}
use vcf_salt_operator.Salt.Json.{
  Json, Items, Members, null, object, string, array, boolean, number, no_members, member, no_items,
  get_member, as_text, as_members, read_members, read_text, read_bool, tagged, is_set, sort_texts,
}
use vcf_salt_operator.Salt.Client.{
  Net, RaasClient, Call, give, refuse, result, require, expect, wait, ◌>>=◌, ◌>>◌,
}
use vcf_salt_operator.Salt.Client.Transport.{posted, rpc, parsed_members}

-- `JIDResult`
pub record JobResult : Type 0 where
  pub minion_id : String
  pub jid : String
  pub fun : String
  pub returned : Json
  pub retcode : ℤ
  pub success : Bool

-- `BoolReturn`: no value if the return is neither a truth value nor `null`.
unfoldable pub bool_return : JobResult → Option Bool
bool_return r = read_bool r.returned

abbrev pub is_object : Json → Bool
is_object (object m) = true
is_object _ = false

abbrev pub int_or_zero : Option Json → ℤ
int_or_zero (some (number n)) = n
int_or_zero _ = pos 0

abbrev pub true_or_false : Option Json → Bool
true_or_false (some (boolean b)) = b
true_or_false _ = false

abbrev pub or_null : Option Json → Json
or_null none = null
or_null (some v) = v

-- A reply of the API to a job: its `ret`, and whether it has an error.
pub record Routed : Type 0 where
  pub ret : String
  pub refused : Bool

-- `strings.NewReplacer(".", "-", "_", "-").Replace`
abbrev pub dashed : String → String
dashed String.[] = ""
dashed (String.◌∷◌ ch s) =
    (if str_eq (String.◌∷◌ ch "") "."
      then "-"
      else if str_eq (String.◌∷◌ ch "") "_"
      then "-"
      else String.◌∷◌ ch "")
    <> dashed s

module _ (u : Unicode) where
  abbrev pub state_result : Option Members → Option Bool
  state_result none = none
  state_result (some m) = read_bool (tagged u "result" m)

  abbrev pub with_failed : String → Option Bool → Option (List String) → Option (List String)
  with_failed id none rest = none
  with_failed id (some b) none = none
  with_failed id (some true) (some ids) = some ids
  with_failed id (some false) (some ids) = some (id ∷ ids)

  -- The states of a return that failed, each name once; `none` if one has another shape.
  abbrev pub failed_in : List String → Members → Option (List String)
  failed_in seen no_members = some []
  failed_in seen (member id v m) =
      let rest = failed_in (id ∷ seen) m in
      if contains seen id then rest else with_failed id (state_result (read_members v)) rest

  abbrev pub failed_of : Option Members → List String
  failed_of none = []
  failed_of (some m) = elim (failed_in [] m) [ none ↦ [] | some ids ↦ sort_texts ids ]

  -- `FailedStateIDs`
  unfoldable pub failed_state_ids : JobResult → List String
  failed_state_ids r = failed_of (read_members r.returned)

-- The result for a minion in the `ret` of a response.
abbrev pub job_result : String → String → Option Json → Result (Option JobResult)
job_result minion_id jid none = ok none
job_result minion_id jid (some (object m)) = ok (
    some (record {
      minion_id = minion_id;
      jid = jid;
      fun = as_text (get_member "fun" m);
      returned = or_null (get_member "return" m);
      retcode = int_or_zero (get_member "retcode" m);
      success = true_or_false (get_member "success" m);
    }))
job_result minion_id jid (some _) = err (failure "poll_jid: unexpected result shape")

abbrev pub job_in : String → String → Option Members → Result (Option JobResult)
job_in minion_id jid none = ok none
job_in minion_id jid (some ret) = job_result minion_id jid (get_member minion_id ret)

abbrev pub polled : String → String → Option Members → Result (Option JobResult)
polled minion_id jid none = err (failure "poll_jid: parse response")
polled minion_id jid (some resp) =
    if is_set (get_member "error" resp)
    then err (failure "poll_jid: API error")
    else job_in minion_id jid (as_members (get_member "ret" resp))

module _ (net : Net) (c : RaasClient) where
  -- `PollJID`: no result if the job is not done.
  unfoldable pub poll_jid : String → String → Call (Option JobResult)
  poll_jid minion_id jid = do
    body ← posted net c "poll_jid" (rpc "ret" "get_jid" (member "jid" (string jid) no_members))
    result (polled minion_id jid (parsed_members net c (net.parse body)))

  abbrev pub routed : Option Members → Option Routed
  routed none = none
  routed (some m) = elim (read_members (tagged net.unicode "error" m)) [
    | none ↦ none
    | some _ ↦ elim (read_text (tagged net.unicode "ret" m)) [
      | none ↦ none
      | some ret ↦ some (record { ret = ret; refused = is_object (tagged net.unicode "error" m) })
    ]
  ]

  abbrev pub job_arg : Items → Members → Json
  job_arg args kwarg = object (member "arg" (array args) (member "kwarg" (object kwarg) no_members))

  -- The text of a reply, which must be there.
  unfoldable pub ret_of : String → String → Call String
  ret_of label body = do
    reply ← expect label (routed (parsed_members net c (net.parse body)))
    require (not reply.refused) label
    require (not (str_eq reply.ret "")) label
    give reply.ret

  abbrev pub job_members : String → String → Members → Members
  job_members name fun kwarg = member "name" (string name) (
      member "cmd" (string "local")
        (member "fun" (string fun) (member "arg" (job_arg no_items kwarg) no_members)))

  unfoldable pub save_job : String → String → Members → Call String
  save_job name fun kwarg = do
    body ← posted net c "save_job" (rpc "job" "save_job" (job_members name fun kwarg))
    ret_of "save_job" body

  abbrev pub target : String → Json
  target minion_id = object (
      member "salt"
        (object (
          member "tgt" (string ("L@" <> minion_id))
            (member "tgt_type" (string "compound") no_members)))
        no_members)

  unfoldable pub route_cmd : String → String → Call String
  route_cmd job_uuid minion_id = do
    body ← posted net c "route_cmd" (
        rpc "cmd" "route_cmd"
          (member "job_uuid" (string job_uuid) (member "tgt" (target minion_id) no_members)))
    ret_of "route_cmd" body

  unfoldable pub dispatch : String → String → Members → Call String
  dispatch minion_id fun kwarg = do
    job_uuid ← save_job ("op-" <> dashed fun) fun kwarg
    route_cmd job_uuid minion_id

  unfoldable pub dispatch_highstate : String → Call String
  dispatch_highstate minion_id = dispatch minion_id "state.highstate" no_members

  abbrev pub answer_of : Option Bool → Result (Option Bool)
  answer_of none = err (failure "unexpected non-boolean return")
  answer_of (some b) = ok (some b)

  -- `waitBoolResult`: rounds of a poll and a wait.
  unfoldable pub wait_bool_result : ℕ → String → String → Call (Option Bool)
  wait_bool_result zero minion_id jid = give none
  wait_bool_result (suc fuel) minion_id jid = do
    polled_result ← poll_jid minion_id jid
    elim polled_result [
      | some r ↦ result (answer_of (bool_return r))
      | none ↦ wait net >>= λ over. elim over [
        | true ↦ refuse (failure "timed out waiting for result")
        | false ↦ wait_bool_result fuel minion_id jid
      ]
    ]

  unfoldable pub test_ping : ℕ → String → Call (Option Bool)
  test_ping fuel minion_id = do
    jid ← dispatch minion_id "test.ping" no_members
    wait_bool_result fuel minion_id jid

  unfoldable pub refresh_pillar : ℕ → String → Call (Option Bool)
  refresh_pillar fuel minion_id = do
    jid ← dispatch minion_id "saltutil.refresh_pillar" no_members
    wait_bool_result fuel minion_id jid
