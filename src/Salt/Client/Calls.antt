-- ===== src/Salt/Client/Calls.antt =====
-- pkg/salt/client.go: the properties of a session that each call of the API keeps.
use vcf_salt_operator.Prelude.{ℕ, zero, suc, String, ◌<>◌, Bool, true, false}
use vcf_salt_operator.Salt.Json.{Items, Members}
use vcf_salt_operator.Salt.Client.{Net, RaasClient, Session, Call, set_master_pub, wait}
use vcf_salt_operator.Salt.Client.Transport.{rpc, raw_post, posted, login, call}
use vcf_salt_operator.Salt.Client.Keys.{
  list_pending_keys, list_accepted_keys, accept_key, delete_key, master_last_seen, key_states,
}
use vcf_salt_operator.Salt.Client.Jobs.{
  poll_jid, ret_of, save_job, route_cmd, dispatch, dispatch_highstate, wait_bool_result, test_ping,
  refresh_pillar, job_members, dashed,
}
use vcf_salt_operator.Salt.Client.Wheel.{
  await_master, wheel, wheel_members, gen_accept_key, fetch_master_key, master_public_key,
}
use vcf_salt_operator.Salt.Client.Documents.{
  Document, lists, states, accepts, deletes, presence, polls, saves, routes, generates, reads_key,
  pings, refreshes, converges,
}
use vcf_salt_operator.Salt.Client.Keeps.{
  KeepsSession, KeepsSession-option, KeepsSession-bind, KeepsSession-refuse, KeepsSession-result,
  KeepsSession-give, session_rules,
}

-- A property of sessions that the parts of a call keep, where the documents of the posts are those of
-- the API, or given by a caller.
pub record IsStable (given : String → String → Members → Type 0) (net : Net) (c : RaasClient)
    (P : Session → Type 0) : Type 0 where
  pub at_post :
      (resource method : String) (kwarg : Members)
      → Document given c.master_id resource method kwarg
      → KeepsSession P (raw_post net c (rpc resource method kwarg))
  pub at_wait : KeepsSession P (wait net)
  pub at_login : KeepsSession P (login net c)
  pub at_master_pub : (key : String) → KeepsSession P (set_master_pub key)

module _ {given : String → String → Members → Type 0} {net : Net} {c : RaasClient}
    {P : Session → Type 0} (stable : IsStable given net c P) where
  abbrev pub Sends : String → String → Members → Type 0
  Sends resource method kwarg = Document given c.master_id resource method kwarg

  pub posted-Keeps :
      (label resource method : String) (kwarg : Members)
      → Sends resource method kwarg
      → KeepsSession P (posted net c label (rpc resource method kwarg))
  unfolding posted
  posted-Keeps label resource method kwarg sent = search (session_rules, stable.at_post) depth 12

  pub call-Keeps :
      (resource method : String) (kwarg : Members)
      → Sends resource method kwarg
      → KeepsSession P (call net c resource method kwarg)
  unfolding call
  call-Keeps resource method kwarg sent = search (session_rules, stable.at_post) depth 12

  pub list_pending_keys-Keeps : KeepsSession P (list_pending_keys net c)
  unfolding list_pending_keys
  list_pending_keys-Keeps = search (session_rules, posted-Keeps, lists) depth 8

  pub list_accepted_keys-Keeps : KeepsSession P (list_accepted_keys net c)
  unfolding list_accepted_keys
  list_accepted_keys-Keeps = search (session_rules, posted-Keeps, lists) depth 8

  pub accept_key-Keeps : (id : String) → KeepsSession P (accept_key net c id)
  unfolding accept_key
  accept_key-Keeps id = search (session_rules, posted-Keeps, accepts) depth 8

  pub delete_key-Keeps : (id : String) → KeepsSession P (delete_key net c id)
  unfolding delete_key
  delete_key-Keeps id = search (session_rules, posted-Keeps, deletes) depth 8

  pub master_last_seen-Keeps : KeepsSession P (master_last_seen net c)
  unfolding master_last_seen
  master_last_seen-Keeps = search (session_rules, posted-Keeps, presence) depth 12

  pub key_states-Keeps : (id : String) → KeepsSession P (key_states net c id)
  unfolding key_states
  key_states-Keeps id = search (session_rules, posted-Keeps, states) depth 12

  pub poll_jid-Keeps : (id jid : String) → KeepsSession P (poll_jid net c id jid)
  unfolding poll_jid
  poll_jid-Keeps id jid = search (session_rules, posted-Keeps, polls) depth 8

  pub ret_of-Keeps : (label body : String) → KeepsSession P (ret_of net c label body)
  unfolding ret_of
  ret_of-Keeps label body = search session_rules depth 12

  pub save_job-Keeps :
      (name fun : String) (kwarg : Members)
      → Sends "job" "save_job" (job_members net c name fun kwarg)
      → KeepsSession P (save_job net c name fun kwarg)
  unfolding save_job
  save_job-Keeps name fun kwarg sent = search (session_rules, posted-Keeps, ret_of-Keeps) depth 8

  pub route_cmd-Keeps : (job_uuid id : String) → KeepsSession P (route_cmd net c job_uuid id)
  unfolding route_cmd
  route_cmd-Keeps job_uuid id = search (session_rules, posted-Keeps, ret_of-Keeps, routes) depth 8

  pub dispatch-Keeps :
      (id fun : String) (kwarg : Members)
      → Sends "job" "save_job" (job_members net c ("op-" <> dashed fun) fun kwarg)
      → KeepsSession P (dispatch net c id fun kwarg)
  unfolding dispatch
  dispatch-Keeps id fun kwarg sent = search (session_rules, save_job-Keeps, route_cmd-Keeps) depth 8

  pub dispatch_highstate-Keeps : (id : String) → KeepsSession P (dispatch_highstate net c id)
  unfolding dispatch_highstate
  dispatch_highstate-Keeps id = dispatch-Keeps id _ _ (saves converges)

  -- The end of a wait that is over, and its next round.
  KeepsSession-round :
      {A : Type 0} (b : Bool) (m n : Call A)
      → KeepsSession P m
      → KeepsSession P n
      → KeepsSession P (elim b [ true ↦ m | false ↦ n ])
  KeepsSession-round true m n km kn = km
  KeepsSession-round false m n km kn = kn

  pub wait_bool_result-Keeps :
      (fuel : ℕ) (id jid : String) → KeepsSession P (wait_bool_result net c fuel id jid)
  unfolding wait_bool_result
  wait_bool_result-Keeps zero id jid = search session_rules
  wait_bool_result-Keeps (suc fuel) id jid = KeepsSession-bind _ _ (poll_jid-Keeps id jid) λ o.
      KeepsSession-option o _ _
        (KeepsSession-bind _ _ (stable.at_wait) λ b.
          KeepsSession-round b _ _ (KeepsSession-refuse _) (wait_bool_result-Keeps fuel id jid))
        λ r. KeepsSession-result _

  pub test_ping-Keeps : (fuel : ℕ) (id : String) → KeepsSession P (test_ping net c fuel id)
  unfolding test_ping
  test_ping-Keeps fuel id =
      search (session_rules, dispatch-Keeps, wait_bool_result-Keeps, saves, pings) depth 8

  pub refresh_pillar-Keeps :
      (fuel : ℕ) (id : String) → KeepsSession P (refresh_pillar net c fuel id)
  unfolding refresh_pillar
  refresh_pillar-Keeps fuel id =
      search (session_rules, dispatch-Keeps, wait_bool_result-Keeps, saves, refreshes) depth 8

  pub await_master-Keeps : (fuel : ℕ) (jid : String) → KeepsSession P (await_master net c fuel jid)
  unfolding await_master
  await_master-Keeps zero jid = search session_rules
  await_master-Keeps (suc fuel) jid =
      KeepsSession-bind _ _ (posted-Keeps _ _ _ _ (polls jid)) λ body.
        KeepsSession-bind _ _ (KeepsSession-result _) λ o.
          KeepsSession-option o _ _
            (KeepsSession-bind _ _ (stable.at_wait)
              λ b. KeepsSession-round b _ _ (KeepsSession-refuse _) (await_master-Keeps fuel jid))
            λ r. KeepsSession-give _

  pub wheel-Keeps :
      (fuel : ℕ) (fun : String) (args : Items) (kwarg : Members)
      → Sends "cmd" "route_cmd" (wheel_members net c fun args kwarg)
      → KeepsSession P (wheel net c fuel fun args kwarg)
  unfolding wheel
  wheel-Keeps fuel fun args kwarg sent =
      search (session_rules, posted-Keeps, ret_of-Keeps, await_master-Keeps) depth 8

  pub gen_accept_key-Keeps :
      (fuel : ℕ) (id : String) (force : Bool) → KeepsSession P (gen_accept_key net c fuel id force)
  unfolding gen_accept_key
  gen_accept_key-Keeps fuel id force =
      KeepsSession-bind _ _ (wheel-Keeps _ _ _ _ (generates id force))
        λ o. KeepsSession-option o _ _ (search session_rules) λ v. search session_rules

  fetch_master_key-Keeps : (fuel : ℕ) → KeepsSession P (fetch_master_key net c fuel)
  unfolding fetch_master_key
  fetch_master_key-Keeps fuel = KeepsSession-bind _ _ (wheel-Keeps _ _ _ _ reads_key) λ o.
      KeepsSession-option o _ _ (search session_rules)
        λ v. search (session_rules, stable.at_master_pub) depth 8

  pub master_public_key-Keeps : (fuel : ℕ) → KeepsSession P (master_public_key net c fuel)
  unfolding master_public_key
  master_public_key-Keeps fuel = search (session_rules, fetch_master_key-Keeps) depth 8
