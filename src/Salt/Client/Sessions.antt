-- ===== src/Salt/Client/Sessions.antt =====
-- pkg/salt/client.go: sequences of calls of the API on one client, in the order of its lock.
use vcf_salt_operator.Prelude.{ℕ, String, Bool}
use vcf_salt_operator.Salt.Json.{Members}
use vcf_salt_operator.Salt.Client.{Net, RaasClient, Session, new_session}
use vcf_salt_operator.Salt.Client.Transport.{login, call}
use vcf_salt_operator.Salt.Client.Keys.{
  list_pending_keys, list_accepted_keys, accept_key, delete_key, master_last_seen, key_states,
}
use vcf_salt_operator.Salt.Client.Jobs.{poll_jid, dispatch_highstate, test_ping, refresh_pillar}
use vcf_salt_operator.Salt.Client.Wheel.{gen_accept_key, master_public_key}
use vcf_salt_operator.Salt.Client.Documents.{of_caller}
use vcf_salt_operator.Salt.Client.Calls.{
  IsStable, list_pending_keys-Keeps, list_accepted_keys-Keeps, accept_key-Keeps, delete_key-Keeps,
  call-Keeps, test_ping-Keeps, refresh_pillar-Keeps, dispatch_highstate-Keeps, poll_jid-Keeps,
  master_last_seen-Keeps, key_states-Keeps, gen_accept_key-Keeps, master_public_key-Keeps,
}

-- One call of the API, which may end with an error; what callers may give to `Call` is a parameter.
pub data ApiStep (given : String → String → Members → Type 0) (net : Net) (c : RaasClient)
    : Session → Session → Type 0 where
  listed_pending : (s : Session) → ApiStep given net c s (list_pending_keys net c s).1
  listed_accepted : (s : Session) → ApiStep given net c s (list_accepted_keys net c s).1
  accepted : (id : String) (s : Session) → ApiStep given net c s (accept_key net c id s).1
  deleted : (id : String) (s : Session) → ApiStep given net c s (delete_key net c id s).1
  called_api :
      (resource : String) (method : String) (kwarg : Members) (s : Session)
      → given resource method kwarg
      → ApiStep given net c s (call net c resource method kwarg s).1
  logged_in_again : (s : Session) → ApiStep given net c s (login net c s).1
  pinged :
      (fuel : ℕ) (id : String) (s : Session) → ApiStep given net c s (test_ping net c fuel id s).1
  refreshed :
      (fuel : ℕ) (id : String) (s : Session)
      → ApiStep given net c s (refresh_pillar net c fuel id s).1
  dispatched : (id : String) (s : Session) → ApiStep given net c s (dispatch_highstate net c id s).1
  polled_job :
      (id : String) (jid : String) (s : Session) → ApiStep given net c s (poll_jid net c id jid s).1
  asked_presence : (s : Session) → ApiStep given net c s (master_last_seen net c s).1
  asked_states : (id : String) (s : Session) → ApiStep given net c s (key_states net c id s).1
  generated :
      (fuel : ℕ) (id : String) (force : Bool) (s : Session)
      → ApiStep given net c s (gen_accept_key net c fuel id force s).1
  read_master_key :
      (fuel : ℕ) (s : Session) → ApiStep given net c s (master_public_key net c fuel s).1

-- The sessions of a client.
pub data ApiReach (given : String → String → Members → Type 0) (net : Net) (c : RaasClient)
    : Session → Type 0 where
  start : ApiReach given net c new_session
  then_call :
      {s s' : Session} → ApiReach given net c s → ApiStep given net c s s' → ApiReach given net c s'

module _ {given : String → String → Members → Type 0} {net : Net} {c : RaasClient}
    {P : Session → Type 0} (stable : IsStable given net c P) where
  pub ApiStep-Keeps : {s s' : Session} → ApiStep given net c s s' → P s → P s'
  ApiStep-Keeps (listed_pending s) h = (list_pending_keys-Keeps stable).along s h
  ApiStep-Keeps (listed_accepted s) h = (list_accepted_keys-Keeps stable).along s h
  ApiStep-Keeps (accepted id s) h = (accept_key-Keeps stable id).along s h
  ApiStep-Keeps (deleted id s) h = (delete_key-Keeps stable id).along s h
  ApiStep-Keeps (called_api resource method kwarg s g) h =
      (call-Keeps stable resource method kwarg (of_caller g)).along s h
  ApiStep-Keeps (logged_in_again s) h = stable.at_login.along s h
  ApiStep-Keeps (pinged fuel id s) h = (test_ping-Keeps stable fuel id).along s h
  ApiStep-Keeps (refreshed fuel id s) h = (refresh_pillar-Keeps stable fuel id).along s h
  ApiStep-Keeps (dispatched id s) h = (dispatch_highstate-Keeps stable id).along s h
  ApiStep-Keeps (polled_job id jid s) h = (poll_jid-Keeps stable id jid).along s h
  ApiStep-Keeps (asked_presence s) h = (master_last_seen-Keeps stable).along s h
  ApiStep-Keeps (asked_states id s) h = (key_states-Keeps stable id).along s h
  ApiStep-Keeps (generated fuel id force s) h =
      (gen_accept_key-Keeps stable fuel id force).along s h
  ApiStep-Keeps (read_master_key fuel s) h = (master_public_key-Keeps stable fuel).along s h

  pub ApiReach-Keeps : {s : Session} → P new_session → ApiReach given net c s → P s
  ApiReach-Keeps h start = h
  ApiReach-Keeps h (then_call r t) = ApiStep-Keeps t (ApiReach-Keeps h r)
