-- ===== src/Salt/Client/Documents.antt =====
-- pkg/salt/client.go: the requests of the API, written out apart from the client. None has a place for
-- a user name or a password; the request of a login is not among them.
use vcf_salt_operator.Prelude.{String, ◌<>◌, Bool, true, [], ◌∷◌, ◌++◌, none, some}
use vcf_salt_operator.Prelude.Int.{pos}
use vcf_salt_operator.Salt.Json.{
  Json, Items, Members, object, string, array, boolean, number, no_members, member, no_items, item,
}
use vcf_salt_operator.Salt.Client.{Request, get_verb, post_verb}
use vcf_salt_operator.Salt.Client.Transport.{bearer, xsrf_header}
use vcf_salt_operator.Salt.Client.Jobs.{dashed}

-- A minion, with its master.
abbrev minion_key : String → String → Json
minion_key master id =
    array (item (array (item (string master) (item (string id) no_items))) no_items)

abbrev argument : Items → Members → Json
argument args kwarg = object (member "arg" (array args) (member "kwarg" (object kwarg) no_members))

abbrev on_master : String → String → Items → Members → Members
on_master master fun args kwarg = member "cmd" (string "wheel") (
    member "fun" (string fun) (
      member "masters" (array (item (string master) no_items))
        (member "arg" (argument args kwarg) no_members)))

-- The functions of Salt that run on a minion.
pub data MinionFunction : String → Type 0 where
  pings : MinionFunction "test.ping"
  refreshes : MinionFunction "saltutil.refresh_pillar"
  converges : MinionFunction "state.highstate"

-- The members of a call, by its resource and its method: one constructor for each call of the client,
-- and one for those that a caller of `Call` gives.
pub data Document (given : String → String → Members → Type 0) (master : String)
    : String → String → Members → Type 0 where
  of_caller :
      {resource method : String} {kwarg : Members}
      → given resource method kwarg
      → Document given master resource method kwarg
  lists :
      (state : String)
      → Document given master "minions" "get_minion_key_state" (
          member "limit"
            (number (pos 0))
            (member "page" (number (pos 0)) (member "key_state" (string state) no_members)))
  states :
      (id : String)
      → Document given master "minions" "get_minion_key_state"
          (member "minion_id" (string id) no_members)
  accepts :
      (id : String)
      → Document given master "minions" "set_minion_key_state" (
          member "minions" (minion_key master id) (
            member "state" (string "accept") (
              member "include_rejected"
                (boolean true)
                (member "include_denied" (boolean true) no_members))))
  deletes :
      (id : String)
      → Document given master "minions" "set_minion_key_state"
          (member "minions" (minion_key master id) (member "state" (string "delete") no_members))
  presence : Document given master "master" "get_master_presence" no_members
  polls :
      (jid : String) → Document given master "ret" "get_jid" (member "jid" (string jid) no_members)
  saves :
      {fun : String}
      → MinionFunction fun
      → Document given master "job" "save_job" (
          member "name" (string ("op-" <> dashed fun)) (
            member "cmd"
              (string "local")
              (member "fun" (string fun) (member "arg" (argument no_items no_members) no_members))))
  routes :
      (job_uuid id : String)
      → Document given master "cmd" "route_cmd" (
          member "job_uuid" (string job_uuid) (
            member "tgt"
              (object (
                member "salt"
                  (object (
                    member "tgt"
                      (string ("L@" <> id))
                      (member "tgt_type" (string "compound") no_members)))
                  no_members))
              no_members))
  generates :
      (id : String) (force : Bool)
      → Document given master "cmd" "route_cmd" (
          on_master master "key.gen_accept"
            (item (string id) no_items)
            (member "force" (boolean force) no_members))
  reads_key :
      Document given master "cmd" "route_cmd"
        (on_master master "key.master_key_str" no_items no_members)

-- The request of a call, on a server, with what the session has: the cookie's token and the bearer's.
abbrev pub call_of : String → String → String → Members → String → String → Request
call_of base_url resource method kwarg xsrf jwt = record {
  verb = post_verb;
  url = base_url <> "/rpc";
  headers =
      ("Content-Type", "application/json")
      ∷ ("Accept", "application/json")
      ∷ ("X-Requested-With", "XMLHttpRequest")
      ∷ (xsrf_header xsrf ++ bearer jwt);
  payload = some (
      object (
        member "resource" (string resource)
          (member "method" (string method) (member "kwarg" (object kwarg) no_members))));
}

-- The request for a cookie.
abbrev pub cookie_of : String → Request
cookie_of base_url = record {
  verb = get_verb;
  url = base_url <> "/account/login";
  headers = ("Accept", "application/json") ∷ ("X-Requested-With", "XMLHttpRequest") ∷ [];
  payload = none;
}
