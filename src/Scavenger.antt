-- ===== src/Scavenger.antt =====
-- cmd/scavenger/main.go: the deletion of accepted keys that no virtual machine holds. One run asks
-- each question once, or gets the same answer again.
pub mod Groups
pub mod Safety
pub mod Run
use vcf_salt_operator.Prelude.{String, Bool, true, false, not, ◌&&◌, ◌||◌, List, [], ◌∷◌, ◌++◌}
use vcf_salt_operator.Prelude.{Option, none, some, str_eq, if◌then◌else◌}
use vcf_salt_operator.Prelude.Lists.{any, contains}
use vcf_salt_operator.Prelude.Dict.{Dict, get}
use vcf_salt_operator.Salt.Unicode.{Unicode}
use vcf_salt_operator.Kube.{Vm, SaltKeyConfig, Condition}
use vcf_salt_operator.Kube.Error.{Error, Result, ok, err, ◌>>=◌, context}
use vcf_salt_operator.Raasconn.{Connection, DefaultRef, resolve, is_set}
use vcf_salt_operator.Controller.Names.{annotation_minion_id}

-- The answers of the API server, of the Salt API and of the libraries in one run.
pub record Outside : Type 0 where
  pub unicode : Unicode
  pub is_status_condition_true : List Condition → String → Bool
  -- `path.Match`, false on an invalid pattern.
  pub path_match : String → String → Bool
  pub list_configs : Result (List SaltKeyConfig)
  pub read_secret : String → String → Result (Dict String)
  pub list_vms : String → Result (List Vm)
  pub login_error : Connection → Option Error
  pub list_accepted_keys : Connection → Result (List String)
  pub delete_key_error : Connection → String → Option Error

-- `raasGroup`
pub record Group : Type 0 where
  pub conn : Connection
  pub namespaces : List String

-- A call of `DeleteKey`, with the connection of its client.
pub record Deletion : Type 0 where
  pub conn : Connection
  pub key : String
  pub refused : Option Error

abbrev pub has_url : String → Group → Bool
has_url url g = str_eq g.conn.url url

abbrev pub with_namespace : String → Group → Group
with_namespace namespace g = record g { namespaces = g.namespaces ++ (namespace ∷ []) }

-- `groups[conn.URL]`, created where it is missing, and its namespaces with one more.
unfoldable pub add_to_group : Connection → String → List Group → List Group
add_to_group conn namespace [] = record { conn = conn; namespaces = namespace ∷ [] } ∷ []
add_to_group conn namespace (g ∷ gs) =
    let rest = add_to_group conn namespace gs in
    if has_url conn.url g then with_namespace namespace g ∷ gs else g ∷ rest

-- `id != ""`, under the minion ID of a machine.
abbrev pub minion_ids : List Vm → List String
minion_ids [] = []
minion_ids (vm ∷ vms) =
    let rest = minion_ids vms in
    if is_set (get annotation_minion_id vm.annotations)
    then get annotation_minion_id vm.annotations ∷ rest
    else rest

module _ (o : Outside) where
  abbrev pub is_ready : SaltKeyConfig → Bool
  is_ready cfg = o.is_status_condition_true cfg.conditions "Ready"

  abbrev pub add_resolved : Result Connection → String → List Group → List Group
  add_resolved (ok conn) namespace gs = add_to_group conn namespace gs
  add_resolved (err e) namespace gs = gs

  -- One turn of the loop over the configurations.
  unfoldable pub add_config : DefaultRef → SaltKeyConfig → List Group → List Group
  add_config d cfg gs =
      if is_ready cfg
      then add_resolved (resolve o.unicode o.read_secret cfg d) cfg.namespace gs
      else gs

  unfoldable pub add_configs : DefaultRef → List SaltKeyConfig → List Group → List Group
  add_configs d [] gs = gs
  add_configs d (cfg ∷ cfgs) gs = add_configs d cfgs (add_config d cfg gs)

  -- `liveVMMinionIDs`, as a list of the identifiers.
  unfoldable pub live_vm_minion_ids : String → Result (List String)
  live_vm_minion_ids namespace = do vms ← o.list_vms namespace; ok (minion_ids vms)

  -- The loop over the namespaces of a group.
  unfoldable pub live_minions : List String → Result (List String)
  live_minions [] = ok []
  live_minions (namespace ∷ namespaces) = do
    here ← live_vm_minion_ids namespace
    rest ← live_minions namespaces
    ok (here ++ rest)

  unfoldable pub matches_any : List String → String → Bool
  matches_any patterns minion_id = any (λ p. o.path_match p minion_id) patterns

  -- The loop over the accepted keys: the calls that delete one.
  unfoldable pub scavenge_keys :
      Bool → List String → Connection → List String → List String → List Deletion
  scavenge_keys dry_run exclude conn live [] = []
  scavenge_keys dry_run exclude conn live (key ∷ keys) =
      let rest = scavenge_keys dry_run exclude conn live keys in
      if contains live key
      then rest
      else if matches_any exclude key
      then rest
      else if dry_run
      then rest
      else record { conn = conn; key = key; refused = o.delete_key_error conn key } ∷ rest

  abbrev pub scavenge_live :
      Bool → List String → Connection → List String → Result (List String) → List Deletion
  scavenge_live dry_run exclude conn keys (ok live) = scavenge_keys dry_run exclude conn live keys
  scavenge_live dry_run exclude conn keys (err e) = []

  abbrev pub logged_in : Option Error → Result (Unit {0})
  logged_in none = ok tt
  logged_in (some e) = err (context "login to RaaS" e)

  abbrev pub accepted_keys : Result (List String) → Result (List String)
  accepted_keys (ok keys) = ok keys
  accepted_keys (err e) = err (context "list accepted keys" e)

  -- `scavengeRaasGroup`; the early return on an empty list of keys makes no call.
  unfoldable pub scavenge_raas_group : Bool → List String → Group → Result (List Deletion)
  scavenge_raas_group dry_run exclude g = do
    login ← logged_in (o.login_error g.conn)
    keys ← accepted_keys (o.list_accepted_keys g.conn)
    ok (scavenge_live dry_run exclude g.conn keys (live_minions g.namespaces))

  -- An error of a group is logged.
  abbrev pub calls_of : Result (List Deletion) → List Deletion
  calls_of (ok calls) = calls
  calls_of (err e) = []

  -- The loop over the groups, in the order in which they were created; that of the source is not
  -- specified.
  unfoldable pub scavenge_groups : Bool → List String → List Group → List Deletion
  scavenge_groups dry_run exclude [] = []
  scavenge_groups dry_run exclude (g ∷ gs) =
      calls_of (scavenge_raas_group dry_run exclude g) ++ scavenge_groups dry_run exclude gs

  abbrev pub listed_configs : Result (List SaltKeyConfig) → Result (List SaltKeyConfig)
  listed_configs (ok cfgs) = ok cfgs
  listed_configs (err e) = err (context "list SaltKeyConfigs" e)

  unfoldable pub scavenge : Bool → List String → DefaultRef → Result (List Deletion)
  scavenge dry_run exclude d = do
    cfgs ← listed_configs o.list_configs
    ok (scavenge_groups dry_run exclude (add_configs d cfgs []))
