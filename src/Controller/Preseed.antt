-- ===== src/Controller/Preseed.antt =====
-- virtualmachine_controller.go: keys that the operator generates before a machine boots, the
-- bootstrap Secret, and the signs that its private key is no longer needed.
pub mod Safety
pub mod Bootable
pub mod Generated
use vcf_salt_operator.Prelude.{ℕ, String, ◌<>◌, Bool, false, not, ◌&&◌, ◌||◌, List, [], ◌∷◌}
use vcf_salt_operator.Prelude.{Option, none, some, str_eq, if◌then◌else◌}
use vcf_salt_operator.Prelude.Int.{ℤ}
use vcf_salt_operator.Prelude.Lists.{any, contains, find?}
use vcf_salt_operator.Prelude.Dict.{Dict, get}
use vcf_salt_operator.Kube.{Vm, Object, fields, other}
use vcf_salt_operator.Kube.Error.{Error, failure, is_not_found, is_already_exists}
use vcf_salt_operator.Raasconn.{Connection}
use vcf_salt_operator.Controller.Names.{
  annotation_key_status, annotation_minion_id, annotation_match_method, annotation_accepted_at,
  annotation_key_cleared, annotation_true, key_status_accepted, key_status_failed,
  key_status_preseeded, match_method_preseed, bootstrap_secret_suffix, bootstrap_key_cleared,
  guest_signal_key, vm_condition_ready, vm_condition_created,
}
use vcf_salt_operator.Controller.World.{
  World, Env, Bootstrap, normal, warning, secret_written, secret_cleared, key_generated,
}
use vcf_salt_operator.Salt.Client.{KeyPair}
use vcf_salt_operator.Controller.Run.{
  M, note, with_option, ◌>>=◌, ◌>>◌, return, throw, ask, of_result, of_error, wrapped,
  wrapped_error, try_write, noted, current_vm, Reconciled, finished, requeue, record_event,
  time_now, since, patch_annotations, add_finalizer,
}

abbrev pub member_is : String → String → Object → Bool
member_is key value (fields m) = str_eq (get key m) value
member_is key value other = false

abbrev pub condition_true : String → Object → Bool
condition_true kind c = member_is "type" kind c && member_is "status" "True" c

unfoldable pub guest_signalled : Vm → Bool
guest_signalled vm =
    any (member_is "key" guest_signal_key) vm.guest_info
    && any (condition_true vm_condition_ready) vm.conditions

abbrev pub transition_time : Object → String
transition_time (fields m) = get "lastTransitionTime" m
transition_time other = ""

module _ (env : Env) where
  -- The time of the first condition that says that the machine exists in vSphere.
  abbrev pub parsed_time : Option Object → Option ℕ
  parsed_time none = none
  parsed_time (some c) = env.parse_time (transition_time c)

  unfoldable pub creation_time : Vm → Option ℕ
  creation_time vm = parsed_time (find? (condition_true vm_condition_created) vm.conditions)

  abbrev pub since_option : Option ℕ → M (Option ℤ)
  since_option none = return none
  since_option (some t) = since env t >>= λ d. return (some d)

  -- `sinceVSphereCreate`: no duration if the second result is false.
  unfoldable pub since_vsphere_create : Vm → M (Option ℤ)
  since_vsphere_create vm = since_option (creation_time vm)

  abbrev pub without_key : Option Bootstrap → Option Bootstrap
  without_key none = none
  without_key (some b) =
      some (record b { minion_pem = bootstrap_key_cleared; minion_pub = bootstrap_key_cleared })

  abbrev pub with_key_cleared : World → World
  with_key_cleared w =
      noted (secret_cleared (w.vm.name <> bootstrap_secret_suffix))
        (record w { secret = without_key w.secret })

  -- A Secret that is not there needs no clearing.
  abbrev pub unless_not_found : Option Error → Option Error
  unless_not_found none = none
  unless_not_found (some e) = if is_not_found e then none else some e

  unfoldable pub clear_bootstrap_key : M (Unit {0})
  clear_bootstrap_key = do
    refused ← try_write env with_key_cleared
    of_error (wrapped_error "clear Secret" (unless_not_found refused))

  abbrev pub holds_preseeded_key : Dict String → Bool
  holds_preseeded_key a =
      str_eq (get annotation_match_method a) match_method_preseed
      && not (str_eq (get annotation_key_cleared a) annotation_true)

  -- The trigger of a clearing stands only in its message.
  unfoldable pub clear_preseed_key : M (Unit {0})
  clear_preseed_key = do
    vm ← current_vm
    (if (holds_preseeded_key vm.annotations)
        then (do
          clear_bootstrap_key
          patch_annotations env ((annotation_key_cleared, annotation_true) ∷ [])
          record_event normal "SaltKeyCleared")
        else (return tt))

  abbrev pub with_secret : Bootstrap → World → World
  with_secret b w =
      noted (secret_written (w.vm.name <> bootstrap_secret_suffix)) (record w { secret = some b })

  abbrev pub exists_already : Option Error → Bool
  exists_already none = false
  exists_already (some e) = is_already_exists e

  -- Created, or updated if it exists already.
  unfoldable pub write_bootstrap_secret : Bootstrap → M (Unit {0})
  write_bootstrap_secret b = do
    created ← try_write env (with_secret b)
    written ← if exists_already created then try_write env (with_secret b) else return created
    of_error (wrapped_error "write Secret" written)

  abbrev pub is_other_owner : Vm → String → Vm → Bool
  is_other_owner vm minion_id other_vm =
      not (str_eq other_vm.uid vm.uid)
      && str_eq (get annotation_minion_id other_vm.annotations) minion_id

  -- The first other machine that holds the minion ID.
  unfoldable pub minion_id_owner : Vm → String → M (Option Vm)
  minion_id_owner vm minion_id = do
    listed ← ask env.list_vms
    vms ← of_result (wrapped "list VirtualMachines" listed)
    return (find? (is_other_owner vm minion_id) vms)

  abbrev pub require_pair : Option KeyPair → M KeyPair
  require_pair (some pair) = return pair
  require_pair none = throw (failure "a key appeared on the master after the state check")

  abbrev pub bootstrap : String → KeyPair → String → Bootstrap
  bootstrap minion_id pair master_pub = record {
    minion_pem = pair.priv_key;
    minion_pub = pair.pub_key;
    minion_master_pub = master_pub;
    minion_id = minion_id;
  }

  -- Whether the key must be forced: a key of the name is there, in a state other than denied.
  abbrev pub needs_force : List String → Bool
  needs_force states = any (λ s. not (str_eq s "denied")) states

  abbrev pub is_foreign : List String → Bool
  is_foreign states = contains states "pending" || contains states "rejected"

  -- The part of `runPreseedKey` behind the check of the owner.
  unfoldable pub generate_key : Connection → String → ℤ → M Reconciled
  generate_key c minion_id requeue_after = do
    answered ← ask (λ t. env.key_states t c minion_id)
    states ← of_result (wrapped "key state" answered)
    (if is_foreign states then record_event warning "SaltForeignKeyReplaced" else return tt)
    generated ← ask (λ t. env.gen_accept_key t c minion_id (needs_force states))
    pair? ← of_result (wrapped "generate key" generated)
    pair ← require_pair pair?
    note (key_generated minion_id (needs_force states))
    master ← ask (λ t. env.master_public_key t c)
    master_pub ← of_result (wrapped "master public key" master)
    write_bootstrap_secret (bootstrap minion_id pair master_pub)
    add_finalizer env
    patch_annotations env (
        (annotation_key_status, key_status_preseeded)
        ∷ (annotation_minion_id, minion_id)
        ∷ (annotation_match_method, match_method_preseed)
        ∷ [])
    record_event normal "SaltKeyPreseeded"
    requeue requeue_after

  -- The minion ID belongs to another machine.
  unfoldable pub refuse_minion_id : M Reconciled
  refuse_minion_id = do
    patch_annotations env ((annotation_key_status, key_status_failed) ∷ [])
    record_event warning "SaltMinionIDInUse"
    finished

  unfoldable pub run_preseed_key : Connection → ℤ → M Reconciled
  run_preseed_key c requeue_after = do
    vm ← current_vm
    owner ← minion_id_owner vm vm.name
    with_option owner (generate_key c vm.name requeue_after)
        (λ holder. if holder.deleting then requeue requeue_after else refuse_minion_id)

  unfoldable pub mark_preseed_accepted : ℤ → M Reconciled
  mark_preseed_accepted requeue_after = do
    now ← time_now env
    patch_annotations env (
        (annotation_key_status, key_status_accepted)
        ∷ (annotation_accepted_at, env.format_time now)
        ∷ [])
    record_event normal "SaltKeyAccepted"
    requeue requeue_after
