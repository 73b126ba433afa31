-- ===== src/Controller/Accept.antt =====
-- virtualmachine_controller.go, `runAcceptKey`: the discovery of a machine's pending key.
pub mod Safety
pub mod Pending
use vcf_salt_operator.Prelude.{String, Bool, true, false, not, [], ◌∷◌}
use vcf_salt_operator.Prelude.{Option, none, some, str_eq, if◌then◌else◌}
use vcf_salt_operator.Prelude.Int.{ℤ, ltb_ℤ}
use vcf_salt_operator.Prelude.Dict.{get}
use vcf_salt_operator.Raasconn.{Connection}
use vcf_salt_operator.Salt.Matcher.{
  MatchMethod, by_name, by_ip, by_shifted_ip, by_prefix, no_match, MatchResult, find_minion_id,
}
use vcf_salt_operator.Controller.Names.{
  annotation_key_status, annotation_minion_id, annotation_match_method, annotation_accepted_at,
  key_status_accepted, key_status_failed,
}
use vcf_salt_operator.Controller.World.{Env, normal, warning, key_accepted}
use vcf_salt_operator.Controller.Run.{
  M, note, ◌>>=◌, ◌>>◌, ask, of_result, of_error, wrapped, wrapped_error, current_vm, Reconciled,
  finished, requeue, record_event, time_now, patch_annotations, add_finalizer,
}
use vcf_salt_operator.Controller.Preseed.{since_vsphere_create}

-- The values of `MatchMethod`.
abbrev pub method_text : MatchMethod → String
method_text by_name = "name"
method_text by_ip = "ip"
method_text by_shifted_ip = "shifted-ip"
method_text by_prefix = "prefix"
method_text no_match = "none"

abbrev pub is_match : MatchMethod → Bool
is_match no_match = false
is_match _ = true

-- `created && elapsed >= timeout`
abbrev pub past : ℤ → Option ℤ → Bool
past timeout none = false
past timeout (some elapsed) = not (ltb_ℤ elapsed timeout)

module _ (env : Env) where
  -- The key of the match was accepted.
  unfoldable pub mark_accepted : MatchResult → ℤ → M Reconciled
  mark_accepted match requeue_after = do
    now ← time_now env
    patch_annotations env (
        (annotation_key_status, key_status_accepted)
        ∷ (annotation_minion_id, match.minion_id)
        ∷ (annotation_match_method, method_text match.method)
        ∷ (annotation_accepted_at, env.format_time now)
        ∷ [])
    add_finalizer env
    record_event normal "SaltKeyAccepted"
    requeue requeue_after

  -- A pending key matches.
  unfoldable pub accept_match : Connection → MatchResult → ℤ → M Reconciled
  accept_match c match requeue_after = do
    refused ← ask (λ t. env.accept_key_error t c match.minion_id)
    of_error (wrapped_error "accept key" refused)
    note (key_accepted match.minion_id)
    mark_accepted match requeue_after

  -- The key did not appear in time.
  unfoldable pub mark_timed_out : M Reconciled
  mark_timed_out = do
    vm ← current_vm
    (if (str_eq (get annotation_key_status vm.annotations) key_status_failed)
        then (finished)
        else (do
          patch_annotations env ((annotation_key_status, key_status_failed) ∷ [])
          record_event warning "SaltKeyTimeout"
          finished))

  -- No pending key matches.
  unfoldable pub await_match : ℤ → ℤ → M Reconciled
  await_match accept_timeout requeue_after = do
    vm ← current_vm
    elapsed ← since_vsphere_create env vm
    (if (past accept_timeout elapsed) then (mark_timed_out) else (requeue requeue_after))

  unfoldable pub run_accept_key : Connection → String → ℤ → ℤ → M Reconciled
  run_accept_key c primary_ip accept_timeout requeue_after = do
    vm ← current_vm
    listed ← ask (λ t. env.list_pending_keys t c)
    pending ← of_result (wrapped "list pending keys" listed)
    let match = find_minion_id env.unicode vm.name primary_ip pending
    (if (is_match match.method)
        then (accept_match c match requeue_after)
        else (await_match accept_timeout requeue_after))
