-- ===== src/Tests/Machines.antt =====
-- Reconciles of a virtual machine.
use vcf_salt_operator.Prelude.{
  ◌≤◌, [], ◌∷◌, ◌≡◌, refl, true, false, none, some, inl, inr, ◌⊎◌, arith, str_eq,
}
use vcf_salt_operator.Prelude.Int.{pos}
use vcf_salt_operator.Prelude.Lists.{contains}
use vcf_salt_operator.Kube.{Vm, SaltKeyConfig}
use vcf_salt_operator.Kube.Error.{Error, ok, failure}
use vcf_salt_operator.Raasconn.{resolve, resolve_default, load, read_secret, configured}
use vcf_salt_operator.Controller.World.{World, Env}
use vcf_salt_operator.Controller.Run.{done, failed, ◌>>=◌}
use vcf_salt_operator.Controller.Run.Keeps.{end}
use vcf_salt_operator.Controller.IntentHash.{
  is_intent, compute_intent_hash, intent_keys, intent_text, insert_key,
}
use vcf_salt_operator.Controller.Cache.{
  cache_get, cache_set, salt_client_from_config, cached_client, new_client,
}
use vcf_salt_operator.Controller.Cache.Freshness.{cache_get-cache_set}
use vcf_salt_operator.Controller.Preseed.{run_preseed_key}
use vcf_salt_operator.Controller.Preseed.Safety.{generated, run_preseed_key-owned}
use vcf_salt_operator.Controller.Enforcement.{enforcement_jitter, due_after}
use vcf_salt_operator.Controller.Enforcement.Schedule.{
  due_after_exact, due_after_overflow, effective,
}
use vcf_salt_operator.Salt.Matcher.{find_minion_id}
use vcf_salt_operator.Controller.Accept.{run_accept_key}
use vcf_salt_operator.Controller.Accept.Pending.{accepted_keys, run_accept_key-accepts}
use vcf_salt_operator.Controller.Delete.{delete_and_release, reconcile_delete}
use vcf_salt_operator.Controller.Delete.Release.{
  is_held, delete_and_release-releases, reconcile_delete-stuck,
}
use vcf_salt_operator.Controller.Reconcile.{choose_config}
use vcf_salt_operator.Controller.Reconcile.Choice.{choose_config-first}
use vcf_salt_operator.Controller.Reconcile.{reconcile}
use vcf_salt_operator.Controller.Pillar.{guarded}
use vcf_salt_operator.Controller.Pillar.Order.{here, next, reconciled, Reach-guarded}
use vcf_salt_operator.Tests.Fixtures.{env, config, connection, default_ref, machine, world}

abbrev pinged : World
pinged = world (
    ("salt.vcf.io/key-status", "Accepted")
    ∷ ("salt.vcf.io/minion-id", "web01")
    ∷ ("salt.vcf.io/salt-status", "Pinged")
    ∷ [])

abbrev refreshed : World
refreshed = end (reconcile env default_ref pinged)

-- A pillar refresh, a dispatch.
Reach-guarded_example : guarded (end (reconcile env default_ref refreshed)).trace ≡ true
Reach-guarded_example =
    Reach-guarded env default_ref {w = pinged} refl refl
      (next (next here (reconciled pinged)) (reconciled refreshed))

delete_and_release-releases_example :
    is_held (end (delete_and_release env connection "web01" pinged)) ≡ false
delete_and_release-releases_example =
    delete_and_release-releases env connection "web01" pinged refl refl

-- A server that refuses the login.
abbrev refusing : Env
refusing = record env { login_error = λ t c. some (failure "HTTP status") }

client_refused :
    (e : Error) × ((v : World) × (salt_client_from_config refusing config default_ref pinged
        ≡ failed e v))
unfolding salt_client_from_config cached_client cache_get new_client resolve resolve_default load
    read_secret configured ◌>>=◌
client_refused = (_, (_, refl))

reconcile_delete-stuck_example :
    (v : World) × (reconcile_delete refusing config default_ref pinged
      ≡ done (record { requeue_after = pos 0 }) v)
    × (v.vm ≡ pinged.vm)
reconcile_delete-stuck_example =
    reconcile_delete-stuck refusing config default_ref pinged refl (inr client_refused)

-- Another machine with the minion ID.
abbrev holder : Vm
holder = record (machine (("salt.vcf.io/minion-id", "web01") ∷ [])) { uid = "u2" }

abbrev owned_env : Env
owned_env = record env { list_vms = λ t. ok (holder ∷ []) }

run_preseed_key-owned_example :
    generated (end (run_preseed_key owned_env connection (pos 5) (world []))).trace ≡ 0
run_preseed_key-owned_example =
    run_preseed_key-owned owned_env connection (pos 5) (world [])
      (inr (holder ∷ [], (holder, refl, (inl refl, (refl, refl)))))

abbrev small : effective env "u1" 600 ≤ 9223372036854775807
unfolding enforcement_jitter
small = omega arith

due_after_exact_example : due_after env 600 "u1" 1000 1100 ≡ record { due = false; wait = pos 507 }
unfolding enforcement_jitter
due_after_exact_example = due_after_exact env "u1" 600 1000 1100 small (omega arith) (omega arith)

due_after_overflow_example : (due_after env 9223372036854775807 "u1" 1000 1001).due ≡ true
unfolding enforcement_jitter
due_after_overflow_example =
    due_after_overflow env "u1" 9223372036854775807 1000 1001 (omega arith) (omega arith)
      (omega arith)

abbrev broken : World
broken = world (
    ("salt.vcf.io/salt-status", "Failed/Highstate")
    ∷ ("salt.vcf.io/roles-hash", "v2:salt.vcf.io/managed=true\n")
    ∷ [])

abbrev hash_kept :
    str_eq (compute_intent_hash env broken.vm.annotations) "v2:salt.vcf.io/managed=true\n" ≡ true
unfolding compute_intent_hash intent_keys intent_text insert_key is_intent
hash_kept = refl

cache_get-cache_set_example :
    (cache_get "prod" "salt-config" "2" 5 (cache_set "prod" "salt-config" "1" connection 1 [])).0
    ≡ none
cache_get-cache_set_example =
    cache_get-cache_set "prod" "salt-config" "1" connection 1 [] "prod" "salt-config" "2" 5

abbrev enrolled : SaltKeyConfig
enrolled = record config { labels = ("salt.vcf.io/managed-by", "vcf-salt-operator") ∷ [] }

choose_config-first_example : choose_config env none (enrolled ∷ config ∷ []) ≡ some config
choose_config-first_example = choose_config-first env (enrolled ∷ config ∷ [])

run_accept_key-accepts_example :
    let v = end (run_accept_key env connection "10.1.2.3" (pos 9) (pos 5) (world [])) in
    let match = find_minion_id env.unicode "web01" "10.1.2.3" ("web01.corp" ∷ []) in
    (accepted_keys v.trace ≡ [])
    ⊎ ((accepted_keys v.trace ≡ match.minion_id ∷ [])
        × (contains ("web01.corp" ∷ []) match.minion_id ≡ true)
        × (env.accept_key_error 1 connection match.minion_id ≡ none))
run_accept_key-accepts_example =
    run_accept_key-accepts env connection "10.1.2.3" (pos 9) (pos 5) (world []) refl
