-- ===== src/Controller/Accept/Safety.antt =====
-- What a machine without a key waits for.
use vcf_salt_operator.Prelude.{suc, String, false, ◌≡◌, refl, List}
use vcf_salt_operator.Prelude.{none}
use vcf_salt_operator.Prelude.Int.{ℤ}
use vcf_salt_operator.Kube.Error.{ok}
use vcf_salt_operator.Raasconn.{Connection}
use vcf_salt_operator.Salt.Matcher.{find_minion_id}
use vcf_salt_operator.Controller.World.{World, Env}
use vcf_salt_operator.Controller.Run.{done, ◌>>=◌}
use vcf_salt_operator.Controller.Preseed.{creation_time, since_vsphere_create}
use vcf_salt_operator.Controller.Accept.{run_accept_key, await_match, is_match}

module _ (env : Env) (c : Connection) where
  -- While no pending key matches and the machine does not exist in vSphere yet, the reconcile
  -- waits: it comes back after the interval and changes nothing, however much time has passed.
  pub run_accept_key-waits :
      (ip : String) (accept_timeout requeue_after : ℤ) (w : World) {pending : List String}
      → env.list_pending_keys w.tick c ≡ ok pending
      → is_match (find_minion_id env.unicode w.vm.name ip pending).method ≡ false
      → creation_time env w.vm ≡ none
      → run_accept_key env c ip accept_timeout requeue_after w
        ≡ done (record { requeue_after = requeue_after }) (record w { tick = suc w.tick })
  unfolding run_accept_key await_match since_vsphere_create ◌>>=◌
  run_accept_key-waits ip accept_timeout requeue_after w l n t = rw (l, n, t) refl
