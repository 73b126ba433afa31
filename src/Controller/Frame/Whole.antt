-- ===== src/Controller/Frame/Whole.antt =====
-- A whole reconcile, and what it leaves alone.
use vcf_salt_operator.Prelude.{String, refl}
use vcf_salt_operator.Kube.{SaltKeyConfig}
use vcf_salt_operator.Raasconn.{Connection, DefaultRef}
use vcf_salt_operator.Controller.World.{World, Env}
use vcf_salt_operator.Controller.Run.{try_write, without_finalizer}
use vcf_salt_operator.Controller.Run.Keeps.{Keeps, Keeps-try_write, Keeps-ask_noting}
use vcf_salt_operator.Controller.Delete.{
  drop_finalizer, remove_salt_finalizer, delete_key, delete_and_release, reconcile_delete,
}
use vcf_salt_operator.Controller.Reconcile.{
  find_salt_key_config, reconcile_under, reconcile_managed, reconcile,
}
use vcf_salt_operator.Controller.OwnWrites.{is_own_write}
use vcf_salt_operator.Controller.Frame.{Frame, frame_rules}
use vcf_salt_operator.Controller.Frame.Reconverge.{salt_client_from_config-Keeps}
use vcf_salt_operator.Controller.Frame.Keys.{reconcile_create-Keeps}

module _ {env : Env} {P : World → Type 0} (s : Frame env P)
    (released : (w : World) → P w → P (without_finalizer env w)) where
  try_removal-Keeps : Keeps P (try_write env (without_finalizer env))
  try_removal-Keeps = Keeps-try_write s.stable env (without_finalizer env) released

  remove_salt_finalizer-Keeps : Keeps P (remove_salt_finalizer env)
  unfolding remove_salt_finalizer drop_finalizer
  remove_salt_finalizer-Keeps = search (frame_rules, try_removal-Keeps) depth 12

  delete_key-Keeps : (c : Connection) (id : String) → Keeps P (delete_key env c id)
  unfolding delete_key
  delete_key-Keeps c id = Keeps-ask_noting s.stable _ _ (λ b w h. s.on_note _ refl w h)

  delete_and_release-Keeps : (c : Connection) (id : String) → Keeps P (delete_and_release env c id)
  unfolding delete_and_release is_own_write
  delete_and_release-Keeps c id =
      search (frame_rules, delete_key-Keeps, remove_salt_finalizer-Keeps) depth 9

  reconcile_delete-Keeps :
      (cfg : SaltKeyConfig) (d : DefaultRef) → Keeps P (reconcile_delete env cfg d)
  unfolding reconcile_delete
  reconcile_delete-Keeps cfg d =
      search
        (
          frame_rules, remove_salt_finalizer-Keeps, salt_client_from_config-Keeps,
          delete_and_release-Keeps,
        )
        depth 12

  -- A reconcile keeps each property of this kind, on every path and whatever fails.
  pub reconcile-Keeps : (d : DefaultRef) → Keeps P (reconcile env d)
  unfolding reconcile reconcile_managed reconcile_under find_salt_key_config
  reconcile-Keeps d = search (frame_rules, reconcile_delete-Keeps, reconcile_create-Keeps) depth 18
