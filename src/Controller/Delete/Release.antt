-- ===== src/Controller/Delete/Release.antt =====
-- When the finalizer of a deleted machine goes.
use vcf_salt_operator.Prelude.{
  suc, String, Bool, true, false, not, ◌≡◌, refl, subst, arith, List, [], ◌∷◌,
}
use vcf_salt_operator.Prelude.{none, str_eq, ◌⊎◌, inl, inr, Bool-cases, Option-cases}
use vcf_salt_operator.Prelude.Int.{pos}
use vcf_salt_operator.Prelude.Lists.{contains, filter}
use vcf_salt_operator.Prelude.Dict.{get}
use vcf_salt_operator.Kube.{SaltKeyConfig, Vm}
use vcf_salt_operator.Kube.Error.{Error}
use vcf_salt_operator.Raasconn.{Connection, DefaultRef}
use vcf_salt_operator.Controller.Names.{
  salt_finalizer, annotation_minion_id, annotation_key_status, key_status_deleted,
}
use vcf_salt_operator.Controller.World.{World, Env, Effect}
use vcf_salt_operator.Controller.Run.{done, failed, ◌>>=◌, attempt, note, patch_annotations, write}
use vcf_salt_operator.Controller.Run.Keeps.{
  end, Keeps, keeps_rules, IsStable, Keeps-ask, Keeps-on_cache,
}
use vcf_salt_operator.Controller.Cache.{
  salt_client_from_config, cached_client, store_client, new_client,
}
use vcf_salt_operator.Controller.Delete.{
  drop_finalizer, remove_salt_finalizer, delete_key, delete_and_release, reconcile_delete,
}

-- Whether a machine is held back from its deletion by the operator.
abbrev pub is_held : World → Bool
is_held w = contains w.vm.finalizers salt_finalizer

contains-removed :
    (s : String) (l : List String) → contains (filter (λ f. not (str_eq f s)) l) s ≡ false
contains-removed s [] = refl
contains-removed s (f ∷ l) = ground (arith, contains-removed s l)

-- The machine is this one.
abbrev IsMachine : Vm → World → Type 0
IsMachine vm w = w.vm ≡ vm

IsMachine-stable : (vm : Vm) → IsStable (IsMachine vm)
IsMachine-stable vm = record {
  tick = λ w h. h;
  on_event = λ kind reason w h. h;
  on_entries = λ entries w h. h;
}

note-IsMachine : (vm : Vm) (e : Effect) → Keeps (IsMachine vm) (note e)
unfolding note
note-IsMachine vm e = record { at = λ w h. h }

module _ (env : Env) where
  -- Where the read and the write succeed, the finalizer goes.
  remove_salt_finalizer-releases :
      (w : World)
      → env.get_error w.tick ≡ none
      → env.write_error (suc w.tick) ≡ none
      → is_held (end (remove_salt_finalizer env w)) ≡ false
  unfolding remove_salt_finalizer drop_finalizer ◌>>=◌
  remove_salt_finalizer-releases w g p =
      ground (arith, contains-removed salt_finalizer w.vm.finalizers)

  -- The key deletion and the annotation do not keep the finalizer: whatever they answer, it goes
  -- where the later read and write of the machine succeed.
  pub delete_and_release-releases :
      (c : Connection) (id : String) (w : World)
      → env.get_error (suc (suc w.tick)) ≡ none
      → env.write_error (suc (suc (suc w.tick))) ≡ none
      → is_held (end (delete_and_release env c id w)) ≡ false
  unfolding delete_and_release delete_key patch_annotations write ◌>>=◌ attempt
  delete_and_release-releases c id w g p = elim (Option-cases (env.write_error (suc w.tick))) [
    | inl accepted ↦ rw (accepted, end) (remove_salt_finalizer-releases _ g p)
    | inr (e, refused) ↦ rw (refused, end) (remove_salt_finalizer-releases _ g p)
  ]

  cached_client-Keeps :
      (vm : Vm) (cfg : SaltKeyConfig) → Keeps (IsMachine vm) (cached_client env cfg)
  unfolding cached_client
  cached_client-Keeps vm cfg =
      search (keeps_rules, Keeps-ask, Keeps-on_cache, IsMachine-stable) depth 9

  store_client-Keeps :
      (vm : Vm) (cfg : SaltKeyConfig) (c : Connection)
      → Keeps (IsMachine vm) (store_client env cfg c)
  unfolding store_client
  store_client-Keeps vm cfg c =
      search (keeps_rules, Keeps-ask, Keeps-on_cache, IsMachine-stable) depth 9

  new_client-Keeps :
      (vm : Vm) (cfg : SaltKeyConfig) (d : DefaultRef) → Keeps (IsMachine vm) (new_client env cfg d)
  unfolding new_client
  new_client-Keeps vm cfg d =
      search (keeps_rules, Keeps-ask, IsMachine-stable, note-IsMachine) depth 12

  -- Asking for the client leaves the machine alone.
  client_vm :
      (cfg : SaltKeyConfig) (d : DefaultRef) (vm : Vm)
      → Keeps (IsMachine vm) (salt_client_from_config env cfg d)
  unfolding salt_client_from_config
  client_vm cfg d vm =
      search (keeps_rules, cached_client-Keeps, store_client-Keeps, new_client-Keeps) depth 9

  same_vm :
      (cfg : SaltKeyConfig) (d : DefaultRef) (w : World) (e : Error) (v : World)
      → salt_client_from_config env cfg d w ≡ failed e v
      → v.vm ≡ w.vm
  same_vm cfg d w e v f = subst (λ o. IsMachine w.vm (end o)) f ((client_vm cfg d w.vm).at w refl)

  -- A machine that is deleted without a minion ID, or whose Salt client cannot be had, keeps its
  -- finalizer, and nothing tries again: the reconcile ends without an error and without a delay,
  -- and the machine is as it was.
  pub reconcile_delete-stuck :
      (cfg : SaltKeyConfig) (d : DefaultRef) (w : World)
      → str_eq (get annotation_key_status w.vm.annotations) key_status_deleted ≡ false
      → (str_eq (get annotation_minion_id w.vm.annotations) "" ≡ true)
        ⊎ ((e : Error) × ((v : World) × (salt_client_from_config env cfg d w ≡ failed e v)))
      → ((v : World) × (reconcile_delete env cfg d w ≡ done (record { requeue_after = pos 0 }) v)
          × (v.vm ≡ w.vm))
  unfolding reconcile_delete ◌>>=◌ attempt
  reconcile_delete-stuck cfg d w n (inl empty) = (w, rw empty refl, refl)
  reconcile_delete-stuck cfg d w n (inr (e, (v, f))) =
      elim (Bool-cases (str_eq (get annotation_minion_id w.vm.annotations) "")) [
        | inl empty ↦ (w, rw empty refl, refl)
        | inr has ↦ (v, rw has (rw n (rw (f, attempt, ◌>>=◌) refl)), same_vm cfg d w e v f)
      ]
