-- ===== src/Controller/Pillar/Order.antt =====
-- The order of refresh and highstate, over sequences of reconciles.
use vcf_salt_operator.Prelude.{ℕ, String, Bool, true, false, ◌≡◌, arith, List, []}
use vcf_salt_operator.Prelude.{Option, none, some}
use vcf_salt_operator.Prelude.Int.{ℤ}
use vcf_salt_operator.Prelude.Dict.{get}
use vcf_salt_operator.Kube.{Vm, SaltKeyConfig}
use vcf_salt_operator.Raasconn.{Connection, DefaultRef}
use vcf_salt_operator.Salt.Matcher.{MatchResult}
use vcf_salt_operator.Controller.Names.{annotation_salt_status}
use vcf_salt_operator.Controller.World.{
  World, Env, Bootstrap, CacheEntry, key_generated, key_accepted,
}
use vcf_salt_operator.Salt.Client.{KeyPair}
use vcf_salt_operator.Controller.Run.{noted, try_write, without_finalizer}
use vcf_salt_operator.Controller.Run.Keeps.{
  Keeps, Keeps-if, Keeps-return, Keeps-try_write, Keeps-ask_noting, Keeps-bind, Keeps-of_error, end,
}
use vcf_salt_operator.Controller.Pillar.{PillarFirst, PillarFirst-stable, guarded, in_pillar_phase}
use vcf_salt_operator.Controller.Pillar.Steps.{pillar_rules, note-Keeps, clear_preseed_key-Keeps}
use vcf_salt_operator.Controller.Pillar.Reconciles.{
  add_finalizer-Keeps, salt_client_from_config-Keeps, reconcile_post_accept-Keeps,
}
use vcf_salt_operator.Controller.Preseed.{
  since_vsphere_create, since_option, write_bootstrap_secret, with_secret, minion_id_owner,
  require_pair, generate_key, refuse_minion_id, run_preseed_key, mark_preseed_accepted,
}
use vcf_salt_operator.Controller.Accept.{
  mark_accepted, accept_match, mark_timed_out, await_match, run_accept_key,
}
use vcf_salt_operator.Controller.Create.{
  clear_used_key, mark_not_running, preseed, discover, await_key, accepted, reconcile_create,
}
use vcf_salt_operator.Controller.Delete.{
  drop_finalizer, remove_salt_finalizer, delete_key, delete_and_release, reconcile_delete,
}
use vcf_salt_operator.Controller.Reconcile.{
  find_salt_key_config, reconcile_under, reconcile_managed, reconcile,
}

module _ (env : Env) where
  since_option-Keeps : (o : Option ℕ) → Keeps PillarFirst (since_option env o)
  since_option-Keeps none = search pillar_rules
  since_option-Keeps (some t) = search pillar_rules depth 9

  since_vsphere_create-Keeps : (vm : Vm) → Keeps PillarFirst (since_vsphere_create env vm)
  unfolding since_vsphere_create
  since_vsphere_create-Keeps vm = since_option-Keeps _

  with_secret-PillarFirst :
      (b : Bootstrap) (w : World) → PillarFirst w → PillarFirst (with_secret env b w)
  with_secret-PillarFirst b w h = ground arith

  write_bootstrap_secret-Keeps : (b : Bootstrap) → Keeps PillarFirst (write_bootstrap_secret env b)
  unfolding write_bootstrap_secret
  write_bootstrap_secret-Keeps b =
      let try = Keeps-try_write PillarFirst-stable env _ (with_secret-PillarFirst b) in
      Keeps-bind _ _ try
        λ o. Keeps-bind _ _ (Keeps-if _ _ _ try (Keeps-return o)) λ p. Keeps-of_error _

  require_pair-Keeps : (o : Option KeyPair) → Keeps PillarFirst (require_pair env o)
  require_pair-Keeps none = search pillar_rules
  require_pair-Keeps (some p) = search pillar_rules

  key_generated-PillarFirst :
      (id : String) (b : Bool) (w : World)
      → PillarFirst w
      → PillarFirst (noted (key_generated id b) w)
  key_generated-PillarFirst id b w h = ground arith

  key_accepted-PillarFirst :
      (id : String) (w : World) → PillarFirst w → PillarFirst (noted (key_accepted id) w)
  key_accepted-PillarFirst id w h = ground arith

  generate_key-Keeps :
      (c : Connection) (id : String) (r : ℤ) → Keeps PillarFirst (generate_key env c id r)
  unfolding generate_key
  generate_key-Keeps c id r =
      search
        (
          pillar_rules, note-Keeps, key_generated-PillarFirst, require_pair-Keeps,
          write_bootstrap_secret-Keeps, add_finalizer-Keeps,
        )
        depth 22

  minion_id_owner-Keeps : (vm : Vm) (id : String) → Keeps PillarFirst (minion_id_owner env vm id)
  unfolding minion_id_owner
  minion_id_owner-Keeps vm id = search pillar_rules depth 8

  refuse_minion_id-Keeps : Keeps PillarFirst (refuse_minion_id env)
  unfolding refuse_minion_id
  refuse_minion_id-Keeps = search pillar_rules depth 8

  run_preseed_key-Keeps : (c : Connection) (r : ℤ) → Keeps PillarFirst (run_preseed_key env c r)
  unfolding run_preseed_key
  run_preseed_key-Keeps c r =
      search (pillar_rules, minion_id_owner-Keeps, refuse_minion_id-Keeps, generate_key-Keeps) depth
        9

  mark_preseed_accepted-Keeps : (r : ℤ) → Keeps PillarFirst (mark_preseed_accepted env r)
  unfolding mark_preseed_accepted
  mark_preseed_accepted-Keeps r = search pillar_rules depth 9

  accept_match-Keeps :
      (c : Connection) (m : MatchResult) (r : ℤ) → Keeps PillarFirst (accept_match env c m r)
  unfolding accept_match mark_accepted
  accept_match-Keeps c m r =
      search (pillar_rules, note-Keeps, key_accepted-PillarFirst, add_finalizer-Keeps) depth 14

  await_match-Keeps : (t r : ℤ) → Keeps PillarFirst (await_match env t r)
  unfolding await_match mark_timed_out
  await_match-Keeps t r = search (pillar_rules, since_vsphere_create-Keeps) depth 12

  run_accept_key-Keeps :
      (c : Connection) (ip : String) (t r : ℤ) → Keeps PillarFirst (run_accept_key env c ip t r)
  unfolding run_accept_key
  run_accept_key-Keeps c ip t r =
      search (pillar_rules, accept_match-Keeps, await_match-Keeps) depth 9

module _ (env : Env) (d : DefaultRef) (cfg : SaltKeyConfig) where
  await_key-Keeps : (vm : Vm) (b : Bool) → Keeps PillarFirst (await_key env d cfg vm b)
  unfolding await_key preseed discover mark_not_running
  await_key-Keeps vm b =
      search
        (
          pillar_rules, salt_client_from_config-Keeps, run_preseed_key-Keeps, run_accept_key-Keeps,
          mark_preseed_accepted-Keeps,
        )
        depth 12

  accepted-Keeps : Keeps PillarFirst (accepted env d cfg)
  unfolding accepted
  accepted-Keeps =
      search
        (
          pillar_rules, add_finalizer-Keeps, salt_client_from_config-Keeps,
          reconcile_post_accept-Keeps,
        )
        depth 9

  reconcile_create-Keeps : Keeps PillarFirst (reconcile_create env d cfg)
  unfolding reconcile_create clear_used_key
  reconcile_create-Keeps =
      search
        (
          pillar_rules, since_vsphere_create-Keeps, clear_preseed_key-Keeps, await_key-Keeps,
          accepted-Keeps,
        )
        depth 12

module _ (env : Env) where
  try_removal-Keeps : Keeps PillarFirst (try_write env (without_finalizer env))
  try_removal-Keeps =
      Keeps-try_write PillarFirst-stable env (without_finalizer env) (λ w h. ground arith)

  drop_finalizer-Keeps : Keeps PillarFirst (drop_finalizer env)
  unfolding drop_finalizer
  drop_finalizer-Keeps = search (pillar_rules, try_removal-Keeps) depth 9

  remove_salt_finalizer-Keeps : Keeps PillarFirst (remove_salt_finalizer env)
  unfolding remove_salt_finalizer
  remove_salt_finalizer-Keeps = search (pillar_rules, drop_finalizer-Keeps) depth 8

  delete_key-Keeps : (c : Connection) (id : String) → Keeps PillarFirst (delete_key env c id)
  unfolding delete_key
  delete_key-Keeps c id = Keeps-ask_noting PillarFirst-stable _ _ (λ b w h. ground arith)

  delete_and_release-Keeps :
      (c : Connection) (id : String) → Keeps PillarFirst (delete_and_release env c id)
  unfolding delete_and_release
  delete_and_release-Keeps c id =
      search (pillar_rules, delete_key-Keeps, remove_salt_finalizer-Keeps) depth 9

  reconcile_delete-Keeps :
      (cfg : SaltKeyConfig) (d : DefaultRef) → Keeps PillarFirst (reconcile_delete env cfg d)
  unfolding reconcile_delete
  reconcile_delete-Keeps cfg d =
      search
        (
          pillar_rules, remove_salt_finalizer-Keeps, salt_client_from_config-Keeps,
          delete_and_release-Keeps,
        )
        depth 12

  reconcile_under-Keeps :
      (d : DefaultRef) (cfg : SaltKeyConfig) → Keeps PillarFirst (reconcile_under env d cfg)
  unfolding reconcile_under
  reconcile_under-Keeps d cfg =
      search (pillar_rules, reconcile_delete-Keeps, reconcile_create-Keeps) depth 8

  -- A reconcile keeps the order of refresh and highstate, on every path and whatever fails.
  pub reconcile-Keeps : (d : DefaultRef) → Keeps PillarFirst (reconcile env d)
  unfolding reconcile reconcile_managed find_salt_key_config
  reconcile-Keeps d = search (pillar_rules, reconcile_under-Keeps) depth 14

-- What happens to a machine: the operator reconciles it, or others change it, but for the phase,
-- which only the operator writes. Time passes and clients come and go.
pub data Step (env : Env) (d : DefaultRef) : World → World → Type 0 where
  reconciled : (w : World) → Step env d w (end (reconcile env d w))
  edited :
      (w : World) (vm : Vm)
      → get annotation_salt_status vm.annotations ≡ get annotation_salt_status w.vm.annotations
      → Step env d w (record w { vm = vm })
  elapsed :
      (w : World) (tick : ℕ) (secret : Option Bootstrap) (cache : List CacheEntry)
      → Step env d w (record w { tick = tick; secret = secret; cache = cache })

pub data Reach (env : Env) (d : DefaultRef) (w : World) : World → Type 0 where
  here : Reach env d w w
  next : {u v : World} → Reach env d w u → Step env d u v → Reach env d w v

module _ (env : Env) (d : DefaultRef) where
  Step-PillarFirst : {w v : World} → Step env d w v → PillarFirst w → PillarFirst v
  Step-PillarFirst (reconciled w) h = (reconcile-Keeps env d).at w h
  Step-PillarFirst (edited w vm e) h = record {
    dispatched_fresh = h.dispatched_fresh;
    phase_fresh = rw e (h.phase_fresh);
  }
  Step-PillarFirst (elapsed w tick secret cache) h = record {
    dispatched_fresh = h.dispatched_fresh;
    phase_fresh = h.phase_fresh;
  }

  Reach-PillarFirst : {w v : World} → Reach env d w v → PillarFirst w → PillarFirst v
  Reach-PillarFirst here h = h
  Reach-PillarFirst (next r s) h = Step-PillarFirst s (Reach-PillarFirst r h)

  -- Whatever reconciles and edits by others follow one another, and whichever calls fail, each
  -- highstate that was dispatched came after a pillar refresh that succeeded, with no other phase
  -- written in between. The machine starts with no call made and in another phase than the one
  -- behind a refresh, and others do not write the phase.
  pub Reach-guarded :
      {w v : World}
      → w.trace ≡ []
      → in_pillar_phase w.vm.annotations ≡ false
      → Reach env d w v
      → guarded v.trace ≡ true
  Reach-guarded t p r = (Reach-PillarFirst r (ground arith)).dispatched_fresh
