-- ===== src/Controller/Accept/Pending.antt =====
-- Which keys a discovery accepts.
use vcf_salt_operator.Prelude.{ℕ, suc, String, Bool, true, ◌≡◌, refl, arith, List, [], ◌∷◌}
use vcf_salt_operator.Prelude.{Option, none, some, eq_refl, Bool-cases, Option-cases, inl, inr, ◌⊎◌}
use vcf_salt_operator.Prelude.Int.{ℤ}
use vcf_salt_operator.Prelude.Dict.{Dict}
use vcf_salt_operator.Prelude.Lists.{contains}
use vcf_salt_operator.Kube.{Vm}
use vcf_salt_operator.Kube.Error.{ok}
use vcf_salt_operator.Raasconn.{Connection}
use vcf_salt_operator.Salt.Unicode.{Unicode}
use vcf_salt_operator.Salt.Matcher.{
  MatchMethod, by_name, by_ip, by_shifted_ip, by_prefix, no_match, MatchResult, find_minion_id,
}
use vcf_salt_operator.Salt.Matcher.Priority.{
  IsFirst, here, later, Explains, find_minion_id-Explains,
}
use vcf_salt_operator.Controller.World.{World, Env, Effect, EventType, key_accepted}
use vcf_salt_operator.Controller.Run.{
  ◌>>=◌, patch_annotations, with_annotations, add_finalizer, with_finalizer, write, ask,
  record_event,
}
use vcf_salt_operator.Controller.Run.Keeps.{
  end, Keeps, IsStable, keeps_rules, Keeps-ask, Keeps-record_event, Keeps-try_write, Keeps-bind,
  Keeps-of_error,
}
use vcf_salt_operator.Controller.Preseed.{since_vsphere_create, since_option}
use vcf_salt_operator.Controller.Accept.{
  run_accept_key, mark_accepted, accept_match, await_match, mark_timed_out, is_match,
}

-- The keys that were accepted, the last one first.
abbrev pub accepted_keys : List Effect → List String
accepted_keys [] = []
accepted_keys (key_accepted id ∷ t) = id ∷ accepted_keys t
accepted_keys (_ ∷ t) = accepted_keys t

-- The accepted keys are those of a list.
pub record HasAccepted (ids : List String) (w : World) : Type 0 where
  pub same : accepted_keys w.trace ≡ ids

IsFirst-contains :
    (p : String → Bool) (k : String) (ks : List String) → IsFirst p k ks → contains ks k ≡ true
IsFirst-contains p k [] f = elim f [ ]
IsFirst-contains p k (j ∷ ks) (here e) = ground (arith, eq_refl k)
IsFirst-contains p k (j ∷ ks) (later n f) = ground (arith, IsFirst-contains p k ks f)

Explains-contains :
    (u : Unicode) (name ip : String) (m : MatchMethod) (id : String) (keys : List String)
    → is_match m ≡ true
    → Explains u name ip m id keys
    → contains keys id ≡ true
Explains-contains u name ip by_name id keys h first = IsFirst-contains _ id keys first
Explains-contains u name ip by_ip id keys h e = IsFirst-contains _ id keys (e.1)
Explains-contains u name ip by_shifted_ip id keys h e = IsFirst-contains _ id keys (e.1)
Explains-contains u name ip by_prefix id keys h e = IsFirst-contains _ id keys (e.2)
Explains-contains u name ip no_match id keys h e = ground (arith, h)

module _ {ids : List String} where
  HasAccepted-stable : IsStable (HasAccepted ids)
  HasAccepted-stable = record {
    tick = λ w h. record { same = h.same };
    on_event = λ k r w h. record { same = h.same };
    on_entries = λ e w h. record { same = h.same };
  }

  ask-Keeps : {A : Type 0} (f : ℕ → A) → Keeps (HasAccepted ids) (ask f)
  ask-Keeps f = Keeps-ask HasAccepted-stable f

  record_event-Keeps : (k : EventType) (r : String) → Keeps (HasAccepted ids) (record_event k r)
  record_event-Keeps k r = Keeps-record_event HasAccepted-stable k r

  patch_annotations-Keeps :
      (env : Env) (a : Dict String) → Keeps (HasAccepted ids) (patch_annotations env a)
  unfolding patch_annotations
  patch_annotations-Keeps env a =
      Keeps-bind _ _
        (Keeps-try_write HasAccepted-stable env (with_annotations env a)
          (λ w h. record { same = h.same }))
        (λ o. Keeps-of_error o)

  write_finalizer-Keeps : (env : Env) → Keeps (HasAccepted ids) (write env (with_finalizer env))
  unfolding write
  write_finalizer-Keeps env =
      Keeps-bind _ _
        (Keeps-try_write HasAccepted-stable env (with_finalizer env)
          (λ w h. record { same = h.same }))
        (λ o. Keeps-of_error o)

ruleset accepted_rules =
    (keeps_rules, ask-Keeps, record_event-Keeps, patch_annotations-Keeps, write_finalizer-Keeps)

module _ (env : Env) {ids : List String} where
  add_finalizer-Keeps : Keeps (HasAccepted ids) (add_finalizer env)
  unfolding add_finalizer
  add_finalizer-Keeps = search accepted_rules depth 8

  since_option-Keeps : (o : Option ℕ) → Keeps (HasAccepted ids) (since_option env o)
  since_option-Keeps none = search accepted_rules
  since_option-Keeps (some t) = search accepted_rules depth 9

  since_vsphere_create-Keeps : (vm : Vm) → Keeps (HasAccepted ids) (since_vsphere_create env vm)
  unfolding since_vsphere_create
  since_vsphere_create-Keeps vm = since_option-Keeps _

  await_match-Keeps : (t r : ℤ) → Keeps (HasAccepted ids) (await_match env t r)
  unfolding await_match mark_timed_out
  await_match-Keeps t r = search (accepted_rules, since_vsphere_create-Keeps) depth 12

  -- What follows the acceptance of a key accepts no other.
  mark_accepted-Keeps :
      (match : MatchResult) (r : ℤ) → Keeps (HasAccepted ids) (mark_accepted env match r)
  unfolding mark_accepted
  mark_accepted-Keeps match r = search (accepted_rules, add_finalizer-Keeps) depth 14

module _ (env : Env) (c : Connection) where
  -- Where the pending keys can be listed, a discovery accepts no key, or one only: the key that the
  -- matching chose, which is a pending one, and only if the master agrees.
  pub run_accept_key-accepts :
      (ip : String) (accept_timeout requeue_after : ℤ) (w : World) {pending : List String}
      → env.list_pending_keys w.tick c ≡ ok pending
      → let v = end (run_accept_key env c ip accept_timeout requeue_after w) in
        let match = find_minion_id env.unicode w.vm.name ip pending in
        (accepted_keys v.trace ≡ accepted_keys w.trace)
        ⊎ ((accepted_keys v.trace ≡ match.minion_id ∷ accepted_keys w.trace)
            × (contains pending match.minion_id ≡ true)
            × (env.accept_key_error (suc w.tick) c match.minion_id ≡ none))
  unfolding run_accept_key accept_match ◌>>=◌
  run_accept_key-accepts ip t r w {pending} l =
      let match = find_minion_id env.unicode w.vm.name ip pending in
      elim (Bool-cases (is_match match.method)) [
        | inl yes_ ↦ elim (Option-cases (env.accept_key_error (suc w.tick) c match.minion_id)) [
          | inl agreed ↦ inr (
            rw (l, yes_, agreed, end)
                ((mark_accepted-Keeps env match r).at _ (record { same = refl })).same,
            Explains-contains _ _ _ _ _ pending yes_
                (find_minion_id-Explains env.unicode w.vm.name ip pending),
            agreed,
          )
          | inr (e, refused) ↦ inl (rw (l, yes_, refused, end) refl)
        ]
        | inr no_ ↦
            inl (rw (l, no_) ((await_match-Keeps env t r).at _ (record { same = refl })).same)
      ]
