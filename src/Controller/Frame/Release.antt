-- ===== src/Controller/Frame/Release.antt =====
-- The finalizer of a machine that is not being deleted.
use vcf_salt_operator.Prelude.{
  String, Bool, true, false, ◌≡◌, arith, List, [], ◌∷◌, if◌then◌else◌, ◌++◌,
}
use vcf_salt_operator.Prelude.Lists.{contains}
use vcf_salt_operator.Kube.{Vm, SaltKeyConfig}
use vcf_salt_operator.Raasconn.{DefaultRef}
use vcf_salt_operator.Controller.Names.{salt_finalizer}
use vcf_salt_operator.Controller.World.{World, Env}
use vcf_salt_operator.Controller.Run.{M, current_vm, ◌>>=◌}
use vcf_salt_operator.Controller.Run.Keeps.{Keeps, end, Keeps-if, Keeps-return, keeps_rules}
use vcf_salt_operator.Controller.Reconcile.{
  find_salt_key_config, reconcile_under, reconcile_managed, reconcile,
}
use vcf_salt_operator.Controller.Frame.{Frame, ask-Keeps}
use vcf_salt_operator.Controller.Frame.Keys.{reconcile_create-Keeps}

-- The machine is not being deleted, and carries the finalizer of the operator.
record Held (w : World) : Type 0 where
  stays : w.vm.deleting ≡ false
  held : contains w.vm.finalizers salt_finalizer ≡ true

contains-append :
    (xs ys : List String) (k : String) → contains xs k ≡ true → contains (xs ++ ys) k ≡ true
contains-append [] ys k h = absurd (ground arith)
contains-append (x ∷ xs) ys k h = ground (arith, contains-append xs ys k)

Held-Frame : (env : Env) → Frame env Held
Held-Frame env = record {
  stable = record {
    tick = λ w x. record { stays = x.stays; held = x.held };
    on_event = λ k r w x. record { stays = x.stays; held = x.held };
    on_entries = λ e w x. record { stays = x.stays; held = x.held };
  };
  on_note = λ e p w x. record { stays = x.stays; held = x.held };
  on_patch = λ a o w x. record { stays = x.stays; held = x.held };
  on_finalizer =
      λ w x. record { stays = x.stays; held = contains-append w.vm.finalizers _ _ (x.held) };
  on_secret = λ b w x. record { stays = x.stays; held = x.held };
  on_clear = λ w x. record { stays = x.stays; held = x.held };
}

-- What follows a read of the machine may use what holds of it.
current_vm-bind :
    {B : Type 0} (f : Vm → M B)
    → ((w : World) → Held w → Held (end (f w.vm w)))
    → Keeps Held (current_vm >>= f)
unfolding ◌>>=◌
current_vm-bind f k = record { at = λ w h. k w h }

-- Of a machine that is not being deleted, the branch of the deletion is not taken.
Keeps-second :
    {B : Type 0} (b : Bool) (m n : M B) → b ≡ false → Keeps Held n → Keeps Held (if b then m else n)
Keeps-second true m n e k = absurd (ground arith)
Keeps-second false m n e k = k

module _ (env : Env) (d : DefaultRef) where
  reconcile_under-Held : (cfg : SaltKeyConfig) → Keeps Held (reconcile_under env d cfg)
  unfolding reconcile_under
  reconcile_under-Held cfg = current_vm-bind _ λ w h.
      (Keeps-second w.vm.deleting _ _ (h.stays)
          (Keeps-if _ _ _ (reconcile_create-Keeps (Held-Frame env) d cfg) (Keeps-return _))).at
        w h

  reconcile-Held : Keeps Held (reconcile env d)
  unfolding reconcile reconcile_managed find_salt_key_config
  reconcile-Held = search (keeps_rules, ask-Keeps (Held-Frame env), reconcile_under-Held) depth 18

  -- A reconcile of a machine that is not being deleted never takes the finalizer of the operator
  -- from it, whatever its calls answer.
  pub reconcile-keeps_finalizer :
      (w : World)
      → w.vm.deleting ≡ false
      → contains w.vm.finalizers salt_finalizer ≡ true
      → contains (end (reconcile env d w)).vm.finalizers salt_finalizer ≡ true
  reconcile-keeps_finalizer w n h = (reconcile-Held.at w (record { stays = n; held = h })).held
