-- ===== src/Controller/Frame/Intent.antt =====
-- A reconcile, and the intent hash of its machine.
use vcf_salt_operator.Prelude.{String, true, ◌≡◌, refl, ◌∙◌, arith, [], ◌∷◌}
use vcf_salt_operator.Prelude.Dict.{Dict}
use vcf_salt_operator.Raasconn.{DefaultRef}
use vcf_salt_operator.Controller.World.{World, Env}
use vcf_salt_operator.Controller.Run.Keeps.{end}
use vcf_salt_operator.Controller.IntentHash.{compute_intent_hash}
use vcf_salt_operator.Controller.IntentHash.Stability.{no_intent, compute_intent_hash-copy_into}
use vcf_salt_operator.Controller.Reconcile.{reconcile}
use vcf_salt_operator.Controller.OwnWrites.Ignored.{all_own}
use vcf_salt_operator.Controller.OwnWrites.Seen.{is_intent-own}
use vcf_salt_operator.Controller.Frame.{Frame}
use vcf_salt_operator.Controller.Frame.Whole.{reconcile-Keeps}

-- The intent hash of the machine is `h`.
record HasHash (env : Env) (h : String) (w : World) : Type 0 where
  hash : compute_intent_hash env w.vm.annotations ≡ h

all_own-no_intent : (a : Dict String) → all_own a ≡ true → no_intent a ≡ true
all_own-no_intent [] h = refl
all_own-no_intent ((k, v) ∷ a) h = ground (arith, is_intent-own k, all_own-no_intent a)

HasHash-Frame : (env : Env) (h : String) → Frame env (HasHash env h)
HasHash-Frame env h = record {
  stable = record {
    tick = λ w x. record { hash = x.hash };
    on_event = λ k r w x. record { hash = x.hash };
    on_entries = λ e w x. record { hash = x.hash };
  };
  on_note = λ e p w x. record { hash = x.hash };
  on_patch = λ a o w x. record {
    hash = compute_intent_hash-copy_into env a w.vm.annotations (all_own-no_intent a o) ∙ x.hash;
  };
  on_finalizer = λ w x. record { hash = x.hash };
  on_secret = λ b w x. record { hash = x.hash };
  on_clear = λ w x. record { hash = x.hash };
}

-- A reconcile leaves the intent hash of its machine as it was, on every path and whatever its calls
-- answer.
pub reconcile-intent_hash :
    (env : Env) (d : DefaultRef) (w : World)
    → compute_intent_hash env (end (reconcile env d w)).vm.annotations
      ≡ compute_intent_hash env w.vm.annotations
reconcile-intent_hash env d w =
    ((reconcile-Keeps (HasHash-Frame env (compute_intent_hash env w.vm.annotations))
        (λ v x. record { hash = x.hash }) d).at
      w (record { hash = refl })).hash
