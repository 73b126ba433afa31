-- ===== src/Controller/Frame/Updates.antt =====
-- The patches of a reconcile, and the filter of updates.
use vcf_salt_operator.Prelude.{
  String, Bool, true, false, ◌&&◌, ◌≡◌, refl, sym, subst, arith, List, [], ◌∷◌, Option, some, inl,
  inr,
}
use vcf_salt_operator.Prelude.Lists.{In}
use vcf_salt_operator.Prelude.Dict.{Dict, copy_into}
use vcf_salt_operator.Raasconn.{DefaultRef}
use vcf_salt_operator.Controller.World.{World, Env, Effect, patched}
use vcf_salt_operator.Controller.Run.Keeps.{end}
use vcf_salt_operator.Controller.Reconcile.{reconcile}
use vcf_salt_operator.Controller.OwnWrites.{Document, reconciles_update}
use vcf_salt_operator.Controller.OwnWrites.Ignored.{all_own, IsDeepEqual, own_writes_ignored}
use vcf_salt_operator.Controller.Frame.{Frame}
use vcf_salt_operator.Controller.Frame.{is_patch}
use vcf_salt_operator.Controller.Frame.Whole.{reconcile-Keeps}

-- Whether each patch of a trace writes annotations of the operator only.
abbrev own_patches : List Effect → Bool
own_patches [] = true
own_patches (patched a ∷ t) = all_own a && own_patches t
own_patches (_ ∷ t) = own_patches t

record Patched (w : World) : Type 0 where
  own : own_patches w.trace ≡ true

own_patches-note :
    (e : Effect) (t : List Effect)
    → is_patch e ≡ false
    → own_patches t ≡ true
    → own_patches (e ∷ t) ≡ true
own_patches-note e t p h = ground arith

Patched-Frame : (env : Env) → Frame env Patched
Patched-Frame env = record {
  stable = record {
    tick = λ w x. record { own = x.own };
    on_event = λ k r w x. record { own = x.own };
    on_entries = λ e w x. record { own = x.own };
  };
  on_note = λ e p w x. record { own = own_patches-note e w.trace p (x.own) };
  on_patch = λ a o w x. record { own = rw o (x.own) };
  on_finalizer = λ w x. record { own = x.own };
  on_secret = λ b w x. record { own = x.own };
  on_clear = λ w x. record { own = x.own };
}

own_patches-In :
    (a : Dict String) (t : List Effect) → own_patches t ≡ true → In (patched a) t → all_own a ≡ true
own_patches-In a [] h i = elim i [ ]
own_patches-In a (e ∷ t) h (inl p) = left (subst (λ x. own_patches (x ∷ t) ≡ true) (sym p) h)
  where
    left : (all_own a && own_patches t) ≡ true → all_own a ≡ true
    left h = ground arith
own_patches-In a (e ∷ t) h (inr i) = own_patches-In a t (rest e h) i
  where
    rest : (e : Effect) → own_patches (e ∷ t) ≡ true → own_patches t ≡ true
    rest e h = ground arith

-- Whatever its calls answer, no patch of annotations by a reconcile starts another one: where the
-- comparison of two documents is the one of their contents, the update that the patch makes of a
-- machine is ignored, whatever it does to the resource version and the managed fields.
pub reconcile-patches_ignored :
    (env : Env) (d : DefaultRef) (eq : Document → Document → Bool) (w : World) (a : Dict String)
    (doc : Document) (m : Dict String) (version fields : Option String)
    → IsDeepEqual eq
    → w.trace ≡ []
    → In (patched a) (end (reconcile env d w)).trace
    → doc.annotations ≡ some m
    → reconciles_update eq doc (record doc {
      resource_version = version;
      managed_fields = fields;
      annotations = some (copy_into a m);
    })
      ≡ false
reconcile-patches_ignored env d eq w a doc m version fields deep start i here =
    let kept =
      (reconcile-Keeps (Patched-Frame env) (λ v x. record { own = x.own }) d).at w
        (record { own = rw start refl }) in
    own_writes_ignored eq doc m a version fields deep here (own_patches-In a _ (kept.own) i)
