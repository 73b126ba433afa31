-- ===== src/Controller/Pillar.antt =====
-- The order of pillar refresh and highstate: what a trace and a machine say of it.
pub mod Steps
pub mod Reconciles
pub mod Order
use vcf_salt_operator.Prelude.{String, Bool, true, false, not, ◌&&◌, ◌||◌, List, [], ◌∷◌, ◌++◌}
use vcf_salt_operator.Prelude.{◌≡◌, refl, arith, str_eq, if◌then◌else◌, Option, none, some}
use vcf_salt_operator.Prelude.Dict.{Dict, get, copy_into}
use vcf_salt_operator.Controller.Names.{annotation_salt_status}
use vcf_salt_operator.Controller.World.{
  World, Env, Effect, patched, pillar_refreshed, highstate_dispatched, finalizer_added,
}
use vcf_salt_operator.Controller.Run.{
  M, ticked, noted, with_annotations, patch_annotations, write, ◌>>=◌,
}
use vcf_salt_operator.Controller.Run.Keeps.{
  Keeps, IsStable, keeps_rules, Keeps-try_write, Keeps-bind, Keeps-of_error, end,
}

abbrev pub pillar_phase : String
pillar_phase = "PillarRefreshed"

-- Whether a patch writes the phase behind a pillar refresh, or another phase.
abbrev pub arrives : Dict String → Bool
arrives [] = false
arrives ((k, v) ∷ a) = if str_eq k annotation_salt_status then str_eq v pillar_phase else arrives a

abbrev pub leaves : Dict String → Bool
leaves [] = false
leaves ((k, v) ∷ a) =
    if str_eq k annotation_salt_status then not (str_eq v pillar_phase) else leaves a

-- Whether, in a trace with the newest effect first, the pillar was refreshed with success and no
-- other phase was written since.
abbrev pub fresh : List Effect → Bool
fresh [] = false
fresh (patched a ∷ t) = let rest = fresh t in if leaves a then false else rest
fresh (pillar_refreshed id answer ∷ t) = answer || fresh t
fresh (_ ∷ t) = fresh t

-- Whether each highstate of a trace was dispatched on a fresh pillar.
abbrev pub guarded : List Effect → Bool
guarded [] = true
guarded (highstate_dispatched id ∷ t) = fresh t && guarded t
guarded (_ ∷ t) = guarded t

abbrev pub in_pillar_phase : Dict String → Bool
in_pillar_phase a = str_eq (get annotation_salt_status a) pillar_phase

-- What holds of a world between two reconciles.
pub record PillarFirst (w : World) : Type 0 where
  pub dispatched_fresh : guarded w.trace ≡ true
  pub phase_fresh : (not (in_pillar_phase w.vm.annotations) || fresh w.trace) ≡ true

in_pillar_phase-copy_into :
    (a m : Dict String)
    → in_pillar_phase (copy_into a m) ≡ (arrives a || (not (leaves a) && in_pillar_phase m))
in_pillar_phase-copy_into [] m = refl
in_pillar_phase-copy_into ((k, v) ∷ a) m = ground (arith, in_pillar_phase-copy_into a m)

pub PillarFirst-stable : IsStable PillarFirst
PillarFirst-stable = record {
  tick = λ w h. record { dispatched_fresh = h.dispatched_fresh; phase_fresh = h.phase_fresh };
  on_event =
      λ k r w h. record { dispatched_fresh = h.dispatched_fresh; phase_fresh = h.phase_fresh };
  on_entries =
      λ e w h. record { dispatched_fresh = h.dispatched_fresh; phase_fresh = h.phase_fresh };
}

with_annotations-PillarFirst :
    (env : Env) (a : Dict String)
    → arrives a ≡ false
    → (w : World) → PillarFirst w
    → PillarFirst (with_annotations env a w)
with_annotations-PillarFirst env a e w h =
    ground (arith, in_pillar_phase-copy_into a w.vm.annotations)

pub patch_annotations-Keeps :
    (env : Env) (a : Dict String) → arrives a ≡ false → Keeps PillarFirst (patch_annotations env a)
unfolding patch_annotations
patch_annotations-Keeps env a e =
    Keeps-bind _ _ (Keeps-try_write PillarFirst-stable env _ (with_annotations-PillarFirst env a e))
      (λ o. Keeps-of_error o)
