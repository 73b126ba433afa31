-- ===== src/Controller/Frame.antt =====
-- What a reconcile leaves alone: the properties of the state that the operator's annotations, the
-- finalizer, the bootstrap Secret and the calls on the Salt API do not change.
pub mod Chain
pub mod Reconverge
pub mod Keys
pub mod Whole
pub mod Intent
pub mod Updates
pub mod Release
use vcf_salt_operator.Prelude.{ℕ, String, Bool, true, false, ◌≡◌, refl}
use vcf_salt_operator.Prelude.Dict.{Dict}
use vcf_salt_operator.Controller.World.{World, Env, EventType, Effect, Bootstrap, patched}
use vcf_salt_operator.Controller.Run.{
  M, ask, ask_noting, record_event, note, noted, try_write, with_annotations, with_finalizer,
  without_finalizer, patch_annotations, write, ◌>>=◌,
}
use vcf_salt_operator.Controller.Run.Keeps.{
  Keeps, IsStable, keeps_rules, Keeps-ask, Keeps-record_event, Keeps-ask_noting, Keeps-try_write,
  Keeps-bind, Keeps-of_error,
}
use vcf_salt_operator.Controller.Preseed.{with_secret, with_key_cleared}
use vcf_salt_operator.Controller.OwnWrites.Ignored.{all_own}

abbrev pub is_patch : Effect → Bool
is_patch (patched a) = true
is_patch _ = false

-- A property that every change keeps that is not the removal of the finalizer.
pub record Frame (env : Env) (P : World → Type 0) : Type 0 where
  pub stable : IsStable P
  pub on_note : (e : Effect) → is_patch e ≡ false → (w : World) → P w → P (noted e w)
  pub on_patch :
      (a : Dict String) → all_own a ≡ true → (w : World) → P w → P (with_annotations env a w)
  pub on_finalizer : (w : World) → P w → P (with_finalizer env w)
  pub on_secret : (b : Bootstrap) (w : World) → P w → P (with_secret env b w)
  pub on_clear : (w : World) → P w → P (with_key_cleared env w)

module _ {env : Env} {P : World → Type 0} (s : Frame env P) where
  pub ask-Keeps : {A : Type 0} (f : ℕ → A) → Keeps P (ask f)
  ask-Keeps f = Keeps-ask s.stable f

  pub record_event-Keeps : (k : EventType) (r : String) → Keeps P (record_event k r)
  record_event-Keeps k r = Keeps-record_event s.stable k r

  pub note-Keeps : (e : Effect) → is_patch e ≡ false → Keeps P (note e)
  unfolding note
  note-Keeps e p = record { at = λ w h. s.on_note e p w h }

  pub patch_annotations-Keeps :
      (a : Dict String) → all_own a ≡ true → Keeps P (patch_annotations env a)
  unfolding patch_annotations write
  patch_annotations-Keeps a o =
      Keeps-bind _ _ (Keeps-try_write s.stable env _ (s.on_patch a o)) (λ x. Keeps-of_error x)

pub ruleset frame_rules =
    (keeps_rules, ask-Keeps, record_event-Keeps, note-Keeps, patch_annotations-Keeps, refl)
