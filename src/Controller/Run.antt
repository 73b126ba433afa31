-- ===== src/Controller/Run.antt =====
-- Reconciles as computations on a world that may stop with an error, and the calls they make.
pub mod Keeps
pub mod Leads
use vcf_salt_operator.Prelude.{ℕ, suc, String, not, List, [], ◌∷◌, ◌++◌}
use vcf_salt_operator.Prelude.{Option, none, some, if◌then◌else◌, str_eq}
use vcf_salt_operator.Prelude.Int.{ℤ, pos, ◌-ℤ◌}
use vcf_salt_operator.Prelude.Lists.{contains, filter}
use vcf_salt_operator.Prelude.Dict.{Dict, copy_into}
use vcf_salt_operator.Kube.{Vm}
use vcf_salt_operator.Kube.Error.{Error, Result, ok, err, context}
use vcf_salt_operator.Controller.Durations.{sub_time}
use vcf_salt_operator.Controller.Names.{salt_finalizer}
use vcf_salt_operator.Controller.World.{
  World, Env, CacheEntry, Effect, EventType, patched, finalizer_added, finalizer_removed, event,
}

-- How a computation ends, with the world that it leaves.
pub data Outcome (A : Type 0) : Type 0 where
  done : A → World → Outcome A
  failed : Error → World → Outcome A

abbrev pub M : Type 0 → Type 0
M A = World → Outcome A

unfoldable pub return : {A : Type 0} → A → M A
return a w = done a w

unfoldable pub throw : {A : Type 0} → Error → M A
throw e w = failed e w

unfoldable pub of_result : {A : Type 0} → Result A → M A
unfolding return throw
of_result (ok a) = return a
of_result (err e) = throw e

unfoldable pub of_error : Option Error → M (Unit {0})
unfolding return throw
of_error none = return tt
of_error (some e) = throw e

-- `if err != nil { return fmt.Errorf(text, err) }`
abbrev pub wrapped : {A : Type 0} → String → Result A → Result A
wrapped text (ok a) = ok a
wrapped text (err e) = err (context text e)

abbrev pub wrapped_error : String → Option Error → Option Error
wrapped_error text none = none
wrapped_error text (some e) = some (context text e)

-- The world after one more call.
abbrev pub ticked : World → World
ticked w = record w { tick = suc w.tick }

abbrev pub noted : Effect → World → World
noted e w = record w { trace = e ∷ w.trace }

-- A call that changes nothing here.
unfoldable pub ask : {A : Type 0} → (ℕ → A) → M A
ask f w = done (f w.tick) (ticked w)

-- A call whose effect is told by its answer.
unfoldable pub ask_noting : {A : Type 0} → (ℕ → A) → (A → World → World) → M A
ask_noting f note w = let a = f w.tick in done a (note a (ticked w))

unfoldable pub current_vm : M Vm
current_vm w = done w.vm w

-- `Recorder.Event`, its message left out.
unfoldable pub record_event : EventType → String → M (Unit {0})
record_event kind reason w = done tt (noted (event kind reason) w)

-- A write to the API server: on success the world changes, and otherwise the error is given.
unfoldable pub try_write : Env → (World → World) → M (Option Error)
try_write env change w = elim (env.write_error w.tick) [
  | none ↦ done none (change (ticked w))
  | some e ↦ done (some e) (ticked w)
]

-- A use of the cache of clients.
unfoldable pub on_cache : {A : Type 0} → (List CacheEntry → A × List CacheEntry) → M A
on_cache f w = let (a, entries) = f w.cache in done a (record w { cache = entries })

-- A computation that notes an effect.
unfoldable pub note : Effect → M (Unit {0})
note e w = done tt (noted e w)

infixl 5 ◌>>=◌ ◌>>◌
-- Opening this opens the computations above.
unfoldable pub ◌>>=◌ : {A B : Type 0} → M A → (A → M B) → M B
unfolding return throw of_result of_error ask ask_noting current_vm record_event note try_write
    on_cache
◌>>=◌ m f w = elim (m w) [ done a w' ↦ f a w' | failed e w' ↦ failed e w' ]

abbrev pub ◌>>◌ : {B : Type 0} → M (Unit {0}) → M B → M B
m >> k = m >>= λ _. k

-- An error that does not end the computation: it goes on in the world that it left.
unfoldable pub attempt : {A : Type 0} → M A → M (Option A)
attempt m w = elim (m w) [ done a w' ↦ done (some a) w' | failed e w' ↦ done none w' ]

-- The two ways on from an answer.
abbrev pub with_result {ℓ} : {A : Type ℓ} {B : Type 0} → Result A → (A → M B) → (Error → M B) → M B
with_result (ok a) f g = f a
with_result (err e) f g = g e

abbrev pub with_option : {A B : Type 0} → Option A → M B → (A → M B) → M B
with_option none k f = k
with_option (some a) k f = f a

-- `ctrl.Result`: the delay after which the object is reconciled again, none if it is 0.
pub record Reconciled : Type 0 where
  pub requeue_after : ℤ

abbrev pub finished : M Reconciled
finished = return (record { requeue_after = pos 0 })

abbrev pub requeue : ℤ → M Reconciled
requeue d = return (record { requeue_after = d })

module _ (env : Env) where
  -- `time.Now`
  abbrev pub time_now : M ℕ
  time_now = ask env.now

  -- `time.Since`
  abbrev pub since : ℕ → M ℤ
  since t = time_now >>= λ now. return (sub_time now t)

  -- A write whose error ends the computation.
  unfoldable pub write : (World → World) → M (Unit {0})
  write change = do refused ← try_write env change; of_error refused

  abbrev pub with_annotations : Dict String → World → World
  with_annotations additions w =
      noted (patched additions)
        (record w { vm = record w.vm { annotations = copy_into additions w.vm.annotations } })

  -- `patchAnnotations`
  unfoldable pub patch_annotations : Dict String → M (Unit {0})
  unfolding write
  patch_annotations additions = write (with_annotations additions)

  abbrev pub with_finalizer : World → World
  with_finalizer w =
      noted finalizer_added
        (record w { vm = record w.vm { finalizers = w.vm.finalizers ++ (salt_finalizer ∷ []) } })

  -- `if !controllerutil.ContainsFinalizer { AddFinalizer; Patch }`
  unfoldable pub add_finalizer : M (Unit {0})
  unfolding write
  add_finalizer = do
    vm ← current_vm
    if contains vm.finalizers salt_finalizer then return tt else write with_finalizer

  abbrev pub without_finalizer : World → World
  without_finalizer w = noted finalizer_removed (record w {
    vm = record w.vm { finalizers = filter (λ f. not (str_eq f salt_finalizer)) w.vm.finalizers };
  })
