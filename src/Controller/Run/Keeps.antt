-- ===== src/Controller/Run/Keeps.antt =====
-- Invariants of computations: one rule for each way to build a computation.
use vcf_salt_operator.Prelude.{
  ℕ, String, Bool, true, false, Option, none, some, List, if◌then◌else◌,
}
use vcf_salt_operator.Kube.Error.{Error, Result, ok, err}
use vcf_salt_operator.Controller.World.{World, Env, EventType, event, CacheEntry}
use vcf_salt_operator.Controller.Run.{
  M, Outcome, done, failed, return, throw, of_result, of_error, ask, ask_noting, current_vm,
  record_event, try_write, on_cache, attempt, with_result, with_option, ◌>>=◌, ticked, noted,
}

-- The world at the end, whether the computation returns or fails.
abbrev pub end : {A : Type 0} → Outcome A → World
end (done a w) = w
end (failed e w) = w

-- `m` keeps `P`, whether it returns or fails.
pub record Keeps {A : Type 0} (P : World → Type 0) (m : M A) : Type 0 where
  pub at : (w : World) → P w → P (end (m w))

module _ {A : Type 0} {P : World → Type 0} where
  pub Keeps-return : (a : A) → Keeps P (return a)
  unfolding return
  Keeps-return a = record { at = λ w h. h }

  pub Keeps-throw : (e : Error) → Keeps P (throw {A = A} e)
  unfolding throw
  Keeps-throw e = record { at = λ w h. h }

  pub Keeps-of_result : (r : Result A) → Keeps P (of_result r)
  unfolding of_result
  Keeps-of_result (ok a) = record { at = λ w h. h }
  Keeps-of_result (err e) = record { at = λ w h. h }

  pub Keeps-if : (b : Bool) (m n : M A) → Keeps P m → Keeps P n → Keeps P (if b then m else n)
  Keeps-if true m n km kn = km
  Keeps-if false m n km kn = kn

  pub Keeps-attempt : (m : M A) → Keeps P m → Keeps P (attempt m)
  unfolding attempt
  Keeps-attempt m km = record { at = λ w h. go (m w) (km.at w h) }
    where
      go :
          (o : Outcome A)
          → P (end o)
          → P (
              end {A = Option A}
                (elim o [ done a w' ↦ done (some a) w' | failed e w' ↦ done none w' ]))
      go (done a w) h = h
      go (failed e w) h = h

module _ {P : World → Type 0} where
  pub Keeps-of_error : (o : Option Error) → Keeps P (of_error o)
  unfolding of_error
  Keeps-of_error none = record { at = λ w h. h }
  Keeps-of_error (some e) = record { at = λ w h. h }

  pub Keeps-current_vm : Keeps P current_vm
  unfolding current_vm
  Keeps-current_vm = record { at = λ w h. h }

module _ {A B : Type 0} {P : World → Type 0} where
  pub Keeps-with_option :
      (o : Option A) (k : M B) (f : A → M B)
      → Keeps P k
      → ((a : A) → Keeps P (f a))
      → Keeps P (with_option o k f)
  Keeps-with_option none k f kk kf = kk
  Keeps-with_option (some a) k f kk kf = kf a

  pub Keeps-with_result :
      (r : Result A) (f : A → M B) (g : Error → M B)
      → ((a : A) → Keeps P (f a))
      → ((e : Error) → Keeps P (g e))
      → Keeps P (with_result r f g)
  Keeps-with_result (ok a) f g kf kg = kf a
  Keeps-with_result (err e) f g kf kg = kg e

  bind_end :
      (o : Outcome A) (f : A → M B)
      → P (end o)
      → ((a : A) → Keeps P (f a))
      → P (end {A = B} (elim o [ done a w' ↦ f a w' | failed e w' ↦ failed e w' ]))
  bind_end (done a w) f h kf = (kf a).at w h
  bind_end (failed e w) f h kf = h

  pub Keeps-bind :
      (m : M A) (f : A → M B) → Keeps P m → ((a : A) → Keeps P (f a)) → Keeps P (m >>= f)
  unfolding ◌>>=◌
  Keeps-bind m f km kf = record { at = λ w h. bind_end (m w) f (km.at w h) kf }

-- An invariant that does not depend on the number of calls, the cache or the events.
pub record IsStable (P : World → Type 0) : Type 0 where
  pub tick : (w : World) → P w → P (ticked w)
  pub on_event :
      (kind : EventType) (reason : String) (w : World) → P w → P (noted (event kind reason) w)
  pub on_entries : (entries : List CacheEntry) (w : World) → P w → P (record w { cache = entries })

module _ {P : World → Type 0} (s : IsStable P) where
  pub Keeps-ask : {A : Type 0} (f : ℕ → A) → Keeps P (ask f)
  unfolding ask
  Keeps-ask f = record { at = λ w h. s.tick w h }

  pub Keeps-record_event : (kind : EventType) (reason : String) → Keeps P (record_event kind reason)
  unfolding record_event
  Keeps-record_event kind reason = record { at = λ w h. s.on_event kind reason w h }

  pub Keeps-on_cache :
      {A : Type 0} (f : List CacheEntry → A × List CacheEntry) → Keeps P (on_cache f)
  unfolding on_cache
  Keeps-on_cache f = record { at = λ w h. s.on_entries (f w.cache).1 w h }

  -- A write whose change of the world keeps the invariant.
  pub Keeps-try_write :
      (env : Env) (change : World → World)
      → ((w : World) → P w → P (change w))
      → Keeps P (try_write env change)
  unfolding try_write
  Keeps-try_write env change k = record { at = λ w h. go (env.write_error w.tick) w h }
    where
      go :
          (o : Option Error) (w : World)
          → P w
          → P (
              end {A = Option Error} (elim o [
                | none ↦ done none (change (ticked w))
                | some e ↦ done (some e) (ticked w)
              ]))
      go none w h = k (ticked w) (s.tick w h)
      go (some e) w h = s.tick w h

  pub Keeps-ask_noting :
      {A : Type 0} (f : ℕ → A) (note_answer : A → World → World)
      → ((a : A) (w : World) → P w → P (note_answer a w))
      → Keeps P (ask_noting f note_answer)
  unfolding ask_noting
  Keeps-ask_noting f note_answer k = record { at = λ w h. k (f w.tick) (ticked w) (s.tick w h) }

pub ruleset keeps_rules = (
  Keeps-return, Keeps-throw, Keeps-of_result, Keeps-of_error, Keeps-current_vm, Keeps-if,
  Keeps-attempt, Keeps-with_option, Keeps-with_result, Keeps-bind,
)
