-- ===== src/Startup/Tasks.antt =====
-- The task that a start of the operator chooses: the enrolment, or the release of an earlier one.
use vcf_salt_operator.Prelude.{
  String, Bool, true, false, not, ◌≡◌, refl, arith, ltb, List, [], ◌∷◌, Option, none, some,
}
use vcf_salt_operator.Prelude.Lists.{length, any, In}
use vcf_salt_operator.Kube.Error.{Error, Result, ok, err}
use vcf_salt_operator.CommaList.{split_list}
use vcf_salt_operator.CommaList.{split_list}
use vcf_salt_operator.Enrolment.{Enrolment, Selector, enabled}
use vcf_salt_operator.Raasconn.{DefaultRef}
use vcf_salt_operator.Startup.{
  Flags, Platform, Action, enrolment_controller, release_task, Started, or_exit, done_or_exit,
  enrolment_of, selector_of, serving, with_enrolment, with_selector, enrolling, start,
}
use vcf_salt_operator.Startup.Exclusion.{Meant, All-In, start-All}

-- The two kinds of task that a start chooses from.
abbrev pub enrols : Action → Bool
enrols (enrolment_controller e) = true
enrols _ = false

abbrev pub releases : Action → Bool
releases release_task = true
releases _ = false

-- Of a start that comes to its end: one of the two tasks.
abbrev One : Started → Type 0
One s = s.finished ≡ true → any releases s.actions ≡ not (any enrols s.actions)

abbrev Neither : Started → Type 0
Neither s = s.finished ≡ true → (any releases s.actions ≡ false) × (any enrols s.actions ≡ false)

or_exit-One : (o : Option Error) (s : Started) → One s → One (or_exit o s)
or_exit-One none s h f = h f
or_exit-One (some e) s h f = absurd (ground arith)

done_or_exit-One :
    (o : Option Error) (a : Action) (s : Started)
    → enrols a ≡ false
    → releases a ≡ false
    → One s
    → One (done_or_exit o a s)
done_or_exit-One none a s e r h f = ground arith
done_or_exit-One (some x) a s e r h f = absurd (ground arith)

module _ (p : Platform) where
  serving-Neither : (d : DefaultRef) → Neither (serving p d)
  serving-Neither d f = (ground arith, ground arith)

  with_enrolment-One : (d : DefaultRef) (e : Enrolment) → One (with_enrolment p d e)
  with_enrolment-One d e f = ground (arith, serving-Neither d)

  with_selector-One : (f : Flags) (r : Result (Option Selector)) → One (with_selector p f r)
  with_selector-One f (ok sel) h = with_enrolment-One f.default_connection (enrolment_of p f sel) h
  with_selector-One f (err e) h = absurd (ground arith)

  enrolling-One : (f : Flags) → One (enrolling p f)
  enrolling-One f h = ground (arith, with_selector-One f (selector_of p f.enrol_selector))

  start-One : (f : Flags) → One (start p f)
  unfolding start
  start-One f = or_exit-One _ _ (
      done_or_exit-One p.add_config_controller _ _ refl refl
        (done_or_exit-One p.add_vm_controller _ _ refl refl (enrolling-One f)))

-- A release of the enrolled: the flags name nothing to enrol.
off :
    (p : Platform) (f : Flags) (selector : Option Selector)
    → enabled (enrolment_of p f selector) ≡ false
    → (split_list p.trim_space f.enrol_namespaces ≡ []) × (f.enrol_all ≡ false)
unfolding enabled enrolment_of
off p f selector h =
    (empty (split_list p.trim_space f.enrol_namespaces) (ground arith), ground arith)
  where
    empty : (l : List String) → ltb 0 (length l) ≡ false → l ≡ []
    empty [] h = refl
    empty (x ∷ l) h = absurd (ground arith)

-- A start that comes to its end either runs the enrolment or releases what an earlier one enrolled, and
-- not both; and it releases only where the flags name no namespace and do not ask for all.
pub start_one_task :
    (p : Platform) (f : Flags)
    → (start p f).finished ≡ true
    → (any releases (start p f).actions ≡ not (any enrols (start p f).actions))
      × (In release_task (start p f).actions
          → (split_list p.trim_space f.enrol_namespaces ≡ []) × (f.enrol_all ≡ false))
start_one_task p f h = (
  start-One p f h,
  λ i.
      (let meant = All-In (Meant p f) release_task _ (start-All p f) i in
        off p f (meant.0) (meant.1)),
)
