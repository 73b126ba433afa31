-- ===== src/Startup/Exclusion.antt =====
-- The enrolment that a start of the operator runs, and the namespace of the operator.
use vcf_salt_operator.Prelude.{
  String, Bool, true, false, ◌≡◌, inl, inr, refl, arith, sym, subst, List, [], ◌∷◌, ◌++◌, Option,
  none, some, str_eq,
}
use vcf_salt_operator.Prelude.Lists.{any, In}
use vcf_salt_operator.Kube.Error.{Error, Result, ok, err}
use vcf_salt_operator.CommaList.{split_list}
use vcf_salt_operator.CommaList.{split_list}
use vcf_salt_operator.Enrolment.{Enrolment, Selector, Namespace, enabled, matches, excluded}
use vcf_salt_operator.Startup.{
  Flags, Platform, Action, enrolment_controller, release_task, healthz_check, readyz_check, Started,
  or_exit, done_or_exit, enrolment_of, selector_of, serving, with_enrolment, with_selector,
  key_acceptance_valid, enrolling, start,
}
use text.Mathlib.Text.{starts_with}

-- What an action of a start says of its flags.
abbrev pub Meant : Platform → Flags → Action → Type 0
Meant p f (enrolment_controller e) =
    (enabled e ≡ true) × ((selector : Option Selector) × (e ≡ enrolment_of p f selector))
Meant p f release_task =
    (selector : Option Selector) × (enabled (enrolment_of p f selector) ≡ false)
Meant p f _ = Unit

abbrev pub All : (Action → Type 0) → List Action → Type 0
All P [] = Unit
All P (a ∷ as_) = P a × All P as_

pub All-In : (P : Action → Type 0) (a : Action) (l : List Action) → All P l → In a l → P a
All-In P a [] h i = absurd i
All-In P a (b ∷ l) (h, k) (inl e) = rw e h
All-In P a (b ∷ l) (h, k) (inr i) = All-In P a l k i

module _ (p : Platform) (f : Flags) where
  done_or_exit-All :
      (o : Option Error) (a : Action) (s : Started)
      → Meant p f a
      → All (Meant p f) s.actions
      → All (Meant p f) (done_or_exit o a s).actions
  done_or_exit-All none a s h k = (h, k)
  done_or_exit-All (some e) a s h k = tt

  or_exit-All :
      (o : Option Error) (s : Started)
      → All (Meant p f) s.actions
      → All (Meant p f) (or_exit o s).actions
  or_exit-All none s h = h
  or_exit-All (some e) s h = tt

  serving-All : All (Meant p f) (serving p f.default_connection).actions
  serving-All =
      done_or_exit-All p.add_healthz_check healthz_check _ tt (
        done_or_exit-All p.add_readyz_check readyz_check _ tt
          (tt, or_exit-All p.start_manager _ tt))

  with_enrolment-All :
      (sel : Option Selector) (b : Bool)
      → enabled (enrolment_of p f sel) ≡ b
      → All (Meant p f) (with_enrolment p f.default_connection (enrolment_of p f sel)).actions
  with_enrolment-All sel true e =
      rw e (done_or_exit-All p.add_enrolment_controller _ _ (e, (sel, refl)) serving-All)
  with_enrolment-All sel false e =
      rw e (done_or_exit-All p.add_release release_task _ (sel, e) serving-All)

  with_selector-All : (r : Result (Option Selector)) → All (Meant p f) (with_selector p f r).actions
  with_selector-All (ok sel) = with_enrolment-All sel _ refl
  with_selector-All (err e) = tt

  enrolling-All :
      (b : Bool)
      → key_acceptance_valid p f.enrol_key_acceptance ≡ b
      → All (Meant p f) (enrolling p f).actions
  enrolling-All true e = rw e (with_selector-All (selector_of p f.enrol_selector))
  enrolling-All false e = rw e tt

  pub start-All : All (Meant p f) (start p f).actions
  unfolding start
  start-All = or_exit-All _ _ (
      done_or_exit-All p.add_config_controller _ _ tt
        (done_or_exit-All p.add_vm_controller _ _ tt (enrolling-All _ refl)))

any-last :
    (q : String → Bool) (l : List String) (x : String) → q x ≡ true → any q (l ++ (x ∷ [])) ≡ true
any-last q [] x h = ground arith
any-last q (y ∷ l) x h = ground (arith, any-last q l x h)

matches-own :
    (e : Enrolment) (ns : Namespace)
    → excluded e.exclude_prefixes ns.name ≡ true
    → matches e ns ≡ false
unfolding matches
matches-own e ns h = rw h refl

-- Where the flag for the namespace of the default connection, by default the namespace of the
-- operator, is not empty, the enrolment that a start runs never matches that namespace, nor one whose
-- name starts with its name, whatever the other flags say.
pub own_namespace_excluded :
    (p : Platform) (f : Flags) (e : Enrolment) (ns : Namespace)
    → In (enrolment_controller e) (start p f).actions
    → str_eq f.default_connection.namespace "" ≡ false
    → starts_with ns.name f.default_connection.namespace ≡ true
    → matches e ns ≡ false
unfolding enrolment_of
own_namespace_excluded p f e ns i n h =
    let meant = All-In (Meant p f) (enrolment_controller e) _ (start-All p f) i in
    matches-own e ns (own meant.1)
  where
    own :
        ((selector : Option Selector) × (e ≡ enrolment_of p f selector))
        → excluded e.exclude_prefixes ns.name ≡ true
    own (sel, q) =
        subst (λ x. excluded x.exclude_prefixes ns.name ≡ true) (sym q)
          (any-last _ (split_list p.trim_space f.enrol_exclude) f.default_connection.namespace
            (ground arith))
