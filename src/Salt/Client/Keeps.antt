-- ===== src/Salt/Client/Keeps.antt =====
-- Invariants of sessions: one rule for each way to build a call.
use vcf_salt_operator.Prelude.{
  String, Bool, true, false, ◌≡◌, refl, Option, none, some, if◌then◌else◌,
}
use vcf_salt_operator.Kube.Error.{Error, Result, ok, err}
use vcf_salt_operator.Salt.Client.{
  Session, Call, give, refuse, result, within, require, expect, session, ◌>>=◌, labelled, and_then,
}

-- The call keeps a property of the session, whether it gives a value or an error.
pub record KeepsSession {A : Type 0} (P : Session → Type 0) (m : Call A) : Type 0 where
  pub along : (s : Session) → P s → P (m s).1

labelled_session :
    {A : Type 0} (P : Session → Type 0) (label : String) (r : Result A × Session)
    → P r.1
    → P (labelled label r).1
labelled_session P label (ok a, s) h = h
labelled_session P label (err e, s) h = h

next_session :
    {A B : Type 0} (P : Session → Type 0) (r : Result A × Session) (f : A → Call B)
    → P r.1
    → ((a : A) → KeepsSession P (f a))
    → P (and_then r f).1
next_session P (ok a, s) f h k = (k a).along s h
next_session P (err e, s) f h k = h

module _ {P : Session → Type 0} where
  pub KeepsSession-give : {A : Type 0} (a : A) → KeepsSession P (give a)
  unfolding give
  KeepsSession-give a = record { along = λ s h. h }

  pub KeepsSession-refuse : {A : Type 0} (e : Error) → KeepsSession P (refuse {A = A} e)
  unfolding refuse
  KeepsSession-refuse e = record { along = λ s h. h }

  pub KeepsSession-result : {A : Type 0} (r : Result A) → KeepsSession P (result r)
  unfolding result
  KeepsSession-result r = record { along = λ s h. h }

  pub KeepsSession-session : KeepsSession P session
  unfolding session
  KeepsSession-session = record { along = λ s h. h }

  pub KeepsSession-require : (b : Bool) (label : String) → KeepsSession P (require b label)
  unfolding require
  KeepsSession-require true label = record { along = λ s h. h }
  KeepsSession-require false label = record { along = λ s h. h }

  pub KeepsSession-expect :
      {A : Type 0} (label : String) (o : Option A) → KeepsSession P (expect label o)
  unfolding expect
  KeepsSession-expect label none = record { along = λ s h. h }
  KeepsSession-expect label (some a) = record { along = λ s h. h }

  pub KeepsSession-if :
      {A : Type 0} (b : Bool) (m n : Call A)
      → KeepsSession P m
      → KeepsSession P n
      → KeepsSession P (if b then m else n)
  KeepsSession-if true m n km kn = km
  KeepsSession-if false m n km kn = kn

  pub KeepsSession-within :
      {A : Type 0} (label : String) (m : Call A)
      → KeepsSession P m
      → KeepsSession P (within label m)
  unfolding within
  KeepsSession-within label m k = record {
    along = λ s h. labelled_session P label (m s) (k.along s h);
  }

  pub KeepsSession-bind :
      {A B : Type 0} (m : Call A) (f : A → Call B)
      → KeepsSession P m
      → ((a : A) → KeepsSession P (f a))
      → KeepsSession P (m >>= f)
  unfolding ◌>>=◌
  KeepsSession-bind m f km kf = record { along = λ s h. next_session P (m s) f (km.along s h) kf }

  -- The two ways on from a value that may be missing.
  pub KeepsSession-option :
      {A B : Type 0} (o : Option A) (m : Call B) (f : A → Call B)
      → KeepsSession P m
      → ((a : A) → KeepsSession P (f a))
      → KeepsSession P (elim o [ none ↦ m | some a ↦ f a ])
  KeepsSession-option none m f km kf = km
  KeepsSession-option (some a) m f km kf = kf a

pub ruleset session_rules = (
  KeepsSession-give, KeepsSession-refuse, KeepsSession-result, KeepsSession-session,
  KeepsSession-require, KeepsSession-expect, KeepsSession-if, KeepsSession-within,
  KeepsSession-bind,
)

-- What holds at the end: `Q` of a value, `R` where the call ends with an error.
abbrev pub After :
    {A : Type 0} → (A → Session → Type 0) → (Session → Type 0) → Result A × Session → Type 0
After Q R (ok a, s) = Q a s
After Q R (err e, s) = R s

-- From a session with `P`, the call ends with `Q` or with `R`.
pub record Leads {A : Type 0} (P : Session → Type 0) (Q : A → Session → Type 0)
    (R : Session → Type 0) (m : Call A) : Type 0 where
  pub from : (s : Session) → P s → After Q R (m s)

After-labelled :
    {A : Type 0} (Q : A → Session → Type 0) (R : Session → Type 0) (label : String)
    (r : Result A × Session)
    → After Q R r
    → After Q R (labelled label r)
After-labelled Q R label (ok a, s) h = h
After-labelled Q R label (err e, s) h = h

After-and_then :
    {A B : Type 0} (Q : A → Session → Type 0) (S : B → Session → Type 0) (R : Session → Type 0)
    (r : Result A × Session) (f : A → Call B)
    → After Q R r
    → ((a : A) → Leads (Q a) S R (f a))
    → After S R (and_then r f)
After-and_then Q S R (ok a, s) f h k = (k a).from s h
After-and_then Q S R (err e, s) f h k = h

After-ends :
    {A : Type 0} (P : Session → Type 0) (r : Result A × Session) → After (λ _. P) P r → P r.1
After-ends P (ok a, s) h = h
After-ends P (err e, s) h = h

ends-After :
    {A : Type 0} (P : Session → Type 0) (r : Result A × Session) → P r.1 → After (λ _. P) P r
ends-After P (ok a, s) h = h
ends-After P (err e, s) h = h

After-stop :
    {A : Type 0} (Q : A → Session → Type 0) (P R : Session → Type 0) (r : Result A × Session)
    → ((s : Session) → P s → R s)
    → After Q P r
    → After Q R r
After-stop Q P R (ok a, s) k h = h
After-stop Q P R (err e, s) k h = k s h

After-value :
    {A : Type 0} (Q S : A → Session → Type 0) (R : Session → Type 0) (r : Result A × Session)
    → ((a : A) (s : Session) → Q a s → S a s)
    → After Q R r
    → After S R r
After-value Q S R (ok a, s) k h = k a s h
After-value Q S R (err e, s) k h = h

pub Leads-value :
    {A : Type 0} {P R : Session → Type 0} {Q S : A → Session → Type 0} (m : Call A)
    → ((a : A) (s : Session) → Q a s → S a s)
    → Leads P Q R m
    → Leads P S R m
Leads-value {R = R} {Q = Q} {S = S} m k l = record {
  from = λ s h. After-value Q S R (m s) k (l.from s h);
}

pub Leads-stop :
    {A : Type 0} {P Q' R : Session → Type 0} {Q : A → Session → Type 0} (m : Call A)
    → ((s : Session) → Q' s → R s)
    → Leads P Q Q' m
    → Leads P Q R m
Leads-stop {Q' = Q'} {R} {Q} m k l = record { from = λ s h. After-stop Q Q' R (m s) k (l.from s h) }

pub KeepsSession-Leads :
    {A : Type 0} {P : Session → Type 0} (m : Call A) → Leads P (λ _. P) P m → KeepsSession P m
KeepsSession-Leads {P} m k = record { along = λ s h. After-ends P (m s) (k.from s h) }

pub Leads-KeepsSession :
    {A : Type 0} {P : Session → Type 0} (m : Call A) → KeepsSession P m → Leads P (λ _. P) P m
Leads-KeepsSession {P} m k = record { from = λ s h. ends-After P (m s) (k.along s h) }

module _ {P R : Session → Type 0} where
  pub Leads-within :
      {A : Type 0} {Q : A → Session → Type 0} (label : String) (m : Call A)
      → Leads P Q R m
      → Leads P Q R (within label m)
  unfolding within
  Leads-within {Q = Q} label m k = record {
    from = λ s h. After-labelled Q R label (m s) (k.from s h);
  }

  pub Leads-bind :
      {A B : Type 0} {Q : A → Session → Type 0} {S : B → Session → Type 0} (m : Call A)
      (f : A → Call B)
      → Leads P Q R m
      → ((a : A) → Leads (Q a) S R (f a))
      → Leads P S R (m >>= f)
  unfolding ◌>>=◌
  Leads-bind {Q = Q} {S = S} m f km kf = record {
    from = λ s h. After-and_then Q S R (m s) f (km.from s h) kf;
  }

-- What a test, the session, a value and a result leave behind.
module _ {P : Session → Type 0} where
  pub Leads-require :
      (b : Bool) (label : String) → Leads P (λ _ s. (b ≡ true) × P s) P (require b label)
  unfolding require
  Leads-require true label = record { from = λ s h. (refl, h) }
  Leads-require false label = record { from = λ s h. h }

  pub Leads-result : {A : Type 0} (r : Result A) → Leads P (λ a s. (r ≡ ok a) × P s) P (result r)
  unfolding result
  Leads-result (ok a) = record { from = λ s h. (refl, h) }
  Leads-result (err e) = record { from = λ s h. h }

  pub Leads-expect :
      {A : Type 0} (label : String) (o : Option A)
      → Leads P (λ a s. (o ≡ some a) × P s) P (expect label o)
  unfolding expect
  Leads-expect label none = record { from = λ s h. h }
  Leads-expect label (some a) = record { from = λ s h. (refl, h) }

  -- A fact about values only need not be carried along.
  pub Leads-given :
      {A F : Type 0} {Q : A → Session → Type 0} {R : Session → Type 0} (m : Call A)
      → (F → Leads P Q R m)
      → Leads (λ s. F × P s) Q R m
  Leads-given m k = record { from = λ s h. (k (h.0)).from s (h.1) }

  pub Leads-session : Leads P (λ a s. (a ≡ s) × P s) P session
  unfolding session
  Leads-session = record { from = λ s h. (refl, h) }

module _ {P R : Session → Type 0} where
  pub Leads-option :
      {A B : Type 0} {Q : B → Session → Type 0} (o : Option A) (m : Call B) (f : A → Call B)
      → Leads P Q R m
      → ((a : A) → Leads P Q R (f a))
      → Leads P Q R (elim o [ none ↦ m | some a ↦ f a ])
  Leads-option none m f lm lf = lm
  Leads-option (some a) m f lm lf = lf a

  pub Leads-if :
      {A : Type 0} {Q : A → Session → Type 0} (b : Bool) (m n : Call A)
      → Leads P Q R m
      → Leads P Q R n
      → Leads P Q R (if b then m else n)
  Leads-if true m n lm ln = lm
  Leads-if false m n lm ln = ln
