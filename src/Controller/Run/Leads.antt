-- ===== src/Controller/Run/Leads.antt =====
-- What computations lead to: a condition before, one on the value and the world behind, and one for
-- a failure.
use vcf_salt_operator.Prelude.{ℕ, String, ◌≡◌, refl}
use vcf_salt_operator.Kube.Error.{Result, ok, err}
use vcf_salt_operator.Controller.World.{World}
use vcf_salt_operator.Controller.Run.{
  M, Outcome, done, failed, of_result, ask, ◌>>=◌, return, wrapped,
}
use vcf_salt_operator.Controller.Run.Keeps.{Keeps, end, IsStable}

abbrev pub Ends : {A : Type 0} → (A → World → Type 0) → (World → Type 0) → Outcome A → Type 0
Ends Q E (done a w) = Q a w
Ends Q E (failed e w) = E w

pub record Leads {A : Type 0} (P : World → Type 0) (Q : A → World → Type 0) (E : World → Type 0)
    (m : M A) : Type 0 where
  pub from : (w : World) → P w → Ends Q E (m w)

-- The three conditions as an invariant.
pub Ends-end : {A : Type 0} (P : World → Type 0) (o : Outcome A) → Ends (λ _. P) P o → P (end o)
Ends-end P (done a w) h = h
Ends-end P (failed e w) h = h

Ends-kept :
    {A : Type 0} (P E : World → Type 0) (o : Outcome A)
    → ((w : World) → P w → E w)
    → P (end o)
    → Ends (λ _. P) E o
Ends-kept P E (done a w) k h = h
Ends-kept P E (failed e w) k h = k w h

pub Leads-Keeps :
    {A : Type 0} {P : World → Type 0} (E : World → Type 0) (m : M A)
    → ((w : World) → P w → E w)
    → Keeps P m
    → Leads P (λ _. P) E m
Leads-Keeps {P = P} E m k h = record { from = λ w p. Ends-kept P E (m w) k (h.at w p) }

module _ {A B : Type 0} {E : World → Type 0} {Q : A → World → Type 0} {R : B → World → Type 0} where
  bind-Ends :
      (o : Outcome A) (f : A → M B)
      → Ends Q E o
      → ((a : A) → Leads (Q a) R E (f a))
      → Ends {A = B} R E (elim o [ done a w' ↦ f a w' | failed e w' ↦ failed e w' ])
  bind-Ends (done a w) f h k = (k a).from w h
  bind-Ends (failed e w) f h k = h

  pub Leads-bind :
      {P : World → Type 0} (m : M A) (f : A → M B)
      → Leads P Q E m
      → ((a : A) → Leads (Q a) R E (f a))
      → Leads P R E (m >>= f)
  unfolding ◌>>=◌
  Leads-bind m f km kf = record { from = λ w h. bind-Ends (m w) f (km.from w h) kf }

-- A value of a call is one of the answers of the outside.
abbrev pub Answered : {A : Type 0} → (World → Type 0) → (ℕ → A) → A → World → Type 0
Answered P f a w = P w × ((t : ℕ) × (f t ≡ a))

pub Leads-ask :
    {A : Type 0} {P : World → Type 0} (E : World → Type 0) (s : IsStable P) (f : ℕ → A)
    → Leads P (Answered P f) E (ask f)
unfolding ask
Leads-ask E s f = record { from = λ w h. (s.tick w h, (w.tick, refl)) }

pub Leads-give :
    {A : Type 0} {P : World → Type 0} {Q : A → World → Type 0} (E : World → Type 0) (a : A)
    → ((w : World) → P w → Q a w)
    → Leads P Q E (return a)
unfolding return
Leads-give E a k = record { from = λ w h. k w h }

-- A fact that is known before need not be carried along.
pub Leads-given :
    {A F : Type 0} {P : World → Type 0} {Q : A → World → Type 0} {E : World → Type 0} (m : M A)
    → (F → Leads P Q E m)
    → Leads (λ w. P w × F) Q E m
Leads-given m k = record { from = λ w h. (k (h.1)).from w (h.0) }

-- The value of a call that did not fail.
pub Leads-answer :
    {A : Type 0} {P : World → Type 0} (E : World → Type 0) (label : String) (f : ℕ → Result A)
    (r : Result A)
    → ((w : World) → P w → E w)
    → Leads (Answered P f r) (λ a w. P w × ((t : ℕ) × (f t ≡ ok a))) E (of_result (wrapped label r))
unfolding of_result
Leads-answer E label f (ok a) k = record { from = λ w h. h }
Leads-answer E label f (err e) k = record { from = λ w h. k w (h.0) }

-- An invariant that is kept, and what follows from it.
pub Leads-weaken :
    {A : Type 0} {P : World → Type 0} (E : World → Type 0) (m : M A)
    → ((w : World) → P w → E w)
    → Keeps P m
    → Leads P (λ _. E) E m
Leads-weaken {A} {P} E m k h = record { from = λ w p. go (m w) (h.at w p) }
  where
    go : (o : Outcome A) → P (end o) → Ends (λ _. E) E o
    go (done a w) x = k w x
    go (failed e w) x = k w x
