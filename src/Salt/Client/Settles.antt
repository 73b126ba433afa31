-- ===== src/Salt/Client/Settles.antt =====
-- pkg/salt/client.go: rounds of a loop that waits, and the deadline of the context.
use native.Mathlib.Decide.{dec_le}
use vcf_salt_operator.Prelude.{
  ℕ, zero, suc, ◌+◌, ◌≤◌, ◌<◌, Bool, true, false, ◌≡◌, ◌⊎◌, inl, inr, arith, Option, none, some,
}
use vcf_salt_operator.Kube.Error.{Error}
use vcf_salt_operator.Salt.Client.{Net, Call, give, refuse, wait, ◌>>=◌}
use vcf_salt_operator.Salt.Client.Keeps.{Leads, Leads-bind}
use vcf_salt_operator.Salt.Client.Clock.{Since}

-- The fuel did not run out.
abbrev pub IsThere : {A : Type 0} → Option A → Type 0
IsThere none = ⊥
IsThere (some a) = Unit

-- The context is done from the tick on.
abbrev pub IsDeadline : Net → ℕ → Type 0
IsDeadline net d = (t : ℕ) → d ≤ t → net.expired t ≡ true

-- From a tick on, the call ends with an error, or with a value that is there.
abbrev pub Settles : {A : Type 0} → ℕ → Call (Option A) → Type 0
Settles n m = Leads (Since n) (λ o _. IsThere o) (λ _. Unit) m

over_or_early : (net : Net) (d t : ℕ) → IsDeadline net d → net.expired t ≡ true ⊎ t < d
over_or_early net d t h = elim (dec_le d t) [ yes p ↦ inl (h t p) | no n ↦ inr (omega arith) ]

wait-Leads :
    (net : Net) (d n : ℕ)
    → IsDeadline net d
    → Leads (Since n) (λ over s. (over ≡ true ⊎ n < d) × Since (suc n) s) (λ _. Unit) (wait net)
unfolding wait
wait-Leads net d n h = record {
  from = λ s k. (
    elim (over_or_early net d s.tick h) [ inl e ↦ inl e | inr l ↦ inr (omega arith) ],
    omega arith,
  );
}

false-true : false ≡ true → ⊥
false-true x = ground arith

round_end :
    {A : Type 0} (d n : ℕ) (e : Error) (next : Call (Option A)) (over : Bool)
    → (n < d → Settles (suc n) next)
    → Leads
        (λ s. (over ≡ true ⊎ n < d) × Since (suc n) s)
        (λ o _. IsThere o)
        (λ _. Unit)
        (elim over as (λ _. Call (Option A)) [ true ↦ refuse e | false ↦ next ])
unfolding refuse
round_end d n e next true k = record { from = λ s h. tt }
round_end d n e next false k = record {
  from = λ s h. elim h.0 [ inl x ↦ absurd (false-true x) | inr l ↦ (k l).from s (h.1) ];
}

-- A round that waits.
pub round-Settles :
    {A : Type 0} (net : Net) (d n : ℕ) (e : Error) (next : Call (Option A))
    → IsDeadline net d
    → (n < d → Settles (suc n) next)
    → Settles n (wait net >>= λ over. elim over [ true ↦ refuse e | false ↦ next ])
round-Settles net d n e next h k =
    Leads-bind _ _ (wait-Leads net d n h) λ over. round_end d n e next over k

-- After a call whose fuel did not run out.
pub Leads-IsThere :
    {A B : Type 0} (o : Option A) (m : Call (Option B)) (f : A → Call (Option B))
    → ((a : A) → Settles 0 (f a))
    → Leads (λ _. IsThere o) (λ r _. IsThere r) (λ _. Unit) (elim o [ none ↦ m | some a ↦ f a ])
Leads-IsThere none m f k = record { from = λ s h. absurd h }
Leads-IsThere (some a) m f k = record { from = λ s h. (k a).from s (omega arith) }

-- A loop whose rounds settle if the next one does.
pub loop-Settles :
    {A : Type 0} (d : ℕ) (loop : ℕ → Call (Option A))
    → ((fuel n : ℕ) → (n < d → Settles (suc n) (loop fuel)) → Settles n (loop (suc fuel)))
    → (fuel n : ℕ) → d ≤ fuel + n
    → Settles n (loop (suc fuel))
loop-Settles d loop step zero n h = step zero n λ l. absurd (omega arith)
loop-Settles d loop step (suc fuel) n h =
    step (suc fuel) n λ l. loop-Settles d loop step fuel (suc n) (omega arith)

pub give-Settles : {A : Type 0} (n : ℕ) (a : A) → Settles n (give (some a))
unfolding give
give-Settles n a = record { from = λ s h. tt }
