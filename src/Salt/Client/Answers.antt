-- ===== src/Salt/Client/Answers.antt =====
-- pkg/salt/client.go: the values of the calls, key pairs and the key of the master.
use vcf_salt_operator.Prelude.{
  ℕ, String, Bool, true, false, not, ◌&&◌, ◌||◌, ◌≡◌, refl, subst, arith, if◌then◌else◌, Option,
  none, some, str_eq,
}
use vcf_salt_operator.Prelude.{◌==◌, eq_iff, ap}
use vcf_salt_operator.Prelude.Lists.{codes}
use vcf_salt_operator.Kube.Error.{failure, Error, Result, ok, err}
use vcf_salt_operator.Salt.Json.{has_infix, read_members, tagged, size, Members}
use vcf_salt_operator.Salt.Client.{
  KeyPair, Net, RaasClient, Session, Call, give, result, set_master_pub, session, ◌>>=◌, ◌>>◌,
}
use vcf_salt_operator.Salt.Client.Wheel.{
  wheel, gen_accept_key, of_fuel, checked_pair, pair_of, return_members, fetch_master_key,
  master_public_key, master_key_in, local_key, first_text, all_texts,
}
use vcf_salt_operator.Salt.Client.Keeps.{After, Leads, Leads-bind, Leads-option}

-- No condition on a session.
abbrev pub Any : Session → Type 0
Any s = Unit

Leads-Any : {A : Type 0} (m : Call A) → Leads Any (λ _. Any) Any m
Leads-Any m = record { from = λ s h. any (m s) }
  where
    any : {A : Type 0} (r : Result A × Session) → After (λ _. Any) Any r
    any (ok a, s) = tt
    any (err e, s) = tt

-- Both keys are there.
abbrev pub IsComplete : KeyPair → Type 0
IsComplete p = (str_eq p.pub_key "" ≡ false) × (str_eq p.priv_key "" ≡ false)

abbrev pub Completed : Option (Option KeyPair) → Type 0
Completed (some (some p)) = IsComplete p
Completed _ = Unit

abbrev pub ValueOf : {A : Type 0} → (A → Type 0) → Result A → Type 0
ValueOf Q (ok a) = Q a
ValueOf Q (err e) = Unit

Leads-result :
    {A : Type 0} (Q : A → Type 0) (r : Result A)
    → ValueOf Q r
    → Leads Any (λ a _. Q a) Any (result r)
unfolding result
Leads-result Q (ok a) h = record { from = λ s k. h }
Leads-result Q (err e) h = record { from = λ s k. tt }

module _ (net : Net) (c : RaasClient) where
  checked_if :
      (p : KeyPair) (a b : Bool)
      → str_eq p.pub_key "" ≡ a
      → str_eq p.priv_key "" ≡ b
      → (e : Error)
      → ValueOf Completed
          (of_fuel net c (if a && b then ok none else if a || b then err e else ok (some p)))
  checked_if p true true ea eb e = tt
  checked_if p true false ea eb e = tt
  checked_if p false true ea eb e = tt
  checked_if p false false ea eb e = (ea, eb)

  checked_pair-Completed : (p : KeyPair) → ValueOf Completed (of_fuel net c (checked_pair net c p))
  checked_pair-Completed p = checked_if p (str_eq p.pub_key "") (str_eq p.priv_key "") refl refl _

  generated_if :
      (o : Option KeyPair) (e : Error)
      → ValueOf Completed (of_fuel net c (elim o [ none ↦ err e | some p ↦ checked_pair net c p ]))
  generated_if none e = tt
  generated_if (some p) e = checked_pair-Completed p

  gen_accept_key-Completed :
      (fuel : ℕ) (id : String) (force : Bool)
      → Leads Any (λ o _. Completed o) Any (gen_accept_key net c fuel id force)
  unfolding gen_accept_key give
  gen_accept_key-Completed fuel id force = Leads-bind _ _ (Leads-Any (wheel net c fuel _ _ _)) λ o.
      Leads-option o _ _ (record { from = λ s h. tt })
        λ v. Leads-result Completed _ (generated_if (pair_of net c (return_members net c v)) _)

-- Whatever the master returns, a key pair that `GenAcceptKey` gives has both its keys: a pair
-- that has one key only is an error.
pub gen_accept_key-IsComplete :
    (net : Net) (c : RaasClient) (fuel : ℕ) (id : String) (force : Bool) (s s' : Session)
    (p : KeyPair)
    → gen_accept_key net c fuel id force s ≡ (ok (some (some p)), s')
    → IsComplete p
gen_accept_key-IsComplete net c fuel id force s s' p e =
    subst (After (λ o _. Completed o) Any) e
      ((gen_accept_key-Completed net c fuel id force).from s tt)

-- `strings.Contains(key, "PUBLIC KEY")`
abbrev pub IsPublic : String → Type 0
IsPublic k = has_infix (codes k) (codes "PUBLIC KEY") ≡ true

-- The key was read, and is kept.
abbrev pub Kept : Option String → Session → Type 0
Kept none s = Unit
Kept (some k) s = (s.master_pub ≡ k) × (str_eq k "" ≡ false)

empty_or_not : (k : String) (b : Bool) → str_eq k "" ≡ b → IsPublic k → str_eq k "" ≡ false
empty_or_not k false e h = e
empty_or_not k true e h = absurd (no_key (subst IsPublic ((eq_iff k "").0 e) h))
  where
    no_key : IsPublic "" → ⊥
    no_key x = ground arith

IsPublic-set : (k : String) → IsPublic k → str_eq k "" ≡ false
IsPublic-set k h = empty_or_not k (str_eq k "") refl h

module _ (net : Net) (c : RaasClient) where
  local_if :
      (a b h : Bool) (e e' e'' : Error) (k : String)
      → has_infix (codes k) (codes "PUBLIC KEY") ≡ h
      → ValueOf IsPublic
          (if a then err e else if b then err e' else if not h then err e'' else ok k)
  local_if true b h e e' e'' k p = tt
  local_if false true h e e' e'' k p = tt
  local_if false false true e e' e'' k p = p
  local_if false false false e e' e'' k p = tt

  local_key-IsPublic : (m : Option Members) → ValueOf IsPublic (local_key net c m)
  local_key-IsPublic none = tt
  local_key-IsPublic (some m) =
      local_if (not (all_texts net c m)) (not (size m == 1))
        (has_infix (codes (first_text net c m)) (codes "PUBLIC KEY"))
        (failure "key.master_key_str: parse return")
        (failure "key.master_key_str: expected one master key")
        (failure "key.master_key_str: return is not a public key") (first_text net c m) refl

  master_key_in-IsPublic : (m : Option Members) → ValueOf IsPublic (master_key_in net c m)
  master_key_in-IsPublic none = tt
  master_key_in-IsPublic (some m) = local_key-IsPublic (read_members (tagged net.unicode "local" m))

  fetched_key-Leads :
      (r : Result String)
      → ValueOf IsPublic r
      → Leads Any Kept Any (result r >>= λ key. set_master_pub key >> give (some key))
  unfolding result set_master_pub give ◌>>=◌
  fetched_key-Leads (ok k) h = record { from = λ s t. (refl, IsPublic-set k h) }
  fetched_key-Leads (err e) h = record { from = λ s t. tt }

  fetch_master_key-Kept : (fuel : ℕ) → Leads Any Kept Any (fetch_master_key net c fuel)
  unfolding fetch_master_key give
  fetch_master_key-Kept fuel = Leads-bind _ _ (Leads-Any (wheel net c fuel _ _ _)) λ o.
      Leads-option o _ _ (record { from = λ s h. tt })
        λ v. fetched_key-Leads _ (master_key_in-IsPublic (return_members net c v))

  own_key-Kept :
      (s s' : Session) (fuel : ℕ) (b : Bool)
      → str_eq s.master_pub "" ≡ b
      → (s' ≡ s)
      → After Kept Any ((if b then fetch_master_key net c fuel else give (some s.master_pub)) s')
  unfolding give
  own_key-Kept s s' fuel true e h = (fetch_master_key-Kept fuel).from s' tt
  own_key-Kept s s' fuel false e h = (ap (λ t. t.master_pub) h, e)

  master_public_key-Kept :
      (fuel : ℕ) (s : Session) → After Kept Any (master_public_key net c fuel s)
  unfolding master_public_key session ◌>>=◌
  master_public_key-Kept fuel s = own_key-Kept s s fuel (str_eq s.master_pub "") refl refl

  read_again :
      (fuel : ℕ) (s : Session) (k : String)
      → Kept (some k) s
      → master_public_key net c fuel s ≡ (ok (some k), s)
  unfolding master_public_key session give ◌>>=◌
  read_again fuel s k (m, e) = simp (m, e)

-- The master is asked for its key once: where a call gives a key, each later call gives the same
-- key, with any fuel, and sends nothing.
pub master_public_key_once :
    (net : Net) (c : RaasClient) (fuel fuel' : ℕ) (s s' : Session) (k : String)
    → master_public_key net c fuel s ≡ (ok (some k), s')
    → master_public_key net c fuel' s' ≡ (ok (some k), s')
master_public_key_once net c fuel fuel' s s' k e =
    read_again net c fuel' s' k (subst (After Kept Any) e (master_public_key-Kept net c fuel s))

-- A key of the master that a call gives is not empty, whether it was read now or before.
pub master_public_key_set :
    (net : Net) (c : RaasClient) (fuel : ℕ) (s s' : Session) (k : String)
    → master_public_key net c fuel s ≡ (ok (some k), s')
    → str_eq k "" ≡ false
master_public_key_set net c fuel s s' k e =
    (subst (After Kept Any) e (master_public_key-Kept net c fuel s)).1
