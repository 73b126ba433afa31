-- ===== src/Salt/Client/Deadline.antt =====
-- pkg/salt/client.go: the calls that wait for a result, and the deadline of the context.
use vcf_salt_operator.Prelude.{
  ℕ, zero, suc, ◌+◌, ◌≤◌, ◌<◌, String, Bool, ◌≢◌, arith, Option, none, some,
}
use vcf_salt_operator.Kube.Error.{Result, ok, err}
use vcf_salt_operator.Salt.Json.{Items, Members}
use vcf_salt_operator.Salt.Client.{
  Net, RaasClient, Session, Call, give, result, set_master_pub, ◌>>=◌, ◌>>◌,
}
use vcf_salt_operator.Salt.Client.Jobs.{
  wait_bool_result, dispatch, test_ping, refresh_pillar, answer_of, bool_return,
}
use vcf_salt_operator.Salt.Client.Wheel.{
  await_master, wheel, gen_accept_key, of_fuel, generated_pair, fetch_master_key, master_public_key,
  master_key_in, return_members,
}
use vcf_salt_operator.Salt.Client.Keeps.{
  After, Leads, Leads-bind, Leads-stop, Leads-if, Leads-option, Leads-KeepsSession, KeepsSession,
  KeepsSession-result, KeepsSession-session,
}
use vcf_salt_operator.Salt.Client.Documents.{of_caller}
use vcf_salt_operator.Salt.Client.Calls.{poll_jid-Keeps, posted-Keeps, dispatch-Keeps, ret_of-Keeps}
use vcf_salt_operator.Salt.Client.Clock.{Since, Since-IsStable}
use vcf_salt_operator.Salt.Client.Settles.{
  IsThere, IsDeadline, Settles, Leads-IsThere, loop-Settles, give-Settles, round-Settles,
}

of_fuel-Settles :
    {A : Type 0} (n : ℕ) (r : Result A) (net : Net) (c : RaasClient)
    → Settles n (result (of_fuel net c r))
unfolding result
of_fuel-Settles n (ok a) net c = record { from = λ s h. tt }
of_fuel-Settles n (err e) net c = record { from = λ s h. tt }

key-Settles :
    (r : Result String) → Settles 0 (result r >>= λ key. set_master_pub key >> give (some key))
unfolding result set_master_pub give ◌>>=◌
key-Settles (ok key) = record { from = λ s h. tt }
key-Settles (err e) = record { from = λ s h. tt }

answer-Settles :
    (n : ℕ) (r : Option Bool) (net : Net) (c : RaasClient) → Settles n (result (answer_of net c r))
unfolding result
answer-Settles n none net c = record { from = λ s h. tt }
answer-Settles n (some b) net c = record { from = λ s h. tt }

module _ (net : Net) (c : RaasClient) (d : ℕ) (by_deadline : IsDeadline net d) where
  -- Rounds of a loop, `next` from a tick that has passed.
  from_tick :
      {A : Type 0} (n : ℕ) (m : Call A)
      → ((k : ℕ) → KeepsSession (Since k) m)
      → Leads (Since n) (λ _. Since n) (λ _. Unit) m
  from_tick n m k = Leads-stop m (λ s h. tt) (Leads-KeepsSession m (k n))

  wait_bool_result-Settles :
      (id jid : String) (fuel n : ℕ)
      → d ≤ fuel + n
      → Settles n (wait_bool_result net c (suc fuel) id jid)
  unfolding wait_bool_result
  wait_bool_result-Settles id jid =
      loop-Settles d (λ fuel. wait_bool_result net c fuel id jid)
        λ fuel n next.
          Leads-bind _ _ (from_tick n _ λ k. poll_jid-Keeps (Since-IsStable net c k) id jid) λ o.
            Leads-option o _ _ (round-Settles net d n _ _ by_deadline next)
              λ r. answer-Settles n (bool_return r) net c

  await_master-Settles :
      (jid : String) (fuel n : ℕ) → d ≤ fuel + n → Settles n (await_master net c (suc fuel) jid)
  unfolding await_master
  await_master-Settles jid =
      loop-Settles d (λ fuel. await_master net c fuel jid)
        λ fuel n next.
          Leads-bind _ _
            (from_tick n _ λ k. posted-Keeps (Since-IsStable net c k) _ _ _ _ (of_caller tt))
            λ body. Leads-bind _ _ (from_tick n _ λ k. KeepsSession-result _) λ o.
              Leads-option o _ _ (round-Settles net d n _ _ by_deadline next) λ r. give-Settles n r

  dispatch_and_wait-Settles :
      (fuel : ℕ) (id fun : String) (kwarg : Members)
      → d ≤ fuel
      → Settles 0 (dispatch net c id fun kwarg >>= λ jid. wait_bool_result net c (suc fuel) id jid)
  dispatch_and_wait-Settles fuel id fun kwarg h =
      Leads-bind _ _
        (from_tick 0 _ λ k. dispatch-Keeps (Since-IsStable net c k) id fun kwarg (of_caller tt))
        λ jid. wait_bool_result-Settles id jid fuel 0 (omega arith)

  wheel-Settles :
      (fuel : ℕ) (fun : String) (args : Items) (kwarg : Members)
      → d ≤ fuel
      → Settles 0 (wheel net c (suc fuel) fun args kwarg)
  unfolding wheel
  wheel-Settles fuel fun args kwarg h =
      Leads-bind _ _
        (from_tick 0 _ λ k. posted-Keeps (Since-IsStable net c k) _ _ _ _ (of_caller tt))
        λ body.
          Leads-bind _ _ (from_tick 0 _ λ k. ret_of-Keeps (Since-IsStable net c k) _ body)
            λ jid. await_master-Settles jid fuel 0 (omega arith)

  gen_accept_key-Settles :
      (fuel : ℕ) (id : String) (force : Bool)
      → d ≤ fuel
      → Settles 0 (gen_accept_key net c (suc fuel) id force)
  unfolding gen_accept_key
  gen_accept_key-Settles fuel id force h =
      Leads-bind _ _ (wheel-Settles fuel _ _ _ h)
        λ o. Leads-IsThere o _ _ λ v. of_fuel-Settles 0 (generated_pair net c v) net c

  fetch_master_key-Settles : (fuel : ℕ) → d ≤ fuel → Settles 0 (fetch_master_key net c (suc fuel))
  unfolding fetch_master_key
  fetch_master_key-Settles fuel h =
      Leads-bind _ _ (wheel-Settles fuel _ _ _ h)
        λ o. Leads-IsThere o _ _ λ v. key-Settles (master_key_in net c (return_members net c v))

  master_public_key-Settles : (fuel : ℕ) → d ≤ fuel → Settles 0 (master_public_key net c (suc fuel))
  unfolding master_public_key
  master_public_key-Settles fuel h =
      Leads-bind _ _ (from_tick 0 _ λ k. KeepsSession-session)
        λ s. Leads-if _ _ _ (fetch_master_key-Settles fuel h) (give-Settles 0 _)

value_there :
    {A : Type 0} (r : Result (Option A) × Session)
    → After (λ o _. IsThere o) (λ _. Unit) r
    → r.0 ≢ ok none
value_there (ok none, s) h e = h
value_there (ok (some a), s) h e = cc
value_there (err x, s) h e = cc

ends : {A : Type 0} (m : Call (Option A)) (s : Session) → Settles 0 m → (m s).0 ≢ ok none
ends m s h = value_there (m s) (h.from s (omega arith))

-- With more fuel than the deadline, a call that waits ends with a value of the code or with an error,
-- whatever the server answers and however late: the wait for a ping, for a refresh of the pillar,
-- for a key pair, and for the key of the master.
pub waits_end :
    (net : Net) (c : RaasClient) (d fuel : ℕ) (id : String) (force : Bool) (s : Session)
    → IsDeadline net d
    → d < fuel
    → ((test_ping net c fuel id s).0 ≢ ok none)
      × ((refresh_pillar net c fuel id s).0 ≢ ok none)
      × ((gen_accept_key net c fuel id force s).0 ≢ ok none)
      × ((master_public_key net c fuel s).0 ≢ ok none)
unfolding test_ping refresh_pillar
waits_end net c d zero id force s h l = absurd (omega arith)
waits_end net c d (suc fuel) id force s h l = (
  ends _ s (dispatch_and_wait-Settles net c d h fuel id _ _ (omega arith)),
  ends _ s (dispatch_and_wait-Settles net c d h fuel id _ _ (omega arith)),
  ends _ s (gen_accept_key-Settles net c d h fuel id force (omega arith)),
  ends _ s (master_public_key-Settles net c d h fuel (omega arith)),
)
