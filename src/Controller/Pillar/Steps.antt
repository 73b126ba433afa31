-- ===== src/Controller/Pillar/Steps.antt =====
-- The order of refresh and highstate, in the steps of the chain.
use vcf_salt_operator.Prelude.{ℕ, String, Bool, true, false, ◌≡◌, refl, arith, List, ◌∷◌, [], ◌++◌}
use vcf_salt_operator.Prelude.{if◌then◌else◌, Option, none, some}
use vcf_salt_operator.Prelude.Int.{ℤ}
use vcf_salt_operator.Kube.Error.{Result, ok, err}
use vcf_salt_operator.Raasconn.{Connection}
use vcf_salt_operator.Controller.World.{World, Env, EventType, Effect, JidResult, pillar_refreshed}
use vcf_salt_operator.Controller.Run.{
  M, ask, record_event, note, noted, ticked, ◌>>=◌, patch_annotations,
}
use vcf_salt_operator.Controller.Run.Keeps.{
  Keeps, keeps_rules, Keeps-ask, Keeps-record_event, Keeps-on_cache, Keeps-try_write,
  Keeps-ask_noting, Keeps-bind, Keeps-of_error, end,
}
use vcf_salt_operator.Controller.Pillar.{
  PillarFirst, PillarFirst-stable, patch_annotations-Keeps, arrives, fresh,
}
use vcf_salt_operator.Controller.Preseed.{clear_preseed_key, clear_bootstrap_key, with_key_cleared}
use vcf_salt_operator.Controller.Chain.{
  master_last_seen, master_silence, within_bootstrap, ping_failed, ping_succeeded, test_ping,
  run_ping, recent, pillar_failed, pillar_succeeded, refresh_pillar, run_refresh_pillar,
  dispatch_highstate, dispatch_succeeded, dispatch_failed, run_dispatch_highstate, noted_dispatch,
  highstate_completed, highstate_succeeded, highstate_failed, run_poll_highstate, is_yes,
}

pub ask-Keeps : {A : Type 0} (f : ℕ → A) → Keeps PillarFirst (ask f)
ask-Keeps f = Keeps-ask PillarFirst-stable f

pub record_event-Keeps : (k : EventType) (r : String) → Keeps PillarFirst (record_event k r)
record_event-Keeps k r = Keeps-record_event PillarFirst-stable k r

pub note-Keeps :
    (e : Effect)
    → ((w : World) → PillarFirst w → PillarFirst (noted e w))
    → Keeps PillarFirst (note e)
unfolding note
note-Keeps e k = record { at = λ w h. k w h }

pub ruleset pillar_rules =
    (keeps_rules, ask-Keeps, record_event-Keeps, patch_annotations-Keeps, refl)

module _ (env : Env) where
  clear_bootstrap_key-Keeps : Keeps PillarFirst (clear_bootstrap_key env)
  unfolding clear_bootstrap_key
  clear_bootstrap_key-Keeps =
      Keeps-bind _ _
        (Keeps-try_write PillarFirst-stable env (with_key_cleared env) (λ w h. ground arith))
        (λ o. Keeps-of_error _)

  pub clear_preseed_key-Keeps : Keeps PillarFirst (clear_preseed_key env)
  unfolding clear_preseed_key
  clear_preseed_key-Keeps = search (pillar_rules, clear_bootstrap_key-Keeps) depth 8

  pub master_last_seen-Keeps : (c : Connection) → Keeps PillarFirst (master_last_seen env c)
  unfolding master_last_seen
  master_last_seen-Keeps c = search pillar_rules

  pub master_silence-Keeps :
      (c : Connection) (before : String) (started : ℕ)
      → Keeps PillarFirst (master_silence env c before started)
  unfolding master_silence
  master_silence-Keeps c before started = search (pillar_rules, master_last_seen-Keeps) depth 9

  recent-Keeps : (o : Option ℕ) (c : Connection) → Keeps PillarFirst (recent env c o)
  recent-Keeps none c = search pillar_rules
  recent-Keeps (some t) c = search pillar_rules depth 7

  within_bootstrap-Keeps : (c : Connection) → Keeps PillarFirst (within_bootstrap env c)
  unfolding within_bootstrap
  within_bootstrap-Keeps c = search (pillar_rules, recent-Keeps)

  ping_failed-Keeps :
      (c : Connection) (before : String) (started : ℕ)
      → Keeps PillarFirst (ping_failed env c before started)
  unfolding ping_failed
  ping_failed-Keeps c before started =
      search (pillar_rules, master_silence-Keeps, within_bootstrap-Keeps, clear_preseed_key-Keeps)
        depth 12

  ping_succeeded-Keeps : (c : Connection) (r : ℤ) → Keeps PillarFirst (ping_succeeded env c r)
  unfolding ping_succeeded
  ping_succeeded-Keeps c r = search (pillar_rules, clear_preseed_key-Keeps) depth 9

  test_ping-Keeps : (c : Connection) (id : String) → Keeps PillarFirst (test_ping env c id)
  unfolding test_ping
  test_ping-Keeps c id = Keeps-ask_noting PillarFirst-stable _ _ (λ b w h. ground arith)

  pub run_ping-Keeps :
      (c : Connection) (id : String) (r : ℤ) → Keeps PillarFirst (run_ping env c id r)
  unfolding run_ping
  run_ping-Keeps c id r =
      search
        (
          pillar_rules, master_last_seen-Keeps, test_ping-Keeps, ping_failed-Keeps,
          ping_succeeded-Keeps,
        )
        depth 9

  pillar_failed-Keeps :
      (c : Connection) (before : String) (started : ℕ)
      → Keeps PillarFirst (pillar_failed env c before started)
  unfolding pillar_failed
  pillar_failed-Keeps c before started =
      search (pillar_rules, master_silence-Keeps, within_bootstrap-Keeps) depth 12

-- What a step may do that runs on a fresh pillar.
pub record UsesFresh {A : Type 0} (m : M A) : Type 0 where
  pub at : (w : World) → PillarFirst w → fresh w.trace ≡ true → PillarFirst (end (m w))

-- A step behind a refresh that succeeded may use the fresh pillar.
pub refresh_pillar-bind :
    (env : Env) (c : Connection) (id : String) {B : Type 0} (yes_ no_ : M B)
    → UsesFresh yes_
    → Keeps PillarFirst no_
    → Keeps PillarFirst (refresh_pillar env c id >>= λ b. if b then yes_ else no_)
unfolding refresh_pillar ◌>>=◌
refresh_pillar-bind env c id yes_ no_ u k = record {
  at = λ w h. go (is_yes (env.refresh_pillar w.tick c id)) w h;
}
  where
    go :
        (b : Bool) (w : World)
        → PillarFirst w
        → PillarFirst (end ((if b then yes_ else no_) (noted (pillar_refreshed id b) (ticked w))))
    go true w h = u.at _ (ground arith) refl
    go false w h = k.at _ (ground arith)

-- A highstate may be dispatched on a fresh pillar.
pub dispatch_highstate-bind :
    (env : Env) (c : Connection) (id : String) {B : Type 0} (f : Result String → M B)
    → ((r : Result String) → Keeps PillarFirst (f r))
    → UsesFresh (dispatch_highstate env c id >>= f)
unfolding dispatch_highstate ◌>>=◌
dispatch_highstate-bind env c id f k = record {
  at = λ w h fr. go (env.dispatch_highstate w.tick c id) w h fr;
}
  where
    go :
        (r : Result String) (w : World)
        → PillarFirst w
        → fresh w.trace ≡ true
        → PillarFirst (end (f r (noted_dispatch env c id r (ticked w))))
    go (ok jid) w h fr = (k (ok jid)).at _ (ground arith)
    go (err e) w h fr = (k (err e)).at _ (ground arith)

module _ (env : Env) where
  pillar_succeeded-UsesFresh : (c : Connection) (r : ℤ) → UsesFresh (pillar_succeeded env c r)
  unfolding pillar_succeeded patch_annotations ◌>>=◌
  pillar_succeeded-UsesFresh c r = record { at = λ w h fr. ground arith }

  pub run_refresh_pillar-Keeps :
      (c : Connection) (id : String) (r : ℤ) → Keeps PillarFirst (run_refresh_pillar env c id r)
  unfolding run_refresh_pillar
  run_refresh_pillar-Keeps c id r =
      search
        (
          pillar_rules, master_last_seen-Keeps, refresh_pillar-bind, pillar_failed-Keeps,
          pillar_succeeded-UsesFresh,
        )
        depth 9

  dispatch_succeeded-Keeps :
      (c : Connection) (jid : String) (r : ℤ) → Keeps PillarFirst (dispatch_succeeded env c jid r)
  unfolding dispatch_succeeded
  dispatch_succeeded-Keeps c jid r = search pillar_rules depth 9

  dispatch_failed-Keeps :
      (c : Connection) (reason : String) → Keeps PillarFirst (dispatch_failed env c reason)
  unfolding dispatch_failed
  dispatch_failed-Keeps c reason = search pillar_rules depth 9

  pub run_dispatch_highstate-UsesFresh :
      (c : Connection) (id : String) (r : ℤ) → UsesFresh (run_dispatch_highstate env c id r)
  unfolding run_dispatch_highstate
  run_dispatch_highstate-UsesFresh c id r =
      search
        (pillar_rules, dispatch_highstate-bind, dispatch_succeeded-Keeps, dispatch_failed-Keeps)
        depth 9

  highstate_completed-Keeps :
      (c : Connection) (j : JidResult) (r : ℤ) → Keeps PillarFirst (highstate_completed env c j r)
  unfolding highstate_completed highstate_succeeded highstate_failed
  highstate_completed-Keeps c j r = search pillar_rules depth 12

  pub run_poll_highstate-Keeps :
      (c : Connection) (id jid : String) (r : ℤ)
      → Keeps PillarFirst (run_poll_highstate env c id jid r)
  unfolding run_poll_highstate
  run_poll_highstate-Keeps c id jid r = search (pillar_rules, highstate_completed-Keeps) depth 9
