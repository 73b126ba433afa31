-- ===== src/Scavenger/Run.antt =====
-- cmd/scavenger/main.go, `main`: a run, from its flags on.
use vcf_salt_operator.Prelude.{
  String, Bool, true, false, ◌≡◌, refl, arith, List, [], ◌∷◌, ◌++◌, Option, none, some,
  if◌then◌else◌, ◌⊎◌, inl, inr,
}
use vcf_salt_operator.Prelude.Lists.{any}
use vcf_salt_operator.CommaList.{split_list}
use vcf_salt_operator.Kube.{SaltKeyConfig}
use vcf_salt_operator.Kube.Error.{◌>>=◌, Error, Result, ok, err}
use vcf_salt_operator.Raasconn.{DefaultRef, Connection}
use vcf_salt_operator.Scavenger.{
  Outside, Deletion, matches_any, scavenge, scavenge_groups, scavenge_raas_group, scavenge_keys,
  scavenge_live, calls_of, add_configs, listed_configs, logged_in, accepted_keys, Group,
}

abbrev pub default_dry_run : Bool
default_dry_run = true

-- The flags; a flag for the dry run that is missing is `defaultDryRun`.
pub record ScavengeFlags : Type 0 where
  pub dry_run : Option Bool
  pub default_connection : DefaultRef
  pub exclude_minions : String

-- The libraries and the configuration of the client.
pub record Tools : Type 0 where
  pub trim_space : String → String
  -- Whether `path.Match` refuses a pattern.
  pub bad_pattern : String → Bool
  pub build_client : Option Error

abbrev pub is_dry : Option Bool → Bool
is_dry none = default_dry_run
is_dry (some b) = b

-- The calls of a run, and whether it ends without an error.
pub record Scavenged : Type 0 where
  pub calls : List Deletion
  pub finished : Bool

abbrev pub ended : Result (List Deletion) → Scavenged
ended (ok calls) = record { calls = calls; finished = true }
ended (err e) = record { calls = []; finished = false }

module _ (o : Outside) (t : Tools) where
  abbrev pub with_client : Option Error → ScavengeFlags → Scavenged
  with_client (some e) f = record { calls = []; finished = false }
  with_client none f = ended (
      scavenge o (is_dry f.dry_run) (split_list t.trim_space f.exclude_minions)
        f.default_connection)

  -- `main`
  unfoldable pub run : ScavengeFlags → Scavenged
  run f =
      if any t.bad_pattern (split_list t.trim_space f.exclude_minions)
      then record { calls = []; finished = false }
      else with_client t.build_client f

any-join :
    {A : Type 0} (p : A → Bool) (l m : List A)
    → any p l ≡ false
    → any p m ≡ false
    → any p (l ++ m) ≡ false
any-join p [] m h k = k
any-join p (x ∷ l) m h k = ground (arith, any-join p l m)

-- A test that no call on the keys of a group passes, no call of a run passes.
module _ (o : Outside) (dry_run : Bool) (exclude : List String) (q : Deletion → Bool)
    (none_passes : (conn : Connection) (live keys : List String)
      → any q (scavenge_keys o dry_run exclude conn live keys) ≡ false) where
  scavenge_live-none :
      (conn : Connection) (keys : List String) (r : Result (List String))
      → any q (scavenge_live o dry_run exclude conn keys r) ≡ false
  scavenge_live-none conn keys (ok live) = none_passes conn live keys
  scavenge_live-none conn keys (err e) = refl

  group_none :
      (conn : Connection) (live : Result (List String)) (login : Option Error)
      (keys : Result (List String))
      → any q (
          calls_of o (do
            logged ← logged_in o login
            accepted ← accepted_keys o keys
            ok (scavenge_live o dry_run exclude conn accepted live)))
        ≡ false
  group_none conn live (some e) keys = refl
  group_none conn live none (err e) = refl
  group_none conn live none (ok keys) = scavenge_live-none conn keys live

  scavenge_groups-none : (gs : List Group) → any q (scavenge_groups o dry_run exclude gs) ≡ false
  unfolding scavenge_groups scavenge_raas_group
  scavenge_groups-none [] = refl
  scavenge_groups-none (g ∷ gs) =
      any-join q _ _ (group_none g.conn _ (o.login_error g.conn) (o.list_accepted_keys g.conn))
        (scavenge_groups-none gs)

  listed_none :
      (d : DefaultRef) (r : Result (List SaltKeyConfig))
      → any q
          (ended (do
            cfgs ← listed_configs o r
            ok (scavenge_groups o dry_run exclude (add_configs o d cfgs [])))).calls
        ≡ false
  listed_none d (ok cfgs) = scavenge_groups-none (add_configs o d cfgs [])
  listed_none d (err e) = refl

  scavenge-none : (d : DefaultRef) → any q (ended (scavenge o dry_run exclude d)).calls ≡ false
  unfolding scavenge
  scavenge-none d = listed_none d o.list_configs

scavenge_keys-no_match :
    (o : Outside) (dry_run : Bool) (exclude : List String) (conn : Connection)
    (live keys : List String)
    → any (λ x. matches_any o exclude x.key) (scavenge_keys o dry_run exclude conn live keys)
      ≡ false
unfolding scavenge_keys
scavenge_keys-no_match o dry_run exclude conn live [] = refl
scavenge_keys-no_match o dry_run exclude conn live (k ∷ keys) =
    ground (arith, scavenge_keys-no_match o dry_run exclude conn live keys)

scavenge_keys-dry :
    (o : Outside) (dry_run : Bool) (exclude : List String) (conn : Connection)
    (live keys : List String)
    → any (λ _. dry_run) (scavenge_keys o dry_run exclude conn live keys) ≡ false
unfolding scavenge_keys
scavenge_keys-dry o dry_run exclude conn live [] = refl
scavenge_keys-dry o dry_run exclude conn live (k ∷ keys) =
    ground (arith, scavenge_keys-dry o dry_run exclude conn live keys)

module _ (o : Outside) (t : Tools) (f : ScavengeFlags) (q : Deletion → Bool) where
  with_client-none :
      (e : Option Error)
      → any q
          (ended (
            scavenge o
              (is_dry f.dry_run)
              (split_list t.trim_space f.exclude_minions)
              f.default_connection)).calls
        ≡ false
      → any q (with_client o t e f).calls ≡ false
  with_client-none none h = h
  with_client-none (some e) h = refl

  run-none :
      any q
          (ended (
            scavenge o
              (is_dry f.dry_run)
              (split_list t.trim_space f.exclude_minions)
              f.default_connection)).calls
        ≡ false
      → any q (run o t f).calls ≡ false
  unfolding run
  run-none h = ground (arith, with_client-none t.build_client h)

-- A list without an element that passes the test that all pass.
any-always : {A : Type 0} (l : List A) → any (λ _. true) l ≡ false → l ≡ []
any-always [] h = refl
any-always (x ∷ l) h = ground arith

dry_or_off :
    (b : Option Bool) (calls : List Deletion)
    → any (λ _. is_dry b) calls ≡ false
    → (calls ≡ []) ⊎ (b ≡ some false)
dry_or_off none calls h = inl (any-always calls h)
dry_or_off (some true) calls h = inl (any-always calls h)
dry_or_off (some false) calls h = inr refl

-- A run never tries to delete the key of a minion that a pattern of its flag matches, and it tries
-- to delete none at all unless the flag of the dry run is given and false.
pub run_spares :
    (o : Outside) (t : Tools) (f : ScavengeFlags)
    → (any (λ x. matches_any o (split_list t.trim_space f.exclude_minions) x.key) (run o t f).calls
        ≡ false)
      × (((run o t f).calls ≡ []) ⊎ (f.dry_run ≡ some false))
run_spares o t f = (
  run-none o t f _ (scavenge-none o _ _ _ (scavenge_keys-no_match o _ _) f.default_connection),
  dry_or_off f.dry_run _
      (run-none o t f _ (scavenge-none o _ _ _ (scavenge_keys-dry o _ _) f.default_connection)),
)
