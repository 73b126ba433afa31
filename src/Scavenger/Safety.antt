-- ===== src/Scavenger/Safety.antt =====
-- Which keys a run of the scavenger deletes.
use vcf_salt_operator.Prelude.{
  String, Bool, true, false, not, ◌&&◌, ◌||◌, ◌≡◌, refl, arith, List, [], ◌∷◌, ◌++◌,
}
use vcf_salt_operator.Prelude.{subst, str_eq, eq_iff, eq_refl, inl, inr, Option, some, none}
use vcf_salt_operator.Prelude.Lists.{any, contains, In}
use vcf_salt_operator.Prelude.Dict.{get}
use vcf_salt_operator.Kube.{Vm, SaltKeyConfig}
use vcf_salt_operator.Kube.Error.{Error, Result, ok, err, ◌>>=◌}
use vcf_salt_operator.Raasconn.{Connection, DefaultRef, resolve, is_set}
use vcf_salt_operator.Controller.Names.{annotation_minion_id}
use vcf_salt_operator.Scavenger.{
  Outside, Group, Deletion, has_url, minion_ids, live_vm_minion_ids, live_minions, matches_any,
  scavenge_keys, scavenge_live, scavenge_raas_group, scavenge_groups, scavenge, add_configs,
  calls_of, logged_in, accepted_keys, is_ready,
}
use vcf_salt_operator.Scavenger.Groups.{covers, contains-append, add_configs-covers}

-- Whether a call deletes a key at a URL.
abbrev pub targets : String → String → Deletion → Bool
targets url key x = str_eq x.conn.url url && str_eq x.key key

any-append : {A : Type 0} (p : A → Bool) (l m : List A) → any p (l ++ m) ≡ (any p l || any p m)
any-append p [] m = refl
any-append p (x ∷ l) m = ground (arith, any-append p l m)

minion_ids-live :
    (vms : List Vm) (vm : Vm)
    → In vm vms
    → is_set (get annotation_minion_id vm.annotations) ≡ true
    → contains (minion_ids vms) (get annotation_minion_id vm.annotations) ≡ true
minion_ids-live [] vm i s = elim i [ ]
minion_ids-live (v ∷ vms) vm (inl e) s =
    subst (λ x. contains (minion_ids (x ∷ vms)) (get annotation_minion_id vm.annotations) ≡ true) e
      (rw s (rw (eq_refl (get annotation_minion_id vm.annotations)) refl))
minion_ids-live (v ∷ vms) vm (inr i) s = ground (arith, minion_ids-live vms vm i s)

-- Whether a key is among identifiers, if those could be listed at all.
abbrev pub spared : Result (List String) → String → Bool
spared (ok live) key = contains live key
spared (err e) key = true

-- Two lists of identifiers together, as `live_minions` joins them.
abbrev both : Result (List String) → Result (List String) → Result (List String)
both a b = do here ← a; rest ← b; ok (here ++ rest)

both-spared :
    (a b : Result (List String)) (key : String)
    → (spared a key || spared b key) ≡ true
    → spared (both a b) key ≡ true
both-spared (ok l) (ok m) key h = rw (contains-append key l m) h
both-spared (ok l) (err e) key h = refl
both-spared (err e) b key h = refl

module _ (o : Outside) (exclude : List String) where
  -- A key that one of the namespaces spares is spared by all of them together.
  live_minions-spared :
      (namespaces : List String) (namespace key : String)
      → contains namespaces namespace ≡ true
      → spared (live_vm_minion_ids o namespace) key ≡ true
      → spared (live_minions o namespaces) key ≡ true
  unfolding live_minions
  live_minions-spared [] namespace key c h = ground (arith, c)
  live_minions-spared (n ∷ ns) namespace key c h =
      both-spared (live_vm_minion_ids o n) (live_minions o ns) key
        (ground (arith, live_minions-spared ns namespace key, eq_iff n namespace))

  scavenge_keys-spares :
      (dry_run : Bool) (conn : Connection) (live keys : List String) (url key : String)
      → contains live key ≡ true
      → any (targets url key) (scavenge_keys o dry_run exclude conn live keys) ≡ false
  unfolding scavenge_keys
  scavenge_keys-spares dry_run conn live [] url key h = refl
  scavenge_keys-spares dry_run conn live (k ∷ keys) url key h =
      ground (arith, scavenge_keys-spares dry_run conn live keys url key h, eq_iff k key)

  scavenge_keys-other :
      (dry_run : Bool) (conn : Connection) (live keys : List String) (url key : String)
      → str_eq conn.url url ≡ false
      → any (targets url key) (scavenge_keys o dry_run exclude conn live keys) ≡ false
  unfolding scavenge_keys
  scavenge_keys-other dry_run conn live [] url key h = refl
  scavenge_keys-other dry_run conn live (k ∷ keys) url key h =
      ground (arith, scavenge_keys-other dry_run conn live keys url key h)

  scavenge_live-spares :
      (dry_run : Bool) (conn : Connection) (r : Result (List String)) (keys : List String)
      (url key : String)
      → (not (str_eq conn.url url) || spared r key) ≡ true
      → any (targets url key) (scavenge_live o dry_run exclude conn keys r) ≡ false
  scavenge_live-spares dry_run conn (ok live) keys url key h = ground (
    arith,
    scavenge_keys-spares dry_run conn live keys url key,
    scavenge_keys-other dry_run conn live keys url key,
  )
  scavenge_live-spares dry_run conn (err e) keys url key h = refl

  scavenge_raas_group-spares :
      (dry_run : Bool) (g : Group) (url namespace key : String)
      → (not (has_url url g) || contains g.namespaces namespace) ≡ true
      → spared (live_vm_minion_ids o namespace) key ≡ true
      → any (targets url key) (calls_of o (scavenge_raas_group o dry_run exclude g)) ≡ false
  unfolding scavenge_raas_group
  scavenge_raas_group-spares dry_run g url namespace key c h =
      go (o.login_error g.conn) (o.list_accepted_keys g.conn)
    where
      group_spared :
          contains g.namespaces namespace ≡ true → spared (live_minions o g.namespaces) key ≡ true
      group_spared = λ c. live_minions-spared g.namespaces namespace key c h

      go :
          (login : Option Error) (keys : Result (List String))
          → any (targets url key) (
              calls_of o (do
                logged ← logged_in o login
                accepted ← accepted_keys o keys
                ok (scavenge_live o dry_run exclude g.conn accepted (live_minions o g.namespaces))))
            ≡ false
      go (some e) keys = refl
      go none (err e) = refl
      go none (ok keys) =
          scavenge_live-spares dry_run g.conn _ keys url key (ground (arith, group_spared))

  scavenge_groups-spares :
      (dry_run : Bool) (gs : List Group) (url namespace key : String)
      → covers url namespace gs ≡ true
      → spared (live_vm_minion_ids o namespace) key ≡ true
      → any (targets url key) (scavenge_groups o dry_run exclude gs) ≡ false
  unfolding scavenge_groups
  scavenge_groups-spares dry_run [] url namespace key c h = refl
  scavenge_groups-spares dry_run (g ∷ gs) url namespace key c h = ground (
    arith,
    scavenge_groups-spares dry_run gs url namespace key,
    scavenge_raas_group-spares dry_run g url namespace key,
    any-append (targets url key) (calls_of o (scavenge_raas_group o dry_run exclude g))
        (scavenge_groups o dry_run exclude gs),
  )

  scavenge-spares_all :
      (dry_run : Bool) (d : DefaultRef) (cfg : SaltKeyConfig) (key : String)
      {cfgs : List SaltKeyConfig} {conn : Connection} {calls : List Deletion}
      → o.list_configs ≡ ok cfgs
      → In cfg cfgs
      → is_ready o cfg ≡ true
      → resolve o.unicode o.read_secret cfg d ≡ ok conn
      → spared (live_vm_minion_ids o cfg.namespace) key ≡ true
      → scavenge o dry_run exclude d ≡ ok calls
      → any (targets conn.url key) calls ≡ false
  unfolding scavenge
  scavenge-spares_all dry_run d cfg key {cfgs} {conn} l i ready r s h =
      let held = add_configs-covers o d cfgs [] cfg refl i ready r in
      let none_hit =
        scavenge_groups-spares dry_run (add_configs o d cfgs []) conn.url cfg.namespace key
          held.covered s in
      ground arith

  -- The key of a machine is never deleted, with or without dry run: where a configuration is
  -- ready and resolves to a URL, and a machine of its namespace is listed with a minion ID, no
  -- call of the run deletes the key of that minion at that URL.
  pub scavenge-spares :
      (dry_run : Bool) (d : DefaultRef) (cfg : SaltKeyConfig) (vm : Vm) {cfgs : List SaltKeyConfig}
      {vms : List Vm} {conn : Connection} {calls : List Deletion}
      → o.list_configs ≡ ok cfgs
      → In cfg cfgs
      → is_ready o cfg ≡ true
      → resolve o.unicode o.read_secret cfg d ≡ ok conn
      → o.list_vms cfg.namespace ≡ ok vms
      → In vm vms
      → is_set (get annotation_minion_id vm.annotations) ≡ true
      → scavenge o dry_run exclude d ≡ ok calls
      → any (targets conn.url (get annotation_minion_id vm.annotations)) calls ≡ false
  unfolding live_vm_minion_ids
  scavenge-spares dry_run d cfg vm {vms = vms} l i ready r lv iv s h =
      scavenge-spares_all dry_run d cfg _ l i ready r (rw lv (minion_ids-live vms vm iv s)) h

  -- If the machines of one namespace cannot be listed, no key at all is deleted at the URL that a
  -- ready configuration of the namespace resolves to.
  pub scavenge-spares_unlisted :
      (dry_run : Bool) (d : DefaultRef) (cfg : SaltKeyConfig) (key : String)
      {cfgs : List SaltKeyConfig} {e : Error} {conn : Connection} {calls : List Deletion}
      → o.list_configs ≡ ok cfgs
      → In cfg cfgs
      → is_ready o cfg ≡ true
      → resolve o.unicode o.read_secret cfg d ≡ ok conn
      → o.list_vms cfg.namespace ≡ err e
      → scavenge o dry_run exclude d ≡ ok calls
      → any (targets conn.url key) calls ≡ false
  unfolding live_vm_minion_ids
  scavenge-spares_unlisted dry_run d cfg key l i ready r lv h =
      scavenge-spares_all dry_run d cfg key l i ready r (rw lv refl) h

  scavenge_keys-exact :
      (dry_run : Bool) (conn : Connection) (live keys : List String) (key : String)
      → any (targets conn.url key) (scavenge_keys o dry_run exclude conn live keys) ≡ (
          contains keys key
          && (not (contains live key) && (not (matches_any o exclude key) && not dry_run)))
  unfolding scavenge_keys
  scavenge_keys-exact dry_run conn live [] key = refl
  scavenge_keys-exact dry_run conn live (k ∷ keys) key =
      ground (arith, scavenge_keys-exact dry_run conn live keys key, eq_iff k key, eq_refl conn.url)

  -- Where the login and the two lists succeed, a deletion of a key is tried exactly if the key is
  -- accepted, belongs to no live machine of the group, matches no excluded pattern, and the run
  -- is not a dry run.
  pub scavenge_raas_group-exact :
      (dry_run : Bool) (g : Group) (key : String) {keys live : List String}
      → o.login_error g.conn ≡ none
      → o.list_accepted_keys g.conn ≡ ok keys
      → live_minions o g.namespaces ≡ ok live
      → any (targets g.conn.url key) (calls_of o (scavenge_raas_group o dry_run exclude g)) ≡ (
          contains keys key
          && (not (contains live key) && (not (matches_any o exclude key) && not dry_run)))
  unfolding scavenge_raas_group
  scavenge_raas_group-exact dry_run g key {keys} {live} l a m =
      rw (l, a, m) (scavenge_keys-exact dry_run g.conn live keys key)

  scavenge_keys-dry_run :
      (conn : Connection) (live keys : List String)
      → scavenge_keys o true exclude conn live keys ≡ []
  unfolding scavenge_keys
  scavenge_keys-dry_run conn live [] = refl
  scavenge_keys-dry_run conn live (k ∷ keys) = ground (arith, scavenge_keys-dry_run conn live keys)
