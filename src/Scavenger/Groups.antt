-- ===== src/Scavenger/Groups.antt =====
-- The groups of a run: one per URL, with the namespace of each configuration that resolves to it.
use vcf_salt_operator.Prelude.{
  String, Bool, true, false, not, ◌&&◌, ◌||◌, ◌≡◌, refl, arith, List, [], ◌∷◌, ◌++◌,
}
use vcf_salt_operator.Prelude.{subst, str_eq, eq_iff, eq_refl, Bool-cases, inl, inr}
use vcf_salt_operator.Prelude.Lists.{any, contains, In}
use vcf_salt_operator.Kube.{SaltKeyConfig}
use vcf_salt_operator.Kube.Error.{Result, ok, err}
use vcf_salt_operator.Raasconn.{Connection, DefaultRef, resolve}
use vcf_salt_operator.Scavenger.{
  Outside, Group, has_url, add_to_group, add_resolved, add_config, add_configs, is_ready,
}

-- Whether a namespace is in each group of a URL.
abbrev pub covers : String → String → List Group → Bool
covers url namespace [] = true
covers url namespace (g ∷ gs) =
    (not (has_url url g) || contains g.namespaces namespace) && covers url namespace gs

-- Whether no two groups have the same URL.
abbrev pub unique : List Group → Bool
unique [] = true
unique (g ∷ gs) = not (any (has_url g.conn.url) gs) && unique gs

pub contains-append :
    (s : String) (l m : List String) → contains (l ++ m) s ≡ (contains l s || contains m s)
contains-append s [] m = refl
contains-append s (x ∷ l) m = ground (arith, contains-append s l m)

-- The URLs of the groups with one more connection.
any-add_to_group :
    (conn : Connection) (url namespace : String) (gs : List Group)
    → any (has_url url) (add_to_group conn namespace gs)
      ≡ (str_eq conn.url url || any (has_url url) gs)
unfolding add_to_group
any-add_to_group conn url namespace [] = refl
any-add_to_group conn url namespace (g ∷ gs) =
    ground (arith, any-add_to_group conn url namespace gs, eq_iff g.conn.url conn.url)

add_to_group-unique :
    (conn : Connection) (namespace : String) (gs : List Group)
    → unique gs ≡ true
    → unique (add_to_group conn namespace gs) ≡ true
unfolding add_to_group
add_to_group-unique conn namespace [] h = refl
add_to_group-unique conn namespace (g ∷ gs) h = ground (
  arith,
  add_to_group-unique conn namespace gs,
  any-add_to_group conn g.conn.url namespace gs,
  eq_iff g.conn.url conn.url,
  eq_iff conn.url g.conn.url,
)

absent-covers :
    (url namespace : String) (gs : List Group)
    → any (has_url url) gs ≡ false
    → covers url namespace gs ≡ true
absent-covers url namespace [] h = refl
absent-covers url namespace (g ∷ gs) h = ground (arith, absent-covers url namespace gs)

-- The namespace that is added is covered.
add_to_group-covers_new :
    (conn : Connection) (namespace : String) (gs : List Group)
    → unique gs ≡ true
    → covers conn.url namespace (add_to_group conn namespace gs) ≡ true
unfolding add_to_group
add_to_group-covers_new conn namespace [] h = ground (arith, eq_refl namespace)
add_to_group-covers_new conn namespace (g ∷ gs) h = ground (
  arith,
  add_to_group-covers_new conn namespace gs,
  absent-covers conn.url namespace gs,
  eq_iff g.conn.url conn.url,
  contains-append namespace g.namespaces (namespace ∷ []),
  eq_refl namespace,
)

-- The others stay covered.
add_to_group-covers_same :
    (conn : Connection) (namespace other : String) (gs : List Group)
    → any (has_url conn.url) gs ≡ true
    → covers conn.url namespace gs ≡ true
    → covers conn.url namespace (add_to_group conn other gs) ≡ true
unfolding add_to_group
add_to_group-covers_same conn namespace other [] p h = ground (arith, p)
add_to_group-covers_same conn namespace other (g ∷ gs) p h = ground (
  arith,
  add_to_group-covers_same conn namespace other gs,
  contains-append namespace g.namespaces (other ∷ []),
)

add_to_group-covers_other :
    (conn : Connection) (url namespace other : String) (gs : List Group)
    → str_eq conn.url url ≡ false
    → covers url namespace gs ≡ true
    → covers url namespace (add_to_group conn other gs) ≡ true
unfolding add_to_group
add_to_group-covers_other conn url namespace other [] n h = ground (arith, n)
add_to_group-covers_other conn url namespace other (g ∷ gs) n h = ground (
  arith,
  add_to_group-covers_other conn url namespace other gs,
  contains-append namespace g.namespaces (other ∷ []),
)

-- What holds of the groups once a configuration of the namespace was added.
pub record IsHeld (url namespace : String) (gs : List Group) : Type 0 where
  pub there : any (has_url url) gs ≡ true
  pub covered : covers url namespace gs ≡ true

add_to_group-IsHeld :
    (conn : Connection) (url namespace other : String) (gs : List Group)
    → IsHeld url namespace gs
    → IsHeld url namespace (add_to_group conn other gs)
add_to_group-IsHeld conn url namespace other gs h = elim (Bool-cases (str_eq conn.url url)) [
  | inl same ↦
      let e = (eq_iff conn.url url).0 same in
      record {
        there = rw (any-add_to_group conn url other gs) (rw same refl);
        covered =
            subst (λ u. covers u namespace (add_to_group conn other gs) ≡ true) e
              (add_to_group-covers_same conn namespace other gs (rw e (h.there))
                (rw e (h.covered)));
      }
  | inr differs ↦ record {
    there = rw (any-add_to_group conn url other gs) (rw differs (h.there));
    covered = add_to_group-covers_other conn url namespace other gs differs h.covered;
  }
]

module _ (o : Outside) where
  add_resolved-unique :
      (r : Result Connection) (namespace : String) (gs : List Group)
      → unique gs ≡ true
      → unique (add_resolved o r namespace gs) ≡ true
  add_resolved-unique (ok conn) namespace gs h = add_to_group-unique conn namespace gs h
  add_resolved-unique (err e) namespace gs h = h

  add_resolved-IsHeld :
      (r : Result Connection) (url namespace other : String) (gs : List Group)
      → IsHeld url namespace gs
      → IsHeld url namespace (add_resolved o r other gs)
  add_resolved-IsHeld (ok conn) url namespace other gs h =
      add_to_group-IsHeld conn url namespace other gs h
  add_resolved-IsHeld (err e) url namespace other gs h = h

module _ (o : Outside) (d : DefaultRef) where
  add_config-unique :
      (cfg : SaltKeyConfig) (gs : List Group)
      → unique gs ≡ true
      → unique (add_config o d cfg gs) ≡ true
  unfolding add_config
  add_config-unique cfg gs h = elim (Bool-cases (is_ready o cfg)) [
    | inl ready ↦ rw ready (add_resolved-unique o _ cfg.namespace gs h)
    | inr unready ↦ rw unready h
  ]

  add_config-IsHeld :
      (url namespace : String) (cfg : SaltKeyConfig) (gs : List Group)
      → IsHeld url namespace gs
      → IsHeld url namespace (add_config o d cfg gs)
  unfolding add_config
  add_config-IsHeld url namespace cfg gs h = elim (Bool-cases (is_ready o cfg)) [
    | inl ready ↦ rw ready (add_resolved-IsHeld o _ url namespace cfg.namespace gs h)
    | inr unready ↦ rw unready h
  ]

  add_configs-IsHeld :
      (url namespace : String) (cfgs : List SaltKeyConfig) (gs : List Group)
      → IsHeld url namespace gs
      → IsHeld url namespace (add_configs o d cfgs gs)
  unfolding add_configs
  add_configs-IsHeld url namespace [] gs h = h
  add_configs-IsHeld url namespace (cfg ∷ cfgs) gs h =
      add_configs-IsHeld url namespace cfgs _ (add_config-IsHeld url namespace cfg gs h)

  pub add_configs-covers :
      (cfgs : List SaltKeyConfig) (gs : List Group) (cfg : SaltKeyConfig) {conn : Connection}
      → unique gs ≡ true
      → In cfg cfgs
      → is_ready o cfg ≡ true
      → resolve o.unicode o.read_secret cfg d ≡ ok conn
      → IsHeld conn.url cfg.namespace (add_configs o d cfgs gs)
  unfolding add_configs add_config
  add_configs-covers [] gs cfg h i ready r = elim i [ ]
  add_configs-covers (c ∷ cfgs) gs cfg {conn} h (inl e) ready r =
      let added : IsHeld conn.url cfg.namespace (add_config o d cfg gs) = rw ready (
        rw r (record {
          there = rw (any-add_to_group conn conn.url cfg.namespace gs) (rw (eq_refl conn.url) refl);
          covered = add_to_group-covers_new conn cfg.namespace gs h;
        })) in
      add_configs-IsHeld conn.url cfg.namespace cfgs _
        (subst (λ x. IsHeld conn.url cfg.namespace (add_config o d x gs)) e added)
  add_configs-covers (c ∷ cfgs) gs cfg h (inr i) ready r =
      add_configs-covers cfgs (add_config o d c gs) cfg (add_config-unique c gs h) i ready r
