-- ===== src/Tests/Scavenges.antt =====
-- Runs of the scavenger.
use vcf_salt_operator.Prelude.{String, List, [], ◌∷◌, ◌≡◌, refl, true, false, none, inl, str_eq}
use vcf_salt_operator.Prelude.Lists.{any}
use vcf_salt_operator.Kube.Error.{ok, err, failure}
use vcf_salt_operator.Raasconn.{resolve, resolve_default, load, read_secret, configured}
use vcf_salt_operator.Scavenger.{
  Outside, Group, Deletion, scavenge, scavenge_groups, scavenge_raas_group, scavenge_keys,
  add_configs, add_config, add_to_group, live_minions, live_vm_minion_ids, matches_any, calls_of,
}
use vcf_salt_operator.Scavenger.Safety.{
  targets, scavenge-spares, scavenge-spares_unlisted, scavenge_raas_group-exact,
}
use vcf_salt_operator.Tests.Connections.{resolves}
use vcf_salt_operator.Tests.Fixtures.{ascii, config, connection, default_ref, secrets, machine}

-- The machine web01 lives, the keys gone and saltmaster have no machine.
abbrev pub outside : Outside
outside = record {
  unicode = ascii;
  is_status_condition_true = λ cs kind. true;
  path_match = λ p id. str_eq p id;
  list_configs = ok (config ∷ []);
  read_secret = secrets;
  list_vms = λ ns. ok (machine (("salt.vcf.io/minion-id", "web01") ∷ []) ∷ []);
  login_error = λ c. none;
  list_accepted_keys = λ c. ok ("web01" ∷ "gone" ∷ "saltmaster" ∷ []);
  delete_key_error = λ c key. none;
}

abbrev excluded : List String
excluded = "saltmaster" ∷ []

abbrev calls : List Deletion
calls = record { conn = connection; key = "gone"; refused = none } ∷ []

abbrev scavenges : scavenge outside false excluded default_ref ≡ ok calls
unfolding scavenge scavenge_groups scavenge_raas_group scavenge_keys add_configs add_config
    add_to_group live_minions live_vm_minion_ids matches_any resolve resolve_default load
    read_secret configured
scavenges = refl

dry_run_deletes_nothing : scavenge outside true excluded default_ref ≡ ok []
unfolding scavenge scavenge_groups scavenge_raas_group scavenge_keys add_configs add_config
    add_to_group live_minions live_vm_minion_ids matches_any resolve resolve_default load
    read_secret configured
dry_run_deletes_nothing = refl

scavenge-spares_example : any (targets "https://raas" "web01") calls ≡ false
scavenge-spares_example =
    scavenge-spares outside excluded false default_ref config
      (machine (("salt.vcf.io/minion-id", "web01") ∷ [])) refl (inl refl) refl resolves refl
      (inl refl) refl scavenges

abbrev unlisted : Outside
unlisted = record outside { list_vms = λ ns. err (failure "timeout") }

abbrev scavenges_unlisted : scavenge unlisted false excluded default_ref ≡ ok []
unfolding scavenge scavenge_groups scavenge_raas_group scavenge_keys add_configs add_config
    add_to_group live_minions live_vm_minion_ids matches_any resolve resolve_default load
    read_secret configured
scavenges_unlisted = refl

scavenge-spares_unlisted_example : any {A = Deletion} (targets "https://raas" "gone") [] ≡ false
scavenge-spares_unlisted_example =
    scavenge-spares_unlisted unlisted excluded false default_ref config "gone" refl (inl refl) refl
      resolves refl scavenges_unlisted

abbrev group : Group
group = record { conn = connection; namespaces = "prod" ∷ [] }

abbrev lives : live_minions outside ("prod" ∷ []) ≡ ok ("web01" ∷ [])
unfolding live_minions live_vm_minion_ids
lives = refl

scavenge_raas_group-exact_example :
    any
      (targets "https://raas" "gone")
      (calls_of outside (scavenge_raas_group outside false excluded group))
    ≡ true
unfolding matches_any
scavenge_raas_group-exact_example =
    scavenge_raas_group-exact outside excluded false group "gone" refl refl lives
