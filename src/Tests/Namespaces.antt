-- ===== src/Tests/Namespaces.antt =====
-- Enrolled namespaces.
use vcf_salt_operator.Prelude.{List, [], ◌∷◌, ◌≡◌, refl, true, false, none, Option}
use vcf_salt_operator.Kube.{SaltKeyConfig}
use vcf_salt_operator.Kube.Error.{Error}
use vcf_salt_operator.Enrolment.{
  Answers, Enrolment, Namespace, reconcile, release_enrolled, release_each, matches, own_config,
}
use vcf_salt_operator.Enrolment.Settles.{users, reconcile-users, release_enrolled_complete}
use vcf_salt_operator.Enrolment.Rounds.{rounds, settled, rounds-settled}
use vcf_salt_operator.Tests.Fixtures.{config}

abbrev enrolled : SaltKeyConfig
enrolled = record config { labels = ("salt.vcf.io/managed-by", "vcf-salt-operator") ∷ [] }

abbrev own : SaltKeyConfig
own = record config { name = "mine" }

abbrev both : List SaltKeyConfig
both = enrolled ∷ own ∷ []

abbrev enrolment : Enrolment
enrolment = record {
  namespaces = "prod" ∷ [];
  all = false;
  selector = none;
  exclude_prefixes = "kube-" ∷ [];
  key_acceptance = "";
}

abbrev namespace : Namespace
namespace = record { name = "prod"; labels = []; deleting = false }

abbrev accepted : Answers
accepted = record { get_error = none; list_error = none; write_error = none }

-- The operator's configuration yields to the namespace's own.
reconcile_runs : (reconcile accepted enrolment namespace both).configs ≡ own ∷ []
unfolding reconcile matches own_config
reconcile_runs = refl

reconcile-users_example : users (reconcile accepted enrolment namespace both).configs ≡ own ∷ []
reconcile-users_example = reconcile-users accepted enrolment namespace both refl

abbrev accepting : SaltKeyConfig → Option Error
accepting cfg = none

abbrev releases : (release_enrolled accepting none both).error ≡ none
unfolding release_enrolled release_each
releases = refl

release_enrolled_complete_example : (release_enrolled accepting none both).configs ≡ own ∷ []
release_enrolled_complete_example = release_enrolled_complete accepting none both releases

-- A configuration that another operator left behind, beside the one of this operator.
abbrev twice : List SaltKeyConfig
twice = enrolled ∷ record enrolled { name = "left-behind" } ∷ []

abbrev final : List SaltKeyConfig
final = rounds enrolment namespace 3 twice

rounds-settled_example :
    (settled enrolment namespace final ≡ true) × (rounds enrolment namespace 2 final ≡ final)
rounds-settled_example = rounds-settled enrolment namespace 2 twice refl
