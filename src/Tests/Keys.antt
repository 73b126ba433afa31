-- ===== src/Tests/Keys.antt =====
-- A machine whose key is generated, under the client of the Salt API.
use vcf_salt_operator.Prelude.{String, Option, ◌≡◌, refl, subst, arith, [], some, eq_iff}
use vcf_salt_operator.Prelude.Int.{pos}
use vcf_salt_operator.Kube.Error.{Result, ok}
use vcf_salt_operator.Salt.Client.{KeyPair, new_session}
use vcf_salt_operator.Salt.Client.Wheel.{gen_accept_key, master_public_key}
use vcf_salt_operator.Controller.Names.{key_status_preseeded}
use vcf_salt_operator.Controller.World.{Env}
use vcf_salt_operator.Controller.Run.Keeps.{end}
use vcf_salt_operator.Controller.Preseed.{run_preseed_key}
use vcf_salt_operator.Controller.Preseed.Bootable.{UsesClient, Marked}
use vcf_salt_operator.Controller.Preseed.Generated.{run_preseed_key-Marked}
use vcf_salt_operator.Tests.Fixtures.{env, connection, world}
use vcf_salt_operator.Tests.Calls.{net, pair, client, generates, reads}

abbrev master_key : String
master_key = "BEGIN PUBLIC KEY"

abbrev client_env : Env
client_env = record env {
  gen_accept_key = λ t c id force. ok (some pair);
  master_public_key = λ t c. ok master_key;
}

same_pair :
    (p : KeyPair) → ◌≡◌ {A = Result (Option KeyPair)} (ok (some pair)) (ok (some p)) → pair ≡ p
same_pair p e = ground arith

same_key : (k : String) → ◌≡◌ {A = Result String} (ok master_key) (ok k) → master_key ≡ k
same_key k e = ground arith

uses_client : UsesClient client_env connection "web01"
uses_client = record {
  generates = λ t force p e. (
    net "pair",
    (
      1,
      (
        new_session,
        (
          _,
          subst
              (λ q. gen_accept_key (net "pair") client 1 "web01" force new_session ≡ (
                ok (some (some q)),
                (gen_accept_key (net "pair") client 1 "web01" force new_session).1,
              ))
              (same_pair p e) (generates force),
        ),
      ),
    ),
  );
  reads = λ t k e. (
    net "key",
    (
      1,
      (
        new_session,
        (
          _,
          subst
              (λ j.
                master_public_key (net "key") client 1 new_session
                ≡ (ok (some j), (master_public_key (net "key") client 1 new_session).1))
              (same_key k e) reads,
        ),
      ),
    ),
  );
}

unmarked : Marked client_env connection "web01" (world [])
unmarked = record {
  is_named = refl;
  marked = λ e. absurd (ground (arith, eq_iff "" key_status_preseeded));
}

run_preseed_key-Marked_example :
    Marked client_env connection "web01"
      (end (run_preseed_key client_env connection (pos 5) (world [])))
run_preseed_key-Marked_example =
    run_preseed_key-Marked client_env connection (pos 5) (world []) uses_client unmarked
