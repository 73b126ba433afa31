-- ===== src/Controller/IntentHash/Stability.antt =====
-- The hash, and annotations that are no intent.
use vcf_salt_operator.Prelude.{String, Bool, true, not, ◌&&◌, List, [], ◌∷◌, arith}
use vcf_salt_operator.Prelude.{◌≡◌, refl, eq_iff}
use vcf_salt_operator.Prelude.Dict.{Dict, get, copy_into}
use vcf_salt_operator.Controller.World.{Env}
use vcf_salt_operator.Controller.IntentHash.{
  is_intent, intent_keys, insert_key, intent_text, compute_intent_hash,
}

-- No key of the map is one of a tenant's.
abbrev pub no_intent : Dict String → Bool
no_intent [] = true
no_intent ((k, _) ∷ m) = not (is_intent k) && no_intent m

abbrev pub all_intent : List String → Bool
all_intent [] = true
all_intent (k ∷ ks) = is_intent k && all_intent ks

get-copy_into :
    (k : String) (additions m : Dict String)
    → no_intent additions ≡ true
    → is_intent k ≡ true
    → get k (copy_into additions m) ≡ get k m
get-copy_into k [] m h i = refl
get-copy_into k ((j, v) ∷ additions) m h i = ground (arith, eq_iff j k, get-copy_into k additions m)

intent_keys-copy_into :
    (additions m : Dict String)
    → no_intent additions ≡ true
    → intent_keys (copy_into additions m) ≡ intent_keys m
unfolding intent_keys
intent_keys-copy_into [] m h = refl
intent_keys-copy_into ((j, v) ∷ additions) m h = ground (arith, intent_keys-copy_into additions m)

insert_key-all_intent :
    (k : String) (ks : List String)
    → is_intent k ≡ true
    → all_intent ks ≡ true
    → all_intent (insert_key k ks) ≡ true
unfolding insert_key
insert_key-all_intent k [] h a = rw h
insert_key-all_intent k (j ∷ ks) h a = ground (arith, insert_key-all_intent k ks)

pub intent_keys-all_intent : (m : Dict String) → all_intent (intent_keys m) ≡ true
unfolding intent_keys
intent_keys-all_intent [] = refl
intent_keys-all_intent ((k, _) ∷ m) =
    ground (arith, intent_keys-all_intent m, insert_key-all_intent k (intent_keys m))

intent_text-copy_into :
    (ks : List String) (additions m : Dict String)
    → no_intent additions ≡ true
    → all_intent ks ≡ true
    → intent_text ks (copy_into additions m) ≡ intent_text ks m
unfolding intent_text
intent_text-copy_into [] additions m h a = refl
intent_text-copy_into (k ∷ ks) additions m h a =
    ground (arith, intent_text-copy_into ks additions m, get-copy_into k additions m)

-- Writing annotations of which none is a tenant's leaves the hash as it was.
pub compute_intent_hash-copy_into :
    (env : Env) (additions m : Dict String)
    → no_intent additions ≡ true
    → compute_intent_hash env (copy_into additions m) ≡ compute_intent_hash env m
unfolding compute_intent_hash
compute_intent_hash-copy_into env additions m h = rw (
  intent_keys-copy_into additions m h,
  intent_text-copy_into (intent_keys m) additions m h (intent_keys-all_intent m),
)
