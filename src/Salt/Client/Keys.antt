-- ===== src/Salt/Client/Keys.antt =====
-- pkg/salt/client.go, the calls that list and change the keys of minions, and the presence of the
-- master.
use vcf_salt_operator.Prelude.{
  String, true, List, [], ◌∷◌, ◌++◌, Option, none, some, str_eq, if◌then◌else◌,
}
use vcf_salt_operator.Prelude.Int.{pos}
use vcf_salt_operator.Kube.Error.{Result, ok, err, failure}
use vcf_salt_operator.Salt.Json.{
  Json, Items, Members, string, array, boolean, number, no_members, member, no_items, item,
  get_member, as_text, as_members, as_items, read_members, read_items, read_text, read_texts,
  tagged, is_set,
}
use vcf_salt_operator.Salt.Client.{Net, RaasClient, Call, give, result, within, expect, ◌>>=◌, ◌>>◌}
use vcf_salt_operator.Salt.Client.Transport.{posted, rpc, check_body_error, parsed_members}

-- The loop of `extractMinions` over the results.
abbrev pub minion_of : Json → String
minion_of v = elim (as_members (some v)) [ none ↦ "" | some m ↦ as_text (get_member "minion" m) ]

unfoldable pub minions_of : Items → List String
minions_of no_items = []
minions_of (item v xs) =
    let rest = minions_of xs in if str_eq (minion_of v) "" then rest else minion_of v ∷ rest

abbrev pub results_of : Option Members → List String
results_of none = []
results_of (some ret) = elim (as_items (get_member "results" ret)) [
  | none ↦ []
  | some xs ↦ minions_of xs
]

abbrev pub minions_in : Option Members → Result (List String)
minions_in none = err (failure "response is not valid JSON")
minions_in (some raw) =
    if is_set (get_member "error" raw)
    then err (failure "RaaS API error")
    else ok (results_of (as_members (get_member "ret" raw)))

module _ (net : Net) (c : RaasClient) where
  -- `extractMinions`
  unfoldable pub extract_minions : String → Result (List String)
  extract_minions body = minions_in (parsed_members net c (net.parse body))

  abbrev pub state_query : String → Json
  state_query state = rpc "minions" "get_minion_key_state" (
      member "limit" (number (pos 0))
        (member "page" (number (pos 0)) (member "key_state" (string state) no_members)))

  unfoldable pub list_pending_keys : Call (List String)
  list_pending_keys = do
    body ← posted net c "list_pending" (state_query "pending")
    result (extract_minions body)

  unfoldable pub list_accepted_keys : Call (List String)
  list_accepted_keys = do
    body ← posted net c "list_accepted" (state_query "accepted")
    result (extract_minions body)

  -- The pair of the master and the minion, as a list of one.
  abbrev pub key_of : String → Json
  key_of minion_id =
      array (item (array (item (string c.master_id) (item (string minion_id) no_items))) no_items)

  unfoldable pub accept_key : String → Call (Unit {0})
  accept_key minion_id = do
    body ← posted net c "accept key" (
        rpc "minions" "set_minion_key_state" (
          member "minions" (key_of minion_id) (
            member "state" (string "accept") (
              member "include_rejected" (boolean true)
                (member "include_denied" (boolean true) no_members)))))
    within "accept key" (result (check_body_error net body))

  unfoldable pub delete_key : String → Call (Unit {0})
  delete_key minion_id = do
    body ← posted net c "delete key" (
        rpc "minions" "set_minion_key_state"
          (member "minions" (key_of minion_id) (member "state" (string "delete") no_members)))
    within "delete key" (result (check_body_error net body))

  -- The results of a response whose type is a struct with `ret.results`: `none` is an error.
  abbrev pub ret_results : Option Members → Option Items
  ret_results none = none
  ret_results (some m) = elim (read_members (tagged net.unicode "ret" m)) [
    | none ↦ none
    | some ret ↦ read_items (tagged net.unicode "results" ret)
  ]

  -- The two texts of a presence, and of all of them.
  abbrev pub presence_of : Option Members → Option (String × String)
  presence_of none = none
  presence_of (some m) = elim (read_text (tagged net.unicode "master_id" m)) [
    | none ↦ none
    | some id ↦ elim (read_text (tagged net.unicode "last_seen" m)) [
      | none ↦ none
      | some t ↦ some (id, t)
    ]
  ]

  unfoldable pub presences : Items → Option (List (String × String))
  presences no_items = some []
  presences (item v xs) =
      let rest = presences xs in
      elim (presence_of (read_members v)) [
        | none ↦ none
        | some p ↦ elim rest [ none ↦ none | some ps ↦ some (p ∷ ps) ]
      ]

  abbrev pub presences_in : Option Items → Option (List (String × String))
  presences_in none = none
  presences_in (some xs) = presences xs

  -- The loop of `MasterLastSeen`.
  unfoldable pub seen_of : List (String × String) → String
  seen_of [] = ""
  seen_of ((id, t) ∷ ps) = if str_eq id c.master_id then t else seen_of ps

  unfoldable pub master_last_seen : Call String
  master_last_seen = do
    body ← posted net c "get_master_presence" (rpc "master" "get_master_presence" no_members)
    within "get_master_presence" (result (check_body_error net body))
    ps ←
        expect "get_master_presence"
          (presences_in (ret_results (parsed_members net c (net.parse body))))
    give (seen_of ps)

  -- A minion and its states.
  abbrev pub states_of : Option Members → Option (String × List String)
  states_of none = none
  states_of (some m) = elim (read_text (tagged net.unicode "minion" m)) [
    | none ↦ none
    | some id ↦ elim (read_items (tagged net.unicode "key_state" m)) [
      | none ↦ none
      | some xs ↦ elim (read_texts xs) [ none ↦ none | some ss ↦ some (id, ss) ]
    ]
  ]

  unfoldable pub all_states : Items → Option (List (String × List String))
  all_states no_items = some []
  all_states (item v xs) =
      let rest = all_states xs in
      elim (states_of (read_members v)) [
        | none ↦ none
        | some p ↦ elim rest [ none ↦ none | some ps ↦ some (p ∷ ps) ]
      ]

  abbrev pub states_in : Option Items → Option (List (String × List String))
  states_in none = none
  states_in (some xs) = all_states xs

  -- The loop of `KeyStates`.
  unfoldable pub states_for : String → List (String × List String) → List String
  states_for minion_id [] = []
  states_for minion_id ((id, ss) ∷ ps) =
      let rest = states_for minion_id ps in if str_eq id minion_id then ss ++ rest else rest

  unfoldable pub key_states : String → Call (List String)
  key_states minion_id = do
    body ←
        posted net c "key_state"
          (rpc "minions" "get_minion_key_state" (member "minion_id" (string minion_id) no_members))
    within "key_state" (result (check_body_error net body))
    ps ← expect "key_state" (states_in (ret_results (parsed_members net c (net.parse body))))
    give (states_for minion_id ps)
