-- ===== src/Salt/Client/Wheel.antt =====
-- pkg/salt/client.go, jobs on the master: the generation of a key pair and the master's public key.
use vcf_salt_operator.Prelude.{
  ℕ, zero, suc, String, Bool, true, false, not, ◌&&◌, ◌||◌, Option, none, some, str_eq, ◌==◌,
  if◌then◌else◌,
}
use vcf_salt_operator.Prelude.Lists.{codes}
use vcf_salt_operator.Kube.Error.{Result, ok, err, failure}
use vcf_salt_operator.Salt.Unicode.{Unicode, equal_fold}
use vcf_salt_operator.Salt.Json.{
  Json, Items, Members, string, array, boolean, no_members, member, no_items, item, get_member,
  read_members, read_text, read_bool, tagged, has_infix, size,
}
use vcf_salt_operator.Salt.Client.{
  KeyPair, Net, RaasClient, Call, give, refuse, result, session, set_master_pub, wait, ◌>>=◌, ◌>>◌,
}
use vcf_salt_operator.Salt.Client.Transport.{posted, rpc, parsed_members}
use vcf_salt_operator.Salt.Client.Jobs.{ret_of, job_arg, is_object}

-- A field of a struct that keeps its document as it is: missing is not `null`.
abbrev pub tagged_raw : Unicode → String → Members → Option Json
tagged_raw u k no_members = none
tagged_raw u k (member j v m) =
    let rest = tagged_raw u k m in if equal_fold u (codes j) (codes k) then some v else rest

-- A round of the wait for a job: its result, or not yet.
abbrev pub finished_job : Option Bool → Option Json → Result (Option (Option Json))
finished_job none returned = err (failure "get_jid: parse result")
finished_job (some false) returned = err (failure "failed on master")
finished_job (some true) returned = ok (some returned)

module _ (net : Net) (c : RaasClient) where
  abbrev pub result_members : Option Members → Result (Option (Option Json))
  result_members none = err (failure "get_jid: parse result")
  result_members (some m) =
      finished_job (read_bool (tagged net.unicode "success" m)) (tagged_raw net.unicode "return" m)

  abbrev pub master_result : Option Json → Result (Option (Option Json))
  master_result none = ok none
  master_result (some raw) = result_members (read_members raw)

  abbrev pub round_of : Option Members → Result (Option (Option Json))
  round_of none = err (failure "get_jid: parse response")
  round_of (some m) = elim (read_members (tagged net.unicode "error" m)) [
    | none ↦ err (failure "get_jid: parse response")
    | some _ ↦ elim (read_members (tagged net.unicode "ret" m)) [
      | none ↦ err (failure "get_jid: parse response")
      | some ret ↦
          if is_object (tagged net.unicode "error" m)
          then err (failure "get_jid: API error")
          else master_result (get_member c.master_id ret)
    ]
  ]

  -- The loop of `wheel`: `none` where the fuel runs out, and the document of the return, if any.
  unfoldable pub await_master : ℕ → String → Call (Option (Option Json))
  await_master zero jid = give none
  await_master (suc fuel) jid = do
    body ← posted net c "get_jid" (rpc "ret" "get_jid" (member "jid" (string jid) no_members))
    round ← result (round_of (parsed_members net c (net.parse body)))
    elim round [
      | some returned ↦ give (some returned)
      | none ↦ wait net >>= λ over. elim over [
        | true ↦ refuse (failure "timed out waiting for result")
        | false ↦ await_master fuel jid
      ]
    ]

  abbrev pub wheel_members : String → Items → Members → Members
  wheel_members fun args kwarg = member "cmd" (string "wheel") (
      member "fun" (string fun) (
        member "masters" (array (item (string c.master_id) no_items))
          (member "arg" (job_arg net c args kwarg) no_members)))

  unfoldable pub wheel : ℕ → String → Items → Members → Call (Option (Option Json))
  wheel fuel fun args kwarg = do
    body ← posted net c "route_cmd" (rpc "cmd" "route_cmd" (wheel_members fun args kwarg))
    jid ← ret_of net c "route_cmd" body
    await_master fuel jid

  -- `json.Unmarshal` of a return that may be missing, into a struct.
  abbrev pub return_members : Option Json → Option Members
  return_members none = none
  return_members (some v) = read_members v

  abbrev pub pair_of : Option Members → Option KeyPair
  pair_of none = none
  pair_of (some m) = elim (read_text (tagged net.unicode "pub" m)) [
    | none ↦ none
    | some public ↦ elim (read_text (tagged net.unicode "priv" m)) [
      | none ↦ none
      | some private ↦ some (record { pub_key = public; priv_key = private })
    ]
  ]

  -- The three ends of `GenAcceptKey`.
  abbrev pub checked_pair : KeyPair → Result (Option KeyPair)
  checked_pair p =
      if str_eq p.pub_key "" && str_eq p.priv_key ""
      then ok none
      else if str_eq p.pub_key "" || str_eq p.priv_key ""
      then err (failure "key.gen_accept: incomplete key pair returned")
      else ok (some p)

  abbrev pub generated_pair : Option Json → Result (Option KeyPair)
  generated_pair returned = elim (pair_of (return_members returned)) [
    | none ↦ err (failure "key.gen_accept: unexpected return shape")
    | some p ↦ checked_pair p
  ]

  abbrev pub of_fuel : {A : Type 0} → Result A → Result (Option A)
  of_fuel (ok a) = ok (some a)
  of_fuel (err e) = err e

  -- The inner option is the code's: no pair where the master has a key of the name.
  unfoldable pub gen_accept_key : ℕ → String → Bool → Call (Option (Option KeyPair))
  gen_accept_key fuel minion_id force = do
    returned ←
        wheel fuel "key.gen_accept" (item (string minion_id) no_items)
          (member "force" (boolean force) no_members)
    elim returned [ none ↦ give none | some v ↦ result (of_fuel (generated_pair v)) ]

  -- A map of texts: `none` if a value is no text.
  abbrev pub all_texts : Members → Bool
  all_texts no_members = true
  all_texts (member k v m) = elim (read_text v) [ none ↦ false | some s ↦ all_texts m ]

  abbrev pub first_text : Members → String
  first_text no_members = ""
  first_text (member k v m) = elim (read_text v) [ none ↦ "" | some s ↦ s ]

  abbrev pub local_key : Option Members → Result String
  local_key none = err (failure "key.master_key_str: parse return")
  local_key (some m) =
      if not (all_texts m)
      then err (failure "key.master_key_str: parse return")
      else if not (size m == 1)
      then err (failure "key.master_key_str: expected one master key")
      else if not (has_infix (codes (first_text m)) (codes "PUBLIC KEY"))
      then err (failure "key.master_key_str: return is not a public key")
      else ok (first_text m)

  abbrev pub master_key_in : Option Members → Result String
  master_key_in none = err (failure "key.master_key_str: parse return")
  master_key_in (some m) = local_key (read_members (tagged net.unicode "local" m))

  unfoldable pub fetch_master_key : ℕ → Call (Option String)
  fetch_master_key fuel = do
    returned ← wheel fuel "key.master_key_str" no_items no_members
    elim returned [
      | none ↦ give none
      | some v ↦
          result (master_key_in (return_members v)) >>= λ key. set_master_pub key >> give (some key)
    ]

  -- `MasterPublicKey`, which asks the master once.
  unfoldable pub master_public_key : ℕ → Call (Option String)
  master_public_key fuel = do
    s ← session
    if str_eq s.master_pub "" then fetch_master_key fuel else give (some s.master_pub)
