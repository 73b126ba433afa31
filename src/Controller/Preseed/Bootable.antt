-- ===== src/Controller/Preseed/Bootable.antt =====
-- The bootstrap Secret that a preseeded machine boots from, under the client of pkg/salt.
use vcf_salt_operator.Prelude.{
  ℕ, String, Bool, false, ◌≡◌, refl, [], ◌∷◌, str_eq, Option, none, some, if◌then◌else◌, Bool-cases,
  inl, inr,
}
use vcf_salt_operator.Prelude.Int.{ℤ}
use vcf_salt_operator.Prelude.Dict.{Dict, get}
use vcf_salt_operator.Kube.Error.{Error, ok}
use vcf_salt_operator.Raasconn.{Connection}
use vcf_salt_operator.Salt.Client.{KeyPair, Net, Session, new_raas_client}
use vcf_salt_operator.Salt.Client.Wheel.{gen_accept_key, master_public_key}
use vcf_salt_operator.Controller.Names.{
  annotation_key_status, key_status_preseeded, annotation_minion_id, annotation_match_method,
  match_method_preseed,
}
use vcf_salt_operator.Controller.World.{World, Env, Bootstrap, EventType, normal}
use vcf_salt_operator.Controller.Run.{
  done, try_write, ticked, of_error, return, wrapped_error, ask, record_event, patch_annotations,
  write, add_finalizer, with_finalizer, requeue, ◌>>◌,
}
use vcf_salt_operator.Controller.Run.Keeps.{
  Keeps, IsStable, keeps_rules, Keeps-ask, Keeps-record_event, Keeps-try_write, Keeps-bind,
  Keeps-of_error,
}
use vcf_salt_operator.Controller.Run.Leads.{Leads, Ends, Leads-bind, Leads-give}
use vcf_salt_operator.Controller.Preseed.{write_bootstrap_secret, with_secret, exists_already}

-- The answers about keys come from calls of the client, on whatever session and with whatever the
-- server answers.
pub record UsesClient (env : Env) (c : Connection) (id : String) : Type 0 where
  pub generates :
      (t : ℕ) (force : Bool) (pair : KeyPair)
      → env.gen_accept_key t c id force ≡ ok (some pair)
      → (net : Net) × ((fuel : ℕ) × ((s : Session) × ((s' : Session) × (gen_accept_key net
                  (new_raas_client c)
                  fuel
                  id
                  force
                  s
                ≡ (ok (some (some pair)), s')))))
  pub reads :
      (t : ℕ) (key : String)
      → env.master_public_key t c ≡ ok key
      → (net : Net) × ((fuel : ℕ) × ((s : Session) × ((s' : Session) × (master_public_key net
                  (new_raas_client c)
                  fuel
                  s
                ≡ (ok (some key), s')))))

-- The Secret has both keys of a pair that the master generated for its minion, each in its place, and
-- the key that the master gave as its own, and none of them is empty.
pub record HasKeys (env : Env) (c : Connection) (b : Bootstrap) : Type 0 where
  pub private_key : str_eq b.minion_pem "" ≡ false
  pub public_key : str_eq b.minion_pub "" ≡ false
  pub master_key : str_eq b.minion_master_pub "" ≡ false
  pub of_minion :
      (t : ℕ) × ((force : Bool) × ((pair : KeyPair) × ((env.gen_accept_key t c b.minion_id force
              ≡ ok (some pair))
            × ((b.minion_pem ≡ pair.priv_key) × (b.minion_pub ≡ pair.pub_key)))))
  pub of_master : (t : ℕ) × (env.master_public_key t c ≡ ok b.minion_master_pub)

-- The machine has a Secret with all keys, for the minion that is named like it.
pub record Bootable (env : Env) (c : Connection) (id : String) (w : World) : Type 0 where
  pub named : w.vm.name ≡ id
  pub boots : (b : Bootstrap) × ((w.secret ≡ some b) × (HasKeys env c b × (b.minion_id ≡ id)))

-- A machine that is marked as preseeded has such a Secret.
pub record Marked (env : Env) (c : Connection) (id : String) (w : World) : Type 0 where
  pub is_named : w.vm.name ≡ id
  pub marked :
      get annotation_key_status w.vm.annotations ≡ key_status_preseeded
      → (b : Bootstrap) × ((w.secret ≡ some b) × (HasKeys env c b × (b.minion_id ≡ id)))

pub Bootable-Marked :
    (env : Env) (c : Connection) (id : String) (w : World) → Bootable env c id w → Marked env c id w
Bootable-Marked env c id w h = record { is_named = h.named; marked = λ e. h.boots }

Bootable-stable : (env : Env) (c : Connection) (id : String) → IsStable (Bootable env c id)
Bootable-stable env c id = record {
  tick = λ w h. record { named = h.named; boots = h.boots };
  on_event = λ k r w h. record { named = h.named; boots = h.boots };
  on_entries = λ e w h. record { named = h.named; boots = h.boots };
}

pub Marked-stable : (env : Env) (c : Connection) (id : String) → IsStable (Marked env c id)
Marked-stable env c id = record {
  tick = λ w h. record { is_named = h.is_named; marked = h.marked };
  on_event = λ k r w h. record { is_named = h.is_named; marked = h.marked };
  on_entries = λ e w h. record { is_named = h.is_named; marked = h.marked };
}

-- What a write of the Secret leaves, by its error.
abbrev Written : Env → Connection → String → Option Error → World → Type 0
Written env c id none w = Bootable env c id w
Written env c id (some e) w = Marked env c id w

module _ (env : Env) (c : Connection) (id : String) where
  try_secret-Written :
      (b : Bootstrap)
      → HasKeys env c b
      → b.minion_id ≡ id
      → Leads
          (Marked env c id)
          (Written env c id)
          (Marked env c id)
          (try_write env (with_secret env b))
  unfolding try_write
  try_secret-Written b k n = record { from = λ w h. go (env.write_error w.tick) w h }
    where
      go :
          (o : Option Error) (w : World)
          → Marked env c id w
          → Ends {A = Option Error} (Written env c id) (Marked env c id) (elim o [
            | none ↦ done none (with_secret env b (ticked w))
            | some e ↦ done (some e) (ticked w)
          ])
      go none w h = record { named = h.is_named; boots = (b, (refl, (k, n))) }
      go (some e) w h = (Marked-stable env c id).tick w h

  second_try-Written :
      (b : Bootstrap) (created : Option Error)
      → HasKeys env c b
      → b.minion_id ≡ id
      → Leads
          (Written env c id created)
          (Written env c id)
          (Marked env c id)
          (if exists_already env created then try_write env (with_secret env b) else return created)
  second_try-Written b none k n = Leads-give (Marked env c id) none (λ w h. h)
  second_try-Written b (some e) k n = elim (Bool-cases (exists_already env (some e))) [
    | inl y ↦ rw y (try_secret-Written b k n)
    | inr o ↦ rw o (Leads-give (Marked env c id) (some e) (λ w h. h))
  ]

  of_error-Bootable :
      (label : String) (written : Option Error)
      → Leads
          (Written env c id written)
          (λ _. Bootable env c id)
          (Marked env c id)
          (of_error (wrapped_error label written))
  unfolding of_error
  of_error-Bootable label none = record { from = λ w h. h }
  of_error-Bootable label (some e) = record { from = λ w h. h }

  pub write_bootstrap_secret-Bootable :
      (b : Bootstrap)
      → HasKeys env c b
      → b.minion_id ≡ id
      → Leads
          (Marked env c id)
          (λ _. Bootable env c id)
          (Marked env c id)
          (write_bootstrap_secret env b)
  unfolding write_bootstrap_secret
  write_bootstrap_secret-Bootable b k n = Leads-bind _ _ (try_secret-Written b k n) λ created.
      Leads-bind _ _ (second_try-Written b created k n) λ written. of_error-Bootable _ written

  pub ask-Marked : {A : Type 0} (f : ℕ → A) → Keeps (Marked env c id) (ask f)
  ask-Marked f = Keeps-ask (Marked-stable env c id) f

  pub record_event-Marked :
      (k : EventType) (r : String) → Keeps (Marked env c id) (record_event k r)
  record_event-Marked k r = Keeps-record_event (Marked-stable env c id) k r

  record_event-Bootable :
      (k : EventType) (r : String) → Keeps (Bootable env c id) (record_event k r)
  record_event-Bootable k r = Keeps-record_event (Bootable-stable env c id) k r

  patch_annotations-Bootable :
      (a : Dict String) → Keeps (Bootable env c id) (patch_annotations env a)
  unfolding patch_annotations write
  patch_annotations-Bootable a =
      Keeps-bind _ _
        (Keeps-try_write (Bootable-stable env c id) env _
          (λ w h. record { named = h.named; boots = h.boots }))
        (λ o. Keeps-of_error o)

  try_finalizer-Bootable : Keeps (Bootable env c id) (try_write env (with_finalizer env))
  try_finalizer-Bootable =
      Keeps-try_write (Bootable-stable env c id) env (with_finalizer env)
        (λ w h. record { named = h.named; boots = h.boots })

  add_finalizer-Bootable : Keeps (Bootable env c id) (add_finalizer env)
  unfolding add_finalizer
  add_finalizer-Bootable = search (keeps_rules, try_finalizer-Bootable) depth 9

  -- The writes behind the one of the Secret.
  pub marked_after :
      (r : ℤ)
      → Keeps (Bootable env c id) (do
        add_finalizer env
        patch_annotations env (
            (annotation_key_status, key_status_preseeded)
            ∷ (annotation_minion_id, id)
            ∷ (annotation_match_method, match_method_preseed)
            ∷ [])
        record_event normal "SaltKeyPreseeded"
        requeue r)
  marked_after r =
      search
        (keeps_rules, add_finalizer-Bootable, patch_annotations-Bootable, record_event-Bootable)
        depth 9
