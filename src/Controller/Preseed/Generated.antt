-- ===== src/Controller/Preseed/Generated.antt =====
-- The generation of a key for a machine, from the answers of the client to the write of the Secret.
use vcf_salt_operator.Prelude.{
  ℕ, String, Bool, ◌≡◌, refl, Option, none, some, if◌then◌else◌, [], ◌∷◌, eq_iff, arith,
}
use vcf_salt_operator.Controller.Names.{
  annotation_key_status, key_status_failed, key_status_preseeded,
}
use vcf_salt_operator.Prelude.Int.{ℤ}
use vcf_salt_operator.Kube.{Vm}
use vcf_salt_operator.Kube.Error.{Result, ok}
use vcf_salt_operator.Raasconn.{Connection}
use vcf_salt_operator.Salt.Client.{KeyPair}
use vcf_salt_operator.Salt.Client.Answers.{gen_accept_key-IsComplete, master_public_key_set}
use vcf_salt_operator.Controller.World.{World, Env, Effect}
use vcf_salt_operator.Controller.Run.{
  M, ◌>>=◌, note, throw, with_annotations, patch_annotations, write, requeue, with_option,
}
use vcf_salt_operator.Controller.Run.Keeps.{Keeps, keeps_rules, end, Keeps-try_write}
use vcf_salt_operator.Controller.Run.Leads.{
  Leads, Leads-bind, Leads-Keeps, Leads-ask, Leads-give, Leads-given, Leads-answer, Leads-weaken,
  Ends-end,
}
use vcf_salt_operator.Controller.Preseed.{
  generate_key, write_bootstrap_secret, run_preseed_key, refuse_minion_id, minion_id_owner,
  require_pair, bootstrap, needs_force,
}
use vcf_salt_operator.Controller.Preseed.Bootable.{
  UsesClient, HasKeys, Bootable, Marked, Bootable-Marked, Marked-stable, ask-Marked,
  record_event-Marked, write_bootstrap_secret-Bootable, marked_after,
}

-- A value that some call of the outside answered.
abbrev Known : {A : Type 0} → (ℕ → Result A) → A → Type 0
Known f a = (t : ℕ) × (f t ≡ ok a)

module _ (env : Env) (c : Connection) (id : String) where
  note-Marked : (e : Effect) → Keeps (Marked env c id) (note e)
  unfolding note
  note-Marked e = record { at = λ w h. record { is_named = h.is_named; marked = h.marked } }

  kept :
      {A : Type 0} (m : M A)
      → Keeps (Marked env c id) m
      → Leads (Marked env c id) (λ _. Marked env c id) (Marked env c id) m
  kept m k = Leads-Keeps (Marked env c id) m (λ w h. h) k

  require_pair-Known :
      (f : ℕ → Result (Option KeyPair)) (o : Option KeyPair)
      → Leads
          (λ w. Marked env c id w × Known f o)
          (λ p w. Marked env c id w × Known f (some p))
          (Marked env c id)
          (require_pair env o)
  unfolding throw
  require_pair-Known f none = record { from = λ w h. h.0 }
  require_pair-Known f (some p) = Leads-give (Marked env c id) p (λ w h. h)

  module _ (client : UsesClient env c id) (r : ℤ) where
    bootstrap-HasKeys :
        (force : Bool) (pair : KeyPair) (key : String)
        → Known (λ t. env.gen_accept_key t c id force) (some pair)
        → Known (λ t. env.master_public_key t c) key
        → HasKeys env c (bootstrap env id pair key)
    bootstrap-HasKeys force pair key (t, e) (t', e') =
        let (net, (fuel, (s, (s', g)))) = client.generates t force pair e in
        let (net', (fuel', (z, (z', k)))) = client.reads t' key e' in
        let complete = gen_accept_key-IsComplete net _ fuel id force s s' pair g in
        record {
          private_key = complete.1;
          public_key = complete.0;
          master_key = master_public_key_set net' _ fuel' z z' key k;
          of_minion = (t, (force, (pair, (e, (refl, refl)))));
          of_master = (t', e');
        }

    -- The Secret and what follows it, with both answers at hand.
    store :
        (force : Bool) (pair : KeyPair) (key : String)
        → Known (λ t. env.gen_accept_key t c id force) (some pair)
        → Known (λ t. env.master_public_key t c) key
        → Leads
            (Marked env c id)
            (λ _. Bootable env c id)
            (Marked env c id)
            (write_bootstrap_secret env (bootstrap env id pair key))
    store force pair key g k =
        write_bootstrap_secret-Bootable env c id (bootstrap env id pair key)
          (bootstrap-HasKeys force pair key g k) refl

    generate_key-Marked :
        Leads (Marked env c id) (λ _. Marked env c id) (Marked env c id) (generate_key env c id r)
    unfolding generate_key
    generate_key-Marked =
        Leads-bind _ _ (kept _ (search (keeps_rules, ask-Marked env c id))) λ answered.
          Leads-bind _ _ (kept _ (search (keeps_rules))) λ states.
            Leads-bind _ _ (kept _ (search (keeps_rules, record_event-Marked env c id))) λ u.
              Leads-bind _ _ (Leads-ask (Marked env c id) (Marked-stable env c id) _) λ generated.
                Leads-bind _ _ (Leads-answer (Marked env c id) _ _ generated (λ w h. h)) λ pair?.
                  Leads-bind _ _ (require_pair-Known _ pair?) λ pair. Leads-given _ λ g.
                    Leads-bind _ _ (kept _ (note-Marked _)) λ u.
                      Leads-bind _ _ (Leads-ask (Marked env c id) (Marked-stable env c id) _)
                        λ master.
                          Leads-bind _ _ (Leads-answer (Marked env c id) _ _ master (λ w h. h))
                            λ key. Leads-given _ λ k.
                              Leads-bind _ _ (store (needs_force env states) pair key g k) λ u.
                                Leads-weaken (Marked env c id) _ (Bootable-Marked env c id)
                                  (marked_after env c id r)

module _ (env : Env) (c : Connection) where
  -- A refused minion ID is marked as failed.
  failed_written :
      (id : String) (w : World)
      → Marked env c id w
      → Marked env c id (with_annotations env ((annotation_key_status, key_status_failed) ∷ []) w)
  failed_written id w h = record { is_named = h.is_named; marked = λ e. absurd (unlike e) }
    where
      unlike : key_status_failed ≡ key_status_preseeded → ⊥
      unlike e = ground (arith, eq_iff key_status_failed key_status_preseeded)

  refuse_minion_id-Marked : (id : String) → Keeps (Marked env c id) (refuse_minion_id env)
  unfolding refuse_minion_id patch_annotations write
  refuse_minion_id-Marked id =
      search
        (keeps_rules, record_event-Marked env c id, Keeps-try_write, Marked-stable, failed_written)
        depth 12

  minion_id_owner-Marked :
      (vm : Vm) (id : String) → Keeps (Marked env c id) (minion_id_owner env vm id)
  unfolding minion_id_owner
  minion_id_owner-Marked vm id = search (keeps_rules, ask-Marked env c id) depth 9

  owner_or_generate :
      (r : ℤ) (vm : Vm)
      → UsesClient env c vm.name
      → Leads
          (Marked env c vm.name)
          (λ _. Marked env c vm.name)
          (Marked env c vm.name)
          (minion_id_owner env vm vm.name >>= λ owner.
            with_option owner
              (generate_key env c vm.name r)
              (λ holder. if holder.deleting then requeue r else refuse_minion_id env))
  owner_or_generate r vm client =
      Leads-bind _ _ (kept env c vm.name _ (minion_id_owner-Marked vm vm.name)) λ owner. next owner
    where
      next :
          (owner : Option Vm)
          → Leads
              (Marked env c vm.name)
              (λ _. Marked env c vm.name)
              (Marked env c vm.name)
              (with_option owner
                (generate_key env c vm.name r)
                (λ holder. if holder.deleting then requeue r else refuse_minion_id env))
      next none = generate_key-Marked env c vm.name client r
      next (some holder) =
          kept env c vm.name _ (search (keeps_rules, refuse_minion_id-Marked) depth 8)

  -- Under the client of pkg/salt, whatever its server answers and whichever write fails, a machine
  -- that is marked as preseeded behind a preseeding has a bootstrap Secret for its own name, with the
  -- private and the public key of one pair that the master generated for that name, each in its
  -- place, and the key of the master, none of them empty, if that held before.
  pub run_preseed_key-Marked :
      (requeue_after : ℤ) (w : World)
      → UsesClient env c w.vm.name
      → Marked env c w.vm.name w
      → Marked env c w.vm.name (end (run_preseed_key env c requeue_after w))
  unfolding run_preseed_key ◌>>=◌
  run_preseed_key-Marked r w client h =
      Ends-end (Marked env c w.vm.name) (run_preseed_key env c r w)
        ((owner_or_generate r w.vm client).from w h)
