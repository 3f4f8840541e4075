-- ===== src/Agent/Safety/Mutations.antt =====
-- The handlers that add and remove keys ask an agent only for what is justified.
use tartarus_nix.Base.{
  arith, ==_iff, if◌then◌else◌, ◌≡◌, ◌⊎◌, inl, inr, refl, ◌||◌, codes, ℕ, Bool, true, false, Option,
  none, some, List, ◌∷◌, Bytes, Text, ◌==◌,
}
use tartarus_nix.Base.Effects.{lift, pure, ◌>>=◌}
use tartarus_nix.Base.Effects.Keeps.{
  Keeps, Keeps-pure, Keeps-bind, Keeps-if, Keeps-then, Keeps-raise, Keeps-cases,
}
use tartarus_nix.Agent.Wire.{remove_identity, remove_all_identities}
use tartarus_nix.Agent.Purpose.{shown}
use tartarus_nix.Agent.Rules.{Policy, deny, ask, allow}
use tartarus_nix.Agent.State.{
  World, Config, Conn, Prompt, mutation_done, mutation_refused, Event, notify, request, confirm,
  answered, add_key, remove_key, remove_all,
}
use tartarus_nix.Agent.Identities.{governing_rule, text_or}
use tartarus_nix.Agent.Sign.{authorize, refuse}
use tartarus_nix.Agent.Mutation.{
  relay_mutation, forward_to, forward_mutation, mutate, mutation_target, add_names, remove_id,
  add_known, handle_add, remove_one, removed_blob, remove_every, handle_remove, PublicKey,
  public_blob_from_private,
}
use tartarus_nix.Agent.Safety.{
  Safe, Due, IsSignRequest, IsAdd, IsRemoveOne, IsRemoveAll, MutationJustified, JustConfirmed,
}
use tartarus_nix.Agent.Safety.Steps.{
  IsSafe, send-Safe, send_failure-Safe, notify-Safe, refuse-Safe, request-Safe_justified,
  with_event,
}

module _ (w : World) (cfg : Config) (identity listener : Option Text) where
  relay_mutation-Safe :
      (o : Option Bytes) → Keeps (IsSafe w cfg identity listener) (relay_mutation o)
  unfolding relay_mutation
  relay_mutation-Safe none =
      Keeps-then _ _ (send_failure-Safe w cfg identity listener) (Keeps-pure _)
  relay_mutation-Safe (some r) = Keeps-then _ _ (send-Safe w cfg identity listener r) (Keeps-pure _)

  module _ (raw_msg : Bytes) (notifies : Bool) (prompt : Prompt) where
    told-Safe :
        (ok : Bool)
        → Keeps (IsSafe w cfg identity listener) (
            if ok
            then (if notifies then notify false (mutation_done prompt) else pure tt)
            else pure tt)
    told-Safe ok =
        Keeps-if ok _ _
          (Keeps-if notifies _ _ (notify-Safe w cfg identity listener false _) (Keeps-pure tt))
          (Keeps-pure tt)

    -- The mutation goes to the agent in a connection where it is due.
    forwarded-Safe :
        (target : Option Text) (c : Conn)
        → Due w cfg identity listener raw_msg c.trace
        → Safe w cfg identity listener c
        → Safe w cfg identity listener
            ((forward_to w raw_msg target >>= λ ok.
                if ok
                then (if notifies then notify false (mutation_done prompt) else pure tt)
                else pure tt)
              c).1
    unfolding forward_to request
    forwarded-Safe none c due h =
        (Keeps-bind {P = IsSafe w cfg identity listener} (relay_mutation none) _
            (relay_mutation-Safe none) told-Safe).at
          c h
    forwarded-Safe (some target) c due h =
        (Keeps-bind {P = IsSafe w cfg identity listener}
            (relay_mutation (w.request c.trace target raw_msg)) _ (relay_mutation-Safe _)
            told-Safe).at
          _ (request-Safe_justified w cfg identity listener target raw_msg c due h)

    abbrev Why : Policy → Type 0
    Why p =
        (t : List Event)
        → (p ≡ allow) ⊎ JustConfirmed prompt raw_msg t
        → MutationJustified w cfg identity listener raw_msg t

    mutate_answered-Safe :
        (agents : List Text) (o : Option Bool) (c : Conn)
        → ¬ IsSignRequest raw_msg
        → Why ask
        → Safe w cfg identity listener c
        → Safe w cfg identity listener
            ((answered prompt o >>= λ authorized.
                if authorized
                then (do
                  ok ← forward_mutation w cfg agents raw_msg
                  if ok
                      then (if notifies then notify false (mutation_done prompt) else pure tt)
                      else pure tt)
                else refuse (mutation_refused prompt))
              c).1
    unfolding answered forward_mutation
    mutate_answered-Safe agents none c other why h = h
    mutate_answered-Safe agents (some true) c other why h =
        forwarded-Safe (mutation_target cfg.upstream_order agents) _
          ((λ s. absurd (other s)), (λ m. why _ (inr (refl, refl))))
          (with_event w cfg identity listener c _ h.justified h)
    mutate_answered-Safe agents (some false) c other why h =
        (refuse-Safe w cfg identity listener _).at _
          (with_event w cfg identity listener c _ h.justified h)

    mutate-Safe :
        (agents : List Text) (p : Policy) (c : Conn)
        → ¬ IsSignRequest raw_msg
        → Why p
        → Safe w cfg identity listener c
        → Safe w cfg identity listener (mutate w cfg agents raw_msg p notifies prompt c).1
    unfolding mutate authorize confirm forward_mutation
    mutate-Safe agents deny c other why h = (refuse-Safe w cfg identity listener _).at c h
    mutate-Safe agents allow c other why h =
        forwarded-Safe (mutation_target cfg.upstream_order agents) c
          ((λ s. absurd (other s)), (λ m. why _ (inl refl))) h
    mutate-Safe agents ask c other why h =
        mutate_answered-Safe agents (w.confirm c.trace prompt) c other why h

  module _ (agents : List Text) (raw_msg : Bytes) (other : ¬ IsSignRequest raw_msg) where
    add_known-Safe :
        (key : PublicKey)
        → IsAdd raw_msg
        → public_blob_from_private raw_msg ≡ some key
        → Keeps (IsSafe w cfg identity listener) (add_known w cfg agents raw_msg key)
    unfolding add_known
    add_known-Safe key adds parsed = record {
      at = λ c h.
          mutate-Safe raw_msg _ _ agents _ c other
            (λ t consent. record {
              key_id = (add_names w cfg key).0;
              rule = governing_rule cfg c.vm_identity c.listener_name (add_names w cfg key).0;
              policy =
                  (governing_rule cfg c.vm_identity c.listener_name (add_names w cfg key).0).add;
              prompt =
                  add_key (shown w 64 (add_names w cfg key).0)
                    (text_or key.key_type (codes "unknown")) (add_names w cfg key).1;
              governs = rw (h.who, h.whence) refl;
              about = inl (adds, (key, parsed, refl, refl, refl));
              consent = consent;
            })
            h;
    }

    add_parsed-Safe :
        (o : Option PublicKey)
        → IsAdd raw_msg
        → public_blob_from_private raw_msg ≡ o
        → Keeps
            (IsSafe w cfg identity listener)
            (do key ← lift o; add_known w cfg agents raw_msg key)
    add_parsed-Safe none adds e = Keeps-raise
    add_parsed-Safe (some key) adds e = record { at = λ c h. (add_known-Safe key adds e).at c h }

    pub handle_add-Safe :
        IsAdd raw_msg → Keeps (IsSafe w cfg identity listener) (handle_add w cfg agents raw_msg)
    unfolding handle_add
    handle_add-Safe adds = add_parsed-Safe _ adds refl

    remove_one-Safe :
        (o : Option Bytes)
        → IsRemoveOne raw_msg
        → removed_blob raw_msg ≡ o
        → Keeps (IsSafe w cfg identity listener) (remove_one w cfg agents raw_msg o)
    unfolding remove_one
    remove_one-Safe none removes e = record {
      at = λ c h. (send_failure-Safe w cfg identity listener).at c h;
    }
    remove_one-Safe (some blob) removes e = record {
      at = λ c h.
          mutate-Safe raw_msg _ _ agents _ c other
            (λ t consent. record {
              key_id = remove_id w cfg blob;
              rule = governing_rule cfg c.vm_identity c.listener_name (remove_id w cfg blob);
              policy =
                  (governing_rule cfg c.vm_identity c.listener_name (remove_id w cfg blob)).remove;
              prompt = remove_key (shown w 64 (remove_id w cfg blob));
              governs = rw (h.who, h.whence) refl;
              about = inr (inl (removes, (blob, e, refl, refl, refl)));
              consent = consent;
            })
            h;
    }

    remove_every-Safe :
        IsRemoveAll raw_msg
        → Keeps (IsSafe w cfg identity listener) (remove_every w cfg agents raw_msg)
    unfolding remove_every
    remove_every-Safe removes = record {
      at = λ c h.
          mutate-Safe raw_msg _ _ agents _ c other
            (λ t consent. record {
              key_id = codes "*";
              rule = governing_rule cfg c.vm_identity c.listener_name (codes "*");
              policy = (governing_rule cfg c.vm_identity c.listener_name (codes "*")).remove;
              prompt = remove_all;
              governs = rw (h.who, h.whence) refl;
              about = inr (inr (removes, refl, refl, refl));
              consent = consent;
            })
            h;
    }

  pub handle_remove-Safe :
      (agents : List Text) (t : ℕ) (body : Bytes)
      → ¬ IsSignRequest (t ∷ body)
      → (t == remove_identity || t == remove_all_identities) ≡ true
      → Keeps (IsSafe w cfg identity listener) (handle_remove w cfg agents (t ∷ body))
  unfolding handle_remove
  handle_remove-Safe agents t body other removes =
      Keeps-cases (t == remove_all_identities) _ _
        (λ all. remove_every-Safe agents (t ∷ body) other ((==_iff t remove_all_identities).0 all))
        (λ one.
          remove_one-Safe agents (t ∷ body) other _
            ((==_iff t remove_identity).0 (ground (arith, one))) refl)
