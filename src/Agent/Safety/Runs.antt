-- ===== src/Agent/Safety/Runs.antt =====
-- Every run from `setup` is safe: whatever the client sends, whatever the agents answer.
use tartarus_nix.Base.{
  ◌||◌, false, ℕ, ◌≡◌, refl, inl, inr, Option, none, some, List, [], ◌∷◌, Bytes, Text, Dict, get,
  put, get-put, arith, ◌==◌, ==_iff, true, ◌⊎◌, Bool-cases, bytes_eq, bytes_eq_iff,
}
use mathlib.Core.Path.{subst}
use tartarus_nix.Agent.Offers.{Entry, key-inj}
use tartarus_nix.Base.Effects.Keeps.{Keeps, Keeps-cases, Keeps-then, Keeps-if, Keeps-pure}
use tartarus_nix.Agent.Wire.{
  request_identities, add_identity, add_id_constrained, remove_identity, remove_all_identities,
  sign_request,
}
use tartarus_nix.Agent.Rules.{KeyConfig, Rule, match_rule}
use tartarus_nix.Agent.State.{World, Config}
use tartarus_nix.Agent.Identities.{governing_rule}
use tartarus_nix.Agent.Loop.{dispatch, serve, setup, rule_keys, with_rule, Pre}
use tartarus_nix.Agent.Safety.{Safe, AllJustified, IsSignRequest, IsMutation, IsPlain}
use tartarus_nix.Agent.Safety.Steps.{IsSafe, refuse-Safe}
use tartarus_nix.Agent.Safety.Handlers.{handle_identities-Safe, handle_extension-Safe}
use tartarus_nix.Agent.Safety.Mutations.{handle_add-Safe, handle_remove-Safe}
use tartarus_nix.Agent.Safety.Signing.{handle_sign_request-Safe}

signs_not : (t : ℕ) (body : Bytes) → (t == sign_request) ≡ false → ¬ IsSignRequest (t ∷ body)
signs_not t body e s = absurd (ground (arith, e, s))

signs_only : (t : ℕ) (body : Bytes) → t ≡ sign_request → ¬ IsMutation (t ∷ body)
signs_only t body e (inl m) = absurd (ground (arith, e, m))
signs_only t body e (inr (inl m)) = absurd (ground (arith, e, m))
signs_only t body e (inr (inr m)) = absurd (ground (arith, e, m))

asks-IsPlain : (t : ℕ) (body : Bytes) → t ≡ request_identities → IsPlain (t ∷ body)
asks-IsPlain t body e = ((λ s. absurd (ground (arith, e, s))), asks_mutation t body e)
  where
    asks_mutation : (t : ℕ) (body : Bytes) → t ≡ request_identities → ¬ IsMutation (t ∷ body)
    asks_mutation t body e (inl m) = absurd (ground (arith, e, m))
    asks_mutation t body e (inr (inl m)) = absurd (ground (arith, e, m))
    asks_mutation t body e (inr (inr m)) = absurd (ground (arith, e, m))

module _ (w : World) (cfg : Config) (identity listener : Option Text) (agents : List Text) where
  dispatch-Safe :
      (mtype : ℕ) (body : Bytes)
      → Keeps (IsSafe w cfg identity listener) (dispatch w cfg agents mtype (mtype ∷ body))
  unfolding dispatch
  dispatch-Safe mtype body =
      Keeps-cases (mtype == request_identities) _ _
        (λ e.
          handle_identities-Safe w cfg identity listener agents (mtype ∷ body)
            (asks-IsPlain mtype body ((==_iff mtype request_identities).0 e)))
        λ _.
          Keeps-cases (mtype == sign_request) _ _
            (λ e.
              handle_sign_request-Safe w cfg identity listener agents (mtype ∷ body)
                (signs_only mtype body ((==_iff mtype sign_request).0 e)))
            λ s.
              let other = signs_not mtype body s in
              Keeps-cases (mtype == add_identity || mtype == add_id_constrained) _ _
                (λ e. handle_add-Safe w cfg identity listener agents (mtype ∷ body) other e)
                λ _.
                  Keeps-cases (mtype == remove_identity || mtype == remove_all_identities) _ _
                    (λ e. handle_remove-Safe w cfg identity listener agents mtype body other e)
                    λ _.
                      Keeps-if _ _ _ (handle_extension-Safe w cfg identity listener (mtype ∷ body))
                        (refuse-Safe w cfg identity listener _)

  serve-Safe :
      (msgs : List Bytes) → Keeps (IsSafe w cfg identity listener) (serve w cfg agents msgs)
  unfolding serve
  serve-Safe [] = Keeps-pure tt
  serve-Safe ([] ∷ later) = Keeps-pure tt
  serve-Safe ((mtype ∷ body) ∷ later) = Keeps-then _ _ (dispatch-Safe mtype body) (serve-Safe later)

module _ (cfg : Config) (identity listener : Option Text) where
  abbrev Ruled : Pre → Type 0
  Ruled pre =
      (blob : Bytes) (k : KeyConfig)
      → get pre.allowed blob ≡ some k
      → get pre.governed blob ≡ some (governing_rule cfg identity listener k.id)

  with_rule-Ruled :
      (blob : Bytes) (k : KeyConfig) (o : Option Rule) (pre : Pre)
      → match_rule cfg.rules k.id identity listener ≡ o
      → Ruled pre
      → Ruled (with_rule blob k o pre)
  unfolding with_rule governing_rule
  with_rule-Ruled blob k none pre e h = h
  with_rule-Ruled blob k (some rule) pre e h = λ b k' found.
      ground (arith, e, h b k', get-put pre.allowed blob b k, get-put pre.governed blob b rule)

  rule_keys-Ruled :
      (keys : Dict KeyConfig) (pre : Pre)
      → Ruled pre
      → Ruled (rule_keys cfg.rules identity listener keys pre)
  unfolding rule_keys
  rule_keys-Ruled [] pre h = h
  rule_keys-Ruled ((blob, k) ∷ keys) pre h =
      rule_keys-Ruled keys _
        (with_rule-Ruled blob k (match_rule cfg.rules k.id identity listener) pre refl h)

  -- What is allowed from the start are entries of the configuration.
  abbrev Listed : Pre → Type 0
  Listed pre =
      (blob : Bytes) (k : KeyConfig) → get pre.allowed blob ≡ some k → Entry blob k cfg.keys

  put-Listed :
      (d : Dict KeyConfig) (blob : Bytes) (k : KeyConfig)
      → Entry blob k cfg.keys
      → ((b : Bytes) (j : KeyConfig) → get d b ≡ some j → Entry b j cfg.keys)
      → (b : Bytes) (j : KeyConfig) → (bytes_eq blob b ≡ true) ⊎ (bytes_eq blob b ≡ false)
      → get (put d blob k) b ≡ some j
      → Entry b j cfg.keys
  put-Listed d blob k now old b j (inl same) e =
      let found : some k ≡ some j = ground (arith, get-put d blob b k) in
      subst (λ x. Entry x j cfg.keys) ((bytes_eq_iff blob b).0 same)
        (subst (λ x. Entry blob x cfg.keys) (key-inj found) now)
  put-Listed d blob k now old b j (inr other) e = old b j (ground (arith, get-put d blob b k))

  with_rule-Listed :
      (blob : Bytes) (k : KeyConfig) (o : Option Rule) (pre : Pre)
      → Entry blob k cfg.keys
      → Listed pre
      → Listed (with_rule blob k o pre)
  unfolding with_rule
  with_rule-Listed blob k none pre now h = h
  with_rule-Listed blob k (some rule) pre now h =
      λ b j found. put-Listed pre.allowed blob k now h b j (Bool-cases (bytes_eq blob b)) found

  rule_keys-Listed :
      (keys : Dict KeyConfig) (pre : Pre)
      → ((b : Bytes) (j : KeyConfig) → Entry b j keys → Entry b j cfg.keys)
      → Listed pre
      → Listed (rule_keys cfg.rules identity listener keys pre)
  unfolding rule_keys
  rule_keys-Listed [] pre within h = h
  rule_keys-Listed ((blob, k) ∷ keys) pre within h =
      rule_keys-Listed keys _ (λ b j e. within b j (inr e))
        (with_rule-Listed blob k (match_rule cfg.rules k.id identity listener) pre
          (within blob k (inl (refl, refl))) h)

  none-Listed : Listed (record { allowed = []; governed = []; sockets = [] })
  unfolding get
  none-Listed b j e = absurd (cc)

  setup-Safe : (w : World) → Safe w cfg identity listener (setup cfg identity listener).0
  unfolding setup
  setup-Safe w = record {
    who = refl;
    whence = refl;
    governed = rule_keys-Ruled cfg.keys _ (unfold get in λ blob k e. absurd (cc));
    upstreams = refl;
    known = λ blob k found. inl (rule_keys-Listed cfg.keys _ (λ b j e. e) none-Listed blob k found);
    bound = unfold get in λ s t e. absurd (cc);
    justified = tt;
  }

-- In every run of a connection, whatever the client sends and whatever the agents and the user
-- answer: each sign request that reaches an agent is for a key whose entry, that is, its id and its
-- fingerprint, is the configuration's, or, where the configuration does not name the key, is made of
-- the comment under which an upstream agent of the configuration listed this key before; the rule that
-- governs that id does not deny this use; the rule allows it, or the user has just confirmed that use of
-- that key and nothing but this request was sent to agents since; and where the rule lists
-- host keys, an authentication is for a session whose host key signed it and is trusted by the list.
-- And each request to add or to remove keys that reaches an agent is allowed by the rule that governs
-- the key it names, or the pattern `*` where it removes all, or the user has just confirmed it.
pub serve_justified :
    (w : World) (cfg : Config) (identity listener : Option Text) (agents : List Text)
    (msgs : List Bytes)
    → AllJustified w cfg identity listener
        (serve w cfg agents msgs (setup cfg identity listener).0).1.trace
serve_justified w cfg identity listener agents msgs =
    ((serve-Safe w cfg identity listener agents msgs).at _
      (setup-Safe cfg identity listener w)).justified
