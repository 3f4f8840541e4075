-- ===== src/Agent/Safety/Signing.antt =====
-- The handler of sign requests asks an upstream agent only for a justified signature.
use tartarus_nix.Base.{
  ◌≡◌, refl, ◌⊎◌, inl, inr, Bool, true, false, not, ◌&&◌, ◌||◌, Option, none, some, List, [], ◌∷◌,
  Bytes, Text, Dict, get, contains, arith, Bool-cases, Option-cases, ◌==◌,
}
use tartarus_nix.Base.Effects.{◌>>=◌}
use tartarus_nix.Base.Effects.Keeps.{
  Keeps, Keeps-bind, Keeps-then, Keeps-if, Keeps-pure, Keeps-raise, Keeps-weaker,
}
use tartarus_nix.Agent.Wire.{ssh_buffer, read_string, failure}
use tartarus_nix.Agent.Rules.{KeyConfig, Rule, Policy, deny, ask, allow, is_deny}
use tartarus_nix.Agent.State.{
  World, Config, Conn, Handle, Event, asked, prompted, Prompt, Purpose, use_key, request, confirm,
  answered,
}
use tartarus_nix.Agent.Purpose.{determine_purpose}
use tartarus_nix.Agent.SessionBind.{destination_allowed}
use tartarus_nix.Agent.Identities.{governing_rule}
use tartarus_nix.Agent.Sign.{
  Relayed, settle, usable, keep_last, sign_loop, sign_via_upstream, candidates, answer_sign,
  policy_for, restricted, authorize, sign_authorized, sign_ruled, sign_parsed, sign_fields,
  handle_sign_request,
}
use tartarus_nix.Agent.Safety.{Safe, Justified, Destination, Verified, JustConfirmed, IsMutation}
use tartarus_nix.Agent.Offers.{Known, Known-later}
use tartarus_nix.Agent.Safety.Steps.{
  IsSafe, with_event, request-Safe_justified, send-Safe, send_failure-Safe, notify-Safe,
  refuse-Safe,
}

module _ (w : World) (cfg : Config) (identity listener : Option Text) (msg : Bytes)
    (other : ¬ IsMutation msg) where
  -- A connection that may ask for the signature now.
  record Cleared (c : Conn) : Type 0 where
    safe : Safe w cfg identity listener c
    why : Justified w cfg identity listener msg c.trace

  later :
      (path : Text) (answer : Option Bytes) (t : List Event)
      → Justified w cfg identity listener msg t
      → Justified w cfg identity listener msg (asked path msg answer ∷ t)
  later path answer t j = record {
    key = j.key;
    rule = j.rule;
    key_blob = j.key_blob;
    to_sign = j.to_sign;
    fields = j.fields;
    known = Known-later w cfg j.key_blob j.key (asked path msg answer) t j.known;
    governs = j.governs;
    not_denied = j.not_denied;
    consent = elim j.consent [ inl a ↦ inl a | inr h ↦ inr (refl, h) ];
    destination = j.destination;
  }

  request-Cleared : (path : Text) → Keeps Cleared (request w path msg)
  unfolding request
  request-Cleared path = record {
    at = λ c h. record {
      safe =
          request-Safe_justified w cfg identity listener path msg c
            ((λ _. h.why), (λ m. absurd (other m))) h.safe;
      why = later path _ c.trace h.why;
    };
  }

  settle-Cleared :
      (path : Text) (resp : Option Bytes) (rest : Handle Relayed)
      → Keeps Cleared rest
      → Keeps Cleared (settle path resp rest)
  unfolding settle
  settle-Cleared path resp rest k = record {
    at = λ c h. elim (Bool-cases (usable resp)) [
      | inl u ↦ rw (u, settle) h
      | inr u ↦ rw (u, settle) (k.at c h)
    ];
  }

  sign_loop-Cleared :
      (agents paths seen : List Text) (last : Option Bytes) (last_path : Option Text)
      → Keeps Cleared (sign_loop w agents msg paths seen last last_path)
  unfolding sign_loop
  sign_loop-Cleared agents [] seen last last_path = Keeps-pure _
  sign_loop-Cleared agents (path ∷ paths) seen last last_path =
      elim (Bool-cases (contains path seen || not (contains path agents))) [
        | inl e ↦ rw (e, sign_loop) (sign_loop-Cleared agents paths seen last last_path)
        | inr e ↦
            rw (e, sign_loop)
              (Keeps-bind _ _ (request-Cleared path) λ resp.
                settle-Cleared path resp _
                  (sign_loop-Cleared agents paths (path ∷ seen) (keep_last resp last) (some path)))
      ]

  sign_via-Cleared :
      (agents : List Text) (key_blob : Bytes) (k : KeyConfig)
      → Keeps Cleared (sign_via_upstream w agents key_blob k msg)
  unfolding sign_via_upstream
  sign_via-Cleared agents key_blob k = record {
    at = λ c h.
        (sign_loop-Cleared agents (candidates (get c.key_upstream key_blob) k agents) [] none
            none).at
          c h;
  }

  answer_sign-Safe :
      (rule : Rule) (k : KeyConfig) (purpose : Purpose) (o : Option Bytes)
      → Keeps (IsSafe w cfg identity listener) (answer_sign rule k purpose o)
  unfolding answer_sign
  answer_sign-Safe rule k purpose none = send_failure-Safe w cfg identity listener
  answer_sign-Safe rule k purpose (some []) = Keeps-raise
  answer_sign-Safe rule k purpose (some (t ∷ body)) =
      Keeps-if (t == failure) _ _ (send-Safe w cfg identity listener (t ∷ body)) (
        Keeps-then _ _ (send-Safe w cfg identity listener (t ∷ body))
          (Keeps-if rule.notify _ _ (notify-Safe w cfg identity listener false _) (Keeps-pure tt)))

  -- The upstream is asked in a connection that is cleared for it.
  sign_authorized-Safe :
      (agents : List Text) (key_blob : Bytes) (purpose : Purpose) (k : KeyConfig) (rule : Rule)
      (c : Conn)
      → Cleared c
      → Safe w cfg identity listener (sign_authorized w agents msg key_blob purpose k rule true c).1
  unfolding sign_authorized
  sign_authorized-Safe agents key_blob purpose k rule c h =
      Keeps-weaker (sign_via_upstream w agents key_blob k msg) _ (λ s cleared. cleared.safe)
        (sign_via-Cleared agents key_blob k) (λ a. answer_sign-Safe rule k purpose a.0) c h

  module _ (agents : List Text) (key_blob : Bytes) (purpose : Purpose) (k : KeyConfig)
      (rule : Rule) where
    abbrev prompt : Prompt
    prompt = use_key k.id purpose k.fingerprint

    asked_user :
        (c : Conn) (o : Option Bool)
        → Safe w cfg identity listener c
        → Known w cfg key_blob k c.trace
        → ((t : List Event)
            → Known w cfg key_blob k t
            → JustConfirmed prompt msg t
            → Justified w cfg identity listener msg t)
        → Safe w cfg identity listener
            ((answered prompt o >>= sign_authorized w agents msg key_blob purpose k rule) c).1
    unfolding answered
    asked_user c none h now build = h
    asked_user c (some true) h now build =
        sign_authorized-Safe agents key_blob purpose k rule _ (record {
          safe = with_event w cfg identity listener c _ h.justified h;
          why =
              build _ (Known-later w cfg key_blob k (prompted prompt true) c.trace now)
                (refl, refl);
        })
    asked_user c (some false) h now build =
        unfold sign_authorized in
        (send_failure-Safe w cfg identity listener).at _
          (with_event w cfg identity listener c _ h.justified h)

    authorized-Safe :
        (p : Policy) (c : Conn)
        → Safe w cfg identity listener c
        → Known w cfg key_blob k c.trace
        → ((t : List Event)
            → Known w cfg key_blob k t
            → (p ≡ allow) ⊎ JustConfirmed prompt msg t
            → Justified w cfg identity listener msg t)
        → Safe w cfg identity listener
            ((authorize w p prompt >>= sign_authorized w agents msg key_blob purpose k rule) c).1
    unfolding authorize
    authorized-Safe deny c h now build =
        unfold sign_authorized in (send_failure-Safe w cfg identity listener).at c h
    authorized-Safe allow c h now build =
        sign_authorized-Safe agents key_blob purpose k rule c
          (record { safe = h; why = build c.trace now (inl refl) })
    authorized-Safe ask c h now build =
        unfold confirm in
        asked_user c (w.confirm c.trace prompt) h now (λ t known x. build t known (inr x))

-- A destination that the handler lets pass is one that a session proved.
module _ (w : World) (bound : Dict Bytes) (to_sign : Bytes) (hosts : List Bytes) where
  destination_allowed-Destination :
      ((s t : Bytes) → get bound s ≡ some t → Verified w s t)
      → destination_allowed bound to_sign hosts ≡ true
      → Destination w to_sign hosts
  unfolding destination_allowed
  destination_allowed-Destination verified e =
      elim (Option-cases (read_string (ssh_buffer to_sign))) [
        | inl none_read ↦ absurd (ground (arith, none_read))
        | inr (r, read) ↦ elim (Option-cases (get bound r.0)) [
          | inl unbound ↦ absurd (ground (arith, read, unbound))
          | inr (t, found) ↦ record {
            session_id = r.0;
            trust = t;
            named = ground (arith, read);
            trusted = ground (arith, read, found);
            verified = verified r.0 t found;
          }
        ]
      ]

module _ (w : World) (cfg : Config) (identity listener : Option Text) (agents : List Text)
    (msg : Bytes) (other : ¬ IsMutation msg) where
  module _ (key_blob to_sign : Bytes) (fields : sign_fields msg ≡ some (key_blob, to_sign))
      (c : Conn) (h : Safe w cfg identity listener c) where
    abbrev purpose : Purpose
    purpose = determine_purpose w to_sign

    sign_ruled-Safe :
        (k : KeyConfig) (rule : Rule)
        → rule ≡ governing_rule cfg identity listener k.id
        → Known w cfg key_blob k c.trace
        → Safe w cfg identity listener (sign_ruled w agents msg key_blob to_sign purpose k rule c).1
    unfolding sign_ruled
    sign_ruled-Safe k rule governs now = elim (Bool-cases (is_deny (policy_for rule purpose))) [
      | inl d ↦ rw (d, sign_ruled) ((refuse-Safe w cfg identity listener _).at c h)
      | inr d ↦
          elim (Bool-cases (
            restricted rule purpose
            && not (destination_allowed c.bound_destinations to_sign rule.allowed_host_keys))) [
              | inl r ↦ rw (d, r, sign_ruled) ((refuse-Safe w cfg identity listener _).at c h)
              | inr r ↦
                  rw (d, r, sign_ruled)
                    (authorized-Safe w cfg identity listener msg other agents key_blob purpose k
                      rule (policy_for rule purpose) c h now
                      λ t known consent. record {
                        key = k;
                        rule = rule;
                        key_blob = key_blob;
                        to_sign = to_sign;
                        fields = fields;
                        known = known;
                        governs = governs;
                        not_denied = λ e. ground (arith, e);
                        consent = consent;
                        destination = λ e.
                            destination_allowed-Destination w c.bound_destinations to_sign
                              rule.allowed_host_keys h.bound (ground (arith, e, r));
                      })
            ]
    ]

    sign_parsed-Safe : Safe w cfg identity listener (sign_parsed w agents msg key_blob to_sign c).1
    unfolding sign_parsed
    sign_parsed-Safe = elim (Option-cases (get c.allowed_keys key_blob)) [
      | inl e ↦ rw (e, sign_parsed) ((refuse-Safe w cfg identity listener _).at c h)
      | inr (k, e) ↦
          rw (e, h.governed key_blob k e, sign_parsed)
            (sign_ruled-Safe k (governing_rule cfg identity listener k.id) refl
              (h.known key_blob k e))
    ]

  pub handle_sign_request-Safe :
      Keeps (IsSafe w cfg identity listener) (handle_sign_request w agents msg)
  unfolding handle_sign_request
  handle_sign_request-Safe = record {
    at = λ c h. elim (Option-cases (sign_fields msg)) [
      | inl e ↦ rw (e, handle_sign_request) h
      | inr (f, e) ↦ rw (e, handle_sign_request) (sign_parsed-Safe f.0 f.1 e c h)
    ];
  }
