-- ===== src/Sudo/Safety/Steps.antt =====
-- A write keeps the guarantee where the message is approved, and so does a response.
use tartarus_nix.Base.{
  ℕ, ◌≡◌, refl, sym, ap, ◌∙◌, ◌⊎◌, inl, inr, Bool, true, false, Option, none, some, List, Text,
  codes, arith, ltb, length, Bytes, all, all, bytes_eq, bytes_eq_iff, not, ◌||◌, is_some,
  Bool-cases, Option-cases,
}
use tartarus_nix.Base.Effects.{pure, lift}
use tartarus_nix.Base.Effects.Keeps.{Keeps, Keeps-pure, Keeps-bind}
use tartarus_nix.Base.Options.{bind_inv, require}
use mathlib.Core.Path.{subst}
use tartarus_nix.Base.Integers.{ℤ}
use tartarus_nix.Json.{Value, string, Fields, lookup, equals, is_string}
use tartarus_nix.Sudo.Protocol.{
  Libraries, validate_envelope, validate_nonce, request_required_fields, parse_request,
  build_response, build_pending, response_fields, max_message_bytes, encoded_message,
}
use tartarus_nix.Sudo.Protocol.Built.{build_response-inv, built_decision, built_nonce, built_digest}
use tartarus_nix.Sudo.Rules.{Policy, allow}
use tartarus_nix.Sudo.Server.{
  World, Listener, Event, write_message, write_encoded, respond, decision_text, decide,
}
use tartarus_nix.Sudo.Safety.{Genuine, JustApproved, Approved, AllApproved}

-- The decision of a response that says `allow`.
says_decision :
    (nonce : Value) (decision digest : Text) (ttl : ℤ) (approver : Text) (now : ℕ) (msg : Fields)
    → msg ≡ response_fields nonce decision digest ttl approver now
    → equals (lookup msg (codes "decision")) (codes "allow") ≡ true
    → decision ≡ codes "allow"
unfolding equals
says_decision nonce decision digest ttl approver now msg shape says =
    let shown : lookup msg (codes "decision") ≡ some (string decision) =
      rw shape (built_decision nonce decision digest ttl approver now) in
    (bytes_eq_iff decision (codes "allow")).0
      (sym (ap (λ v. equals v (codes "allow")) shown) ∙ says)

pub deny_is_no_allow : ¬ (codes "deny" ≡ codes "allow")
deny_is_no_allow e = absurd (ground (arith, e))

pub said_yes : (ok : Bool) → decision_text ok ≡ codes "allow" → ok ≡ true
said_yes true e = refl
said_yes false e = absurd (deny_is_no_allow e)

pub pending_says_nothing :
    {A : Type 0} (nonce : Value)
    → equals (lookup (build_pending nonce) (codes "decision")) (codes "allow") ≡ true
    → A
unfolding build_pending lookup equals bytes_eq
pending_says_nothing nonce e = absurd (cc)

-- The request that is accepted is the message itself.
pub parse_request_idempotent :
    (lib : Libraries) (m request : Fields)
    → parse_request lib m ≡ some request
    → parse_request lib request ≡ some request
unfolding parse_request
parse_request_idempotent lib m request e =
    let (_, _, e1) = bind_inv (validate_envelope m (codes "auth_request")) _ request e in
    let (_, _, e2) =
      bind_inv (require (all (λ name. is_string (lookup m name)) request_required_fields)) _ request
        e1 in
    let (_, _, e3) = bind_inv (validate_nonce lib (lookup m (codes "nonce"))) _ request e2 in
    let (_, _, e4) =
      bind_inv
        (require (
          not (is_some (lookup m (codes "guest_hint")))
          || is_string (lookup m (codes "guest_hint"))))
        _ request e3 in
    subst (λ r. parse_request lib r ≡ some request) (cc) e

module _ (w : World) (l : Listener) where
  abbrev pub All : List Event → Type 0
  All = AllApproved w l

  -- A write leaves the history as it is, or adds the message.
  pub encoded-All :
      (msg : Fields) (o : Option Bytes) (trace : List Event)
      → (equals (lookup msg (codes "decision")) (codes "allow") ≡ true → Approved w l msg trace)
      → All trace
      → All (write_encoded w msg o trace).1
  unfolding write_encoded
  encoded-All msg none trace why h = h
  encoded-All msg (some encoded) trace why h =
      elim (Bool-cases (ltb max_message_bytes (length encoded))) [
        | inl long ↦ rw long h
        | inr short ↦ elim (Bool-cases (w.takes trace msg)) [
          | inl taken ↦ rw (short, taken) (why, h)
          | inr refused ↦ rw (short, refused) h
        ]
      ]

  module _ (request : Fields) (requester : Text) (nonce : Value) (policy : Policy) where
    pub respond-All :
        (decision : Text) (trace : List Event)
        → Genuine w l request requester nonce policy
        → (decision ≡ codes "allow"
            → (policy ≡ allow) ⊎ JustApproved w l request requester nonce trace)
        → All trace
        → All (respond w l request nonce decision trace).1
    unfolding respond write_message
    respond-All decision trace g consent h =
        elim (Option-cases (
          build_response w.lib nonce decision request l.security.response_ttl l.approver
            (w.now trace))) [
              | inl failed ↦ rw failed h
              | inr (msg, built) ↦
                  let (digest, encoded, shape) =
                    build_response-inv w.lib nonce decision request _ _ _ msg built in
                  rw (built, lift)
                    (encoded-All msg (encoded_message w.lib msg) trace
                      (λ says. record {
                        request = request;
                        requester = requester;
                        nonce = nonce;
                        policy = policy;
                        digest = digest;
                        genuine = g;
                        same_nonce = rw (shape, g.nonced) (built_nonce nonce decision digest _ _ _);
                        encoded = encoded;
                        same_digest = rw shape (built_digest nonce decision digest _ _ _);
                        consent =
                            consent (says_decision nonce decision digest _ _ _ msg shape says);
                      })
                      h)
            ]

    pub decide-All :
        (decision : Text)
        → Genuine w l request requester nonce policy
        → (decision ≡ codes "allow" → policy ≡ allow)
        → Keeps All (decide w l request nonce decision)
    unfolding decide
    decide-All decision g by_rule =
        Keeps-bind {P = All} (respond w l request nonce decision) (λ _. pure false)
          (record { at = λ s h. respond-All decision s g (λ e. inl (by_rule e)) h })
          (λ _. Keeps-pure false)
