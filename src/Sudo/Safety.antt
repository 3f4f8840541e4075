-- ===== src/Sudo/Safety.antt =====
-- What the history of a connection of sudo-auth-proxy.py guarantees: who may be let through, and whom
-- the approver is asked about.
pub mod Steps
pub mod Runs
use tartarus_nix.Base.{◌≡◌, ◌⊎◌, Bool, true, false, Option, none, some, List, [], ◌∷◌, Text, codes}
use tartarus_nix.Json.{Value, string, Fields, lookup, equals}
use tartarus_nix.Sudo.Protocol.{compute_request_digest, parse_request, build_pending}
use tartarus_nix.Sudo.Rules.{Policy, allow, ask, evaluate_rules}
use tartarus_nix.Sudo.Security.{authenticate_request}
use tartarus_nix.Sudo.Display.{Confirmation}
use tartarus_nix.Sudo.Server.{World, Listener, Event, wrote, prompted, context_of, confirmation_of}

module _ (w : World) (l : Listener) where
  -- A well-formed request of an authenticated requester, and the policy that the rules give it.
  pub record Genuine (request : Fields) (requester : Text) (nonce : Value) (policy : Policy)
      : Type 0 where
    pub parsed : parse_request w.lib request ≡ some request
    pub authentic :
        authenticate_request w.fingerprint request l.security l.peer_cert_der ≡ some requester
    pub nonced : lookup request (codes "nonce") ≡ some nonce
    pub ruled : evaluate_rules l.security.rules (context_of w l request requester) ≡ policy

  -- The approver was asked about the request just after it was acknowledged.
  pub record Consulted (request : Fields) (requester : Text) (nonce : Value) (c : Confirmation)
      (before : List Event) : Type 0 where
    pub genuine : Genuine request requester nonce ask
    pub earlier : List Event
    pub acknowledged : before ≡ wrote (build_pending nonce) ∷ earlier
    pub about : c ≡ confirmation_of w l request requester before

  -- The approver has just said yes about the request.
  abbrev pub JustApproved : Fields → Text → Value → List Event → Type 0
  JustApproved request requester nonce (prompted c ok ∷ before) =
      (ok ≡ true) × Consulted request requester nonce c before
  JustApproved request requester nonce _ = ⊥

  -- Why a message that says `allow` may be sent.
  pub record Approved (msg : Fields) (before : List Event) : Type 0 where
    pub request : Fields
    pub requester : Text
    pub nonce : Value
    pub policy : Policy
    pub digest : Text
    pub genuine : Genuine request requester nonce policy
    pub same_nonce : lookup msg (codes "nonce") ≡ lookup request (codes "nonce")
    pub encoded : compute_request_digest w.lib request ≡ some digest
    pub same_digest : lookup msg (codes "request_digest") ≡ some (string digest)
    pub consent : (policy ≡ allow) ⊎ JustApproved request requester nonce before

  -- The approver is asked about genuine requests only.
  pub record Asked (c : Confirmation) (before : List Event) : Type 0 where
    pub request : Fields
    pub requester : Text
    pub nonce : Value
    pub consulted : Consulted request requester nonce c before

  abbrev pub AllApproved : List Event → Type 0
  AllApproved [] = Unit {0}
  AllApproved (wrote msg ∷ before) =
      (equals (lookup msg (codes "decision")) (codes "allow") ≡ true → Approved msg before)
      × AllApproved before
  AllApproved (prompted c ok ∷ before) = Asked c before × AllApproved before
