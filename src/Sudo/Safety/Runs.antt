-- ===== src/Sudo/Safety/Runs.antt =====
-- Every connection of the server keeps the guarantee, whatever the peer sends and whoever approves.
use tartarus_nix.Base.{
  ◌≡◌, refl, inl, inr, false, Option, none, some, List, [], ◌∷◌, Text, codes, ltb, length, Bytes,
  Bool-cases, if◌then◌else◌,
}
use tartarus_nix.Base.Effects.{◌>>=◌, pure}
use tartarus_nix.Base.Effects.Keeps.{Keeps, Keeps-pure, Keeps-raise, Keeps-if, Keeps-bind}
use tartarus_nix.Json.{Value, Fields, lookup}
use tartarus_nix.Sudo.Protocol.{parse_request, build_pending, max_message_bytes, encoded_message}
use tartarus_nix.Sudo.Rules.{Policy, allow, ask, deny}
use tartarus_nix.Sudo.Security.{authenticate_request}
use tartarus_nix.Sudo.Server.{
  World, Listener, Event, wrote, Frame, closed, malformed, unreadable, message, write_message,
  write_encoded, prompt_for_confirmation, confirmation_of, confirm, ask_user, apply_policy, answer,
  serve_authenticated, serve_parsed, serve_frame, handle,
}
use tartarus_nix.Sudo.Safety.{Genuine, Consulted, AllApproved}
use tartarus_nix.Sudo.Safety.Steps.{
  All, respond-All, decide-All, said_yes, deny_is_no_allow, pending_says_nothing,
  parse_request_idempotent,
}

module _ (w : World) (l : Listener) where
  consult :
      (request : Fields) (requester : Text) (nonce : Value) (earlier : List Event)
      → Genuine w l request requester nonce ask
      → Consulted w l request requester nonce
          (confirmation_of w l request requester (wrote (build_pending nonce) ∷ earlier))
          (wrote (build_pending nonce) ∷ earlier)
  consult request requester nonce earlier g = record {
    genuine = g;
    earlier = earlier;
    acknowledged = refl;
    about = refl;
  }

  confirm-All :
      (request : Fields) (requester : Text) (nonce : Value) (earlier : List Event)
      → Genuine w l request requester nonce ask
      → All w l (wrote (build_pending nonce) ∷ earlier)
      → All w l (confirm w l request nonce requester (wrote (build_pending nonce) ∷ earlier)).1
  unfolding confirm prompt_for_confirmation
  confirm-All request requester nonce earlier g h =
      let about = consult request requester nonce earlier g in
      let c = confirmation_of w l request requester (wrote (build_pending nonce) ∷ earlier) in
      respond-All w l request requester nonce ask _ _ g
        (λ e. inr (said_yes (w.approves (wrote (build_pending nonce) ∷ earlier) c) e, about))
        (record { request = request; requester = requester; nonce = nonce; consulted = about }, h)

  -- What follows a write of the acknowledgement.
  acknowledged-All :
      (request : Fields) (requester : Text) (nonce : Value) (o : Option Bytes) (trace : List Event)
      → Genuine w l request requester nonce ask
      → All w l trace
      → All w l
          (((λ s. write_encoded w (build_pending nonce) o s) >>= λ acknowledged.
              if acknowledged then confirm w l request nonce requester else pure false)
            trace).1
  unfolding write_encoded
  acknowledged-All request requester nonce none trace g h = h
  acknowledged-All request requester nonce (some encoded) trace g h =
      elim (Bool-cases (ltb max_message_bytes (length encoded))) [
        | inl long ↦ rw long h
        | inr short ↦ elim (Bool-cases (w.takes trace (build_pending nonce))) [
          | inl taken ↦
              rw (short, taken)
                (confirm-All request requester nonce trace g (pending_says_nothing nonce, h))
          | inr refused ↦ rw (short, refused) h
        ]
      ]

  ask_user-All :
      (request : Fields) (requester : Text) (nonce : Value)
      → Genuine w l request requester nonce ask
      → Keeps (All w l) (ask_user w l request nonce requester)
  unfolding ask_user write_message
  ask_user-All request requester nonce g = record {
    at = λ trace h.
        acknowledged-All request requester nonce (encoded_message w.lib (build_pending nonce)) trace
          g h;
  }

  apply_policy-All :
      (request : Fields) (requester : Text) (nonce : Value) (policy : Policy)
      → Genuine w l request requester nonce policy
      → Keeps (All w l) (apply_policy w l request nonce requester policy)
  unfolding apply_policy
  apply_policy-All request requester nonce allow g =
      decide-All w l request requester nonce allow (codes "allow") g (λ e. refl)
  apply_policy-All request requester nonce deny g =
      decide-All w l request requester nonce deny (codes "deny") g
        (λ e. absurd (deny_is_no_allow e))
  apply_policy-All request requester nonce ask g = ask_user-All request requester nonce g

  answer-All :
      (request : Fields) (requester : Text) (nonce : Option Value)
      → lookup request (codes "nonce") ≡ nonce
      → parse_request w.lib request ≡ some request
      → authenticate_request w.fingerprint request l.security l.peer_cert_der ≡ some requester
      → Keeps (All w l) (answer w l request nonce requester)
  unfolding answer
  answer-All request requester none nonced parsed authentic = Keeps-raise
  answer-All request requester (some nonce) nonced parsed authentic =
      apply_policy-All request requester nonce _
        (record { parsed = parsed; authentic = authentic; nonced = nonced; ruled = refl })

  authenticated-All :
      (request : Fields) (requester : Option Text)
      → parse_request w.lib request ≡ some request
      → authenticate_request w.fingerprint request l.security l.peer_cert_der ≡ requester
      → Keeps (All w l) (serve_authenticated w l request requester)
  unfolding serve_authenticated
  authenticated-All request none parsed authentic = Keeps-pure false
  authenticated-All request (some requester) parsed authentic =
      answer-All request requester _ refl parsed authentic

  parsed-All :
      (m : Fields) (o : Option Fields)
      → parse_request w.lib m ≡ o
      → Keeps (All w l) (serve_parsed w l o)
  unfolding serve_parsed
  parsed-All m none e = Keeps-pure false
  parsed-All m (some request) e =
      authenticated-All request _ (parse_request_idempotent w.lib m request e) refl

  frame-All : (frame : Frame) → Keeps (All w l) (serve_frame w l frame)
  unfolding serve_frame
  frame-All closed = Keeps-pure false
  frame-All malformed = Keeps-pure false
  frame-All unreadable = Keeps-pure false
  frame-All (message m) = parsed-All m _ refl

  handle-All : (frames : List Frame) → Keeps (All w l) (handle w l frames)
  unfolding handle
  handle-All [] = Keeps-pure tt
  handle-All (frame ∷ later) =
      Keeps-bind {P = All w l} (serve_frame w l frame)
        (λ goes_on. if goes_on then handle w l later else pure tt) (frame-All frame)
        (λ goes_on. Keeps-if goes_on _ _ (handle-All later) (Keeps-pure tt))

-- Whatever the frames of a connection, whoever approves and whatever the clock says: a message that
-- says `allow` is sent only for a well-formed and authenticated request, whose nonce and digest it
-- bears, and only if the first rule that matches allows it, or, where the rules say to ask, the
-- approver said yes to the confirmation of this very request, put just before and just after the
-- request was acknowledged; and the approver is asked about such requests alone.
pub handle_allows_approved :
    (w : World) (l : Listener) (frames : List Frame) → AllApproved w l (handle w l frames []).1
handle_allows_approved w l frames = (handle-All w l frames).at [] tt
