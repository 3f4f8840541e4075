-- ===== src/Sudo/Client/Exchange.antt =====
-- The client and the server together: what a status of zero means.
use mathlib.Core.Path.{subst}
use tartarus_nix.Base.{
  ℕ, ◌≡◌, refl, sym, ap, ◌⊎◌, inl, inr, Bool, true, false, Option, none, some, List, [], ◌∷◌, ◌++◌,
  Text, codes, bytes_eq, bytes_eq_iff, arith, Bool-cases,
}
use tartarus_nix.Base.Options.{bind_inv}
use tartarus_nix.Json.{string, Fields, lookup, equals}
use tartarus_nix.Sudo.Protocol.{Libraries, Metadata, parse_pending}
use tartarus_nix.Sudo.Security.{SecurityConfig, verify_response}
use tartarus_nix.Sudo.Security.Verdicts.{Accepted, verify_response-Accepted}
use tartarus_nix.Sudo.Server.{
  World, Listener, Event, wrote, prompted, Frame, closed, malformed, unreadable, message, handle,
}
use tartarus_nix.Sudo.Client.{
  outbound_request, read_frame, after_first, final_response, exit_status, client_decision,
  run_client,
}
use tartarus_nix.Sudo.Safety.{Approved, AllApproved}
use tartarus_nix.Sudo.Safety.Runs.{handle_allows_approved}

-- A status of zero comes from a response to the client's own request.
pub record Allowed (lib : Libraries) (nonce : Text) (fields : Metadata) (security : SecurityConfig)
    (now : ℕ) (frames : List Frame) : Type 0 where
  pub request : Fields
  pub response : Fields
  pub sent : outbound_request lib nonce fields security ≡ some request
  pub received : final_response request frames ≡ some response
  pub accepted : Accepted lib response request security now [] (codes "allow")

exit_status-inv : (o : Option Text) → exit_status o ≡ 0 → o ≡ some (codes "allow")
unfolding exit_status
exit_status-inv none e = absurd (omega (arith, e))
exit_status-inv (some decision) e = elim (Bool-cases (bytes_eq decision (codes "allow"))) [
  | inl same ↦ ap some ((bytes_eq_iff decision (codes "allow")).0 same)
  | inr other ↦ absurd (ground (arith, other))
]

-- The client exits with zero only on a response that it accepts for the request it sent, and that
-- says `allow`.
pub run_client-Allowed :
    (lib : Libraries) (nonce : Text) (fields : Metadata) (security : SecurityConfig) (now : ℕ)
    (frames : List Frame)
    → run_client lib nonce fields security now frames ≡ 0
    → Allowed lib nonce fields security now frames
unfolding run_client client_decision
run_client-Allowed lib nonce fields security now frames e =
    let e1 = exit_status-inv _ e in
    let (request, sent, e2) = bind_inv (outbound_request lib nonce fields security) _ _ e1 in
    let (response, received, e3) = bind_inv (final_response request frames) _ _ e2 in
    let ((decision, used), verified, e4) =
      bind_inv (verify_response lib response request security now []) _ _ e3 in
    let says : decision ≡ codes "allow" = cc in
    record {
      request = request;
      response = response;
      sent = sent;
      received = received;
      accepted =
          subst (Accepted lib response request security now []) says
            (verify_response-Accepted lib response request security now [] decision used
              verified).accepted;
    }

says_allow :
    (m : Fields)
    → lookup m (codes "decision") ≡ some (string (codes "allow"))
    → equals (lookup m (codes "decision")) (codes "allow") ≡ true
unfolding equals bytes_eq
says_allow m e = rw e refl

-- What the server wrote, the first frame first.
unfoldable pub frames_of : List Event → List Frame
frames_of [] = []
frames_of (wrote msg ∷ before) = frames_of before ++ message msg ∷ []
frames_of (prompted c ok ∷ before) = frames_of before

-- `m` is one of the messages.
abbrev Came : Fields → List Frame → Type 0
Came m [] = ⊥
Came m (message n ∷ frames) = (m ≡ n) ⊎ Came m frames
Came m (_ ∷ frames) = Came m frames

Came-append : (m n : Fields) (l : List Frame) → Came m (l ++ message n ∷ []) → Came m l ⊎ (m ≡ n)
Came-append m n [] (inl e) = inr e
Came-append m n [] (inr h) = absurd h
Came-append m n (message k ∷ l) (inl e) = inl (inl e)
Came-append m n (message k ∷ l) (inr h) = elim (Came-append m n l h) [
  | inl c ↦ inl (inr c)
  | inr e ↦ inr e
]
Came-append m n (closed ∷ l) h = Came-append m n l h
Came-append m n (malformed ∷ l) h = Came-append m n l h
Came-append m n (unreadable ∷ l) h = Came-append m n l h

read_frame-Came :
    (frames later : List Frame) (m : Fields)
    → read_frame frames ≡ some (m, later)
    → Came m frames × ((n : Fields) → Came n later → Came n frames)
unfolding read_frame
read_frame-Came (message n ∷ frames) later m e =
    let first : n ≡ m = cc in
    let same : frames ≡ later = cc in (inl (sym first), λ k c. inr (subst (Came k) (sym same) c))
read_frame-Came [] later m e = absurd (cc)
read_frame-Came (closed ∷ frames) later m e = absurd (cc)
read_frame-Came (malformed ∷ frames) later m e = absurd (cc)
read_frame-Came (unreadable ∷ frames) later m e = absurd (cc)

after_first-Came :
    (request first response : Fields) (later frames : List Frame) (pending : Bool)
    → Came first frames
    → ((n : Fields) → Came n later → Came n frames)
    → after_first request first later pending ≡ some response
    → Came response frames
unfolding after_first
after_first-Came request first response later frames false came behind e =
    let same : first ≡ response = cc in subst (λ r. Came r frames) same came
after_first-Came request first response later frames true came behind e =
    let (_, _, e1) = bind_inv (parse_pending first (lookup request (codes "nonce"))) _ _ e in
    let ((second, rest), reads, e2) = bind_inv (read_frame later) _ _ e1 in
    let same : second ≡ response = cc in
    subst (λ r. Came r frames) same (behind second (read_frame-Came later rest second reads).0)

final_response-Came :
    (request response : Fields) (frames : List Frame)
    → final_response request frames ≡ some response
    → Came response frames
unfolding final_response
final_response-Came request response frames e =
    let ((first, later), opened, e1) = bind_inv (read_frame frames) _ _ e in
    let (came, behind) = read_frame-Came frames later first opened in
    after_first-Came request first response later frames _ came behind e1

-- The message was written when the history was `before`.
abbrev pub WroteAt : Fields → List Event → List Event → Type 0
WroteAt m before [] = ⊥
WroteAt m before (wrote msg ∷ earlier) = ((m ≡ msg) × (before ≡ earlier)) ⊎ WroteAt m before earlier
WroteAt m before (prompted c ok ∷ earlier) = WroteAt m before earlier

Came-WroteAt :
    (m : Fields) (trace : List Event)
    → Came m (frames_of trace)
    → (before : List Event) × WroteAt m before trace
unfolding frames_of
Came-WroteAt m [] c = absurd c
Came-WroteAt m (prompted _ _ ∷ earlier) c = Came-WroteAt m earlier c
Came-WroteAt m (wrote msg ∷ earlier) c = elim (Came-append m msg (frames_of earlier) c) [
  | inl sooner ↦ let (before, at) = Came-WroteAt m earlier sooner in (before, inr at)
  | inr same ↦ (earlier, inl (same, refl))
]

module _ (w : World) (l : Listener) where
  written_Approved :
      (m : Fields) (before trace : List Event)
      → AllApproved w l trace
      → equals (lookup m (codes "decision")) (codes "allow") ≡ true
      → WroteAt m before trace
      → Approved w l m before
  written_Approved m before [] h says at = absurd at
  written_Approved m before (prompted _ _ ∷ earlier) h says at =
      written_Approved m before earlier h.1 says at
  written_Approved m before (wrote msg ∷ earlier) h says (inr at) =
      written_Approved m before earlier h.1 says at
  written_Approved m before (wrote msg ∷ earlier) h says (inl (same, now)) =
      subst (Approved w l m) (sym now) (
        subst (λ k. Approved w l k earlier) (sym same)
          (h.0
            (subst (λ k. equals (lookup k (codes "decision")) (codes "allow") ≡ true) same says)))

-- The client's status is zero on what the server wrote, over a channel that carries it unchanged. The
-- history before the response is the server's own.
pub record Granted (w : World) (l : Listener) (nonce : Text) (fields : Metadata)
    (security : SecurityConfig) (now : ℕ) (received : List Frame) : Type 0 where
  pub allowed : Allowed w.lib nonce fields security now (frames_of (handle w l received []).1)
  pub before : List Event
  pub written : WroteAt allowed.response before (handle w l received []).1
  pub approved : Approved w l allowed.response before

-- Where a client reads what a server wrote on a connection, whatever frames the server was sent there:
-- if the client exits with zero, the response that it accepted was sent by the server for an
-- authenticated request, under a rule that allows it or, in the server's own history, just after the
-- approver's yes about it, and bears the digest of the client's own request.
pub run_client-Granted :
    (w : World) (l : Listener) (nonce : Text) (fields : Metadata) (security : SecurityConfig)
    (now : ℕ) (received : List Frame)
    → run_client w.lib nonce fields security now (frames_of (handle w l received []).1) ≡ 0
    → Granted w l nonce fields security now received
run_client-Granted w l nonce fields security now received e =
    let allowed = run_client-Allowed w.lib nonce fields security now _ e in
    let (before, written) =
      Came-WroteAt allowed.response (handle w l received []).1
        (final_response-Came allowed.request allowed.response _ allowed.received) in
    record {
      allowed = allowed;
      before = before;
      written = written;
      approved =
          written_Approved w l allowed.response before (handle w l received []).1
            (handle_allows_approved w l received)
            (says_allow allowed.response allowed.accepted.says) written;
    }
