-- ===== src/Clipboard/Isolation/Handlers/Admins.antt =====
-- The handler of an admin of clipboard-bridge.py keeps the clients apart, and answers what is due.
use tartarus_nix.Base.{
  ◌≡◌, refl, inl, inr, true, false, Option, none, some, List, ◌∷◌, Text, codes, arith,
}
use tartarus_nix.Base.Effects.Meets.{Meets, Meets-gets, Meets-raise, Meets-if, Meets-then}
use tartarus_nix.Json.{array, Fields, equals}
use tartarus_nix.Clipboard.Rules.{Policy, allow, deny}
use tartarus_nix.Clipboard.Names.{resolve_target_to_id}
use tartarus_nix.Clipboard.Hub.{
  Connection, Request, Event, received, Hub, World, status_ok, ok_data,
}
use tartarus_nix.Clipboard.Handlers.{
  not_authorized, verdict, is_allowed, target_text, clients_list, got, is_admin_action, admin_get,
  admin_clients, admin_set, admin_allowed, admin_ruled, handle_admin,
}
use tartarus_nix.Clipboard.Isolation.{Due, Answers, Isolated}
use tartarus_nix.Clipboard.Isolation.Steps.{Pushing, notify_and_broadcast-Pushing}
use tartarus_nix.Clipboard.Isolation.Handlers.{ReplyDue, plain_reply, refusal, status_ok-HasNoData}

module _ (w : World) (c : Connection) (administers : c.listener.admin ≡ true) where
  module _ (r : Request) where
    -- When an admin's request has been read.
    abbrev pub Asked : Hub → Type 0
    Asked h = Isolated h × ((before : List Event) × (h.trace ≡ received c r h.clipboards ∷ before))

    Asked-Isolated : (h : Hub) → Asked h → Isolated h
    Asked-Isolated h p = p.0

    answer-Due : (h : Hub) (m : Fields) → Asked h → Answers c r h.clipboards m → Due h.trace c m
    answer-Due h m p a = (λ guest. absurd (cc), λ admin. inr (rw p.1.1 (refl, a)))

    module _ (target : Text) (names : target_text r.target ≡ some target)
        (allows : verdict c r target ≡ allow) where
      admin_clients-Meets :
          equals r.action (codes "clients") ≡ true → Meets Asked Isolated (ReplyDue c) admin_clients
      unfolding admin_clients
      admin_clients-Meets asks =
          Meets-gets (λ h. some (ok_data (array (clients_list h.clipboards))))
            (λ h p. (p.0, answer-Due h _ p (target, names, allows, inl (asks, refl))))

      admin_get-Meets :
          equals r.action (codes "get") ≡ true
          → Meets Asked Isolated (ReplyDue c) (admin_get c r target)
      unfolding admin_get
      admin_get-Meets asks =
          Meets-gets (λ h. some (ok_data (got h.clipboards c.listener r target)))
            (λ h p. (p.0, answer-Due h _ p (target, names, allows, inr (asks, refl))))

      admin_set-Meets :
          equals r.action (codes "set") ≡ true
          → Meets Asked Isolated (ReplyDue c) (admin_set w c r target)
      unfolding admin_set
      admin_set-Meets sets = record {
        at = λ h p.
            let client = resolve_target_to_id h.clipboards c.listener target in
            (Meets-then {P = Pushing w client r.content} _ _ (λ _ q. q.0)
                (notify_and_broadcast-Pushing w client r.content c.listener (codes "Host push") none
                  none)
                (plain_reply c status_ok status_ok-HasNoData (λ _ q. q.0))).at
              h
              (
                p.0,
                rw p.1.1 (inr (inl (sets, refl, inr (target, administers, names, allows, refl)))),
              );
      }

      set_remains :
          is_admin_action r ≡ true
          → equals r.action (codes "clients") ≡ false
          → equals r.action (codes "get") ≡ false
          → equals r.action (codes "set") ≡ true
      unfolding is_admin_action
      set_remains asks no_clients no_get = ground arith

      admin_allowed-Meets :
          is_admin_action r ≡ true → Meets Asked Isolated (ReplyDue c) (admin_allowed w c r target)
      unfolding admin_allowed
      admin_allowed-Meets asks =
          Meets-if (equals r.action (codes "clients")) _ _ admin_clients-Meets (λ no_clients.
            Meets-if (equals r.action (codes "get")) _ _ admin_get-Meets
              (λ no_get. admin_set-Meets (set_remains asks no_clients no_get)))

    is_allowed-allow : (p : Policy) → is_allowed p ≡ true → p ≡ allow
    unfolding is_allowed
    is_allowed-allow allow e = refl
    is_allowed-allow deny e = absurd (cc)

    admin_ruled-Meets :
        is_admin_action r ≡ true
        → (o : Option Text) → target_text r.target ≡ o
        → Meets Asked Isolated (ReplyDue c) (admin_ruled w c r o)
    unfolding admin_ruled
    admin_ruled-Meets asks none e = Meets-raise Asked-Isolated
    admin_ruled-Meets asks (some target) e =
        Meets-if (is_allowed (verdict c r target)) _ _
          (λ ok. admin_allowed-Meets target e (is_allowed-allow (verdict c r target) ok) asks)
          (λ _. refusal c not_authorized Asked-Isolated)

    pub handle_admin-Meets : Meets Asked Isolated (ReplyDue c) (handle_admin w c r)
    unfolding handle_admin
    handle_admin-Meets =
        Meets-if (is_admin_action r) _ _ (λ asks. admin_ruled-Meets asks _ refl)
          (λ _. refusal c _ Asked-Isolated)
