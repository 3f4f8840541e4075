-- ===== src/Clipboard/Isolation/Handlers.antt =====
-- The handlers of clipboard-bridge.py keep the clients apart, and answer what is due.
pub mod Admins
use tartarus_nix.Base.{
  ◌≡◌, refl, inl, inr, true, false, ◌||◌, Option, none, some, List, [], ◌∷◌, ◌++◌, Text, codes, get,
  bytes_eq, arith,
}
use tartarus_nix.Base.Effects.{pure}
use tartarus_nix.Base.Effects.Keeps.{Keeps}
use tartarus_nix.Base.Effects.Meets.{
  Meets, Meets-gets, Meets-pure, Meets-raise, Meets-if, Meets-then,
}
use tartarus_nix.Base.Dicts.Every.{Every-get, Every-put}
use tartarus_nix.Json.{array, Fields, lookup, equals, truthy}
use tartarus_nix.Clipboard.Rules.{Policy, allow, deny}
use tartarus_nix.Clipboard.Names.{Slot, resolve_target_to_id}
use tartarus_nix.Clipboard.Hub.{
  Connection, Request, Event, received, Hub, World, status_ok, ok_data, write,
}
use tartarus_nix.Clipboard.Handlers.{
  unauthorized, not_authorized, verdict, is_allowed, target_text, clients_list, got, content_of,
  is_admin_action, admin_get, admin_clients, admin_set, admin_allowed, admin_ruled, handle_admin,
  guest_set, own_content, guest_get, registered, register, appended, enter, subscribed, subscribe,
  handle_guest,
}
use tartarus_nix.Clipboard.Isolation.{Owned, Due, HasNoData, Answers, Guests, Isolated}
use tartarus_nix.Clipboard.Isolation.Steps.{
  Pushing, write-Isolated, ok_data-Due, notify_and_broadcast-Pushing,
}

abbrev pub ReplyDue : Connection → Option Fields → Hub → Type 0
ReplyDue c none h = Unit
ReplyDue c (some m) h = Due h.trace c m

pub no_data-Due : (trace : List Event) (c : Connection) (m : Fields) → HasNoData m → Due trace c m
no_data-Due trace c m n = (λ g v e. absurd (cc), λ admin. inl n)

pub unauthorized-HasNoData : (text : Text) → HasNoData (unauthorized text)
unfolding unauthorized lookup bytes_eq
unauthorized-HasNoData text = refl

pub status_ok-HasNoData : HasNoData status_ok
unfolding lookup bytes_eq
status_ok-HasNoData = refl

module _ (c : Connection) where
  -- A reply without data is always due.
  pub plain_reply :
      {P : Hub → Type 0} (m : Fields)
      → HasNoData m
      → ((h : Hub) → P h → Isolated h)
      → Meets P Isolated (ReplyDue c) (pure (some m))
  plain_reply m n i = Meets-pure (some m) (λ h p. (i h p, no_data-Due h.trace c m n))

  pub refusal :
      {P : Hub → Type 0} (text : Text)
      → ((h : Hub) → P h → Isolated h)
      → Meets P Isolated (ReplyDue c) (pure (some (unauthorized text)))
  refusal text i = plain_reply (unauthorized text) (unauthorized-HasNoData text) i

module _ (w : World) (c : Connection) (guest : c.listener.admin ≡ false) where
  module _ (r : Request) where
    -- When a guest's request has been read.
    abbrev pub Heard : Hub → Type 0
    Heard h =
        Isolated h
        × (equals r.action (codes "set") ≡ true
            → truthy r.target ≡ false
            → Owned h.trace c.client_id r.content)

    Heard-Isolated : (h : Hub) → Heard h → Isolated h
    Heard-Isolated h p = p.0

    guest_set-Meets :
        equals r.action (codes "set") ≡ true → Meets Heard Isolated (ReplyDue c) (guest_set w c r)
    unfolding guest_set
    guest_set-Meets sets =
        Meets-if (truthy r.target) _ _ (λ _. refusal c _ Heard-Isolated)
          (λ own. record {
            at = λ h p.
                (Meets-then {P = Pushing w c.client_id r.content} _ _ (λ _ q. q.0)
                    (notify_and_broadcast-Pushing w c.client_id r.content c.listener (codes "Push")
                      c.machine (some c))
                    (plain_reply c status_ok status_ok-HasNoData (λ _ q. q.0))).at
                  h (p.0, p.1 sets own);
          })

    content_of-Owned :
        (h : Hub) (o : Option Slot)
        → get h.clipboards c.client_id ≡ o
        → Isolated h
        → Owned h.trace c.client_id (content_of o)
    unfolding content_of
    content_of-Owned h none e i = inl refl
    content_of-Owned h (some slot) e i = Every-get _ h.clipboards c.client_id slot i.slots e

    guest_get-Meets : Meets Heard Isolated (ReplyDue c) (guest_get c r)
    unfolding guest_get own_content
    guest_get-Meets =
        Meets-if (truthy r.target || r.wants_json) _ _ (λ _. refusal c _ Heard-Isolated)
          (λ _.
            Meets-gets (λ h. some (ok_data (content_of (get h.clipboards c.client_id))))
              (λ h p. (p.0, ok_data-Due h.trace c _ guest (content_of-Owned h _ refl p.0))))

    registered-Owned :
        (h : Hub) (o : Option Slot)
        → get h.clipboards c.client_id ≡ o
        → Isolated h
        → Owned h.trace c.client_id (registered (w.now h.trace) c.machine o).content
    unfolding registered
    registered-Owned h none e i = inl refl
    registered-Owned h (some slot) e i = Every-get _ h.clipboards c.client_id slot i.slots e

    register-Meets : Meets Heard Isolated (ReplyDue c) (register w c)
    unfolding register
    register-Meets = record {
      at = λ h p. (
        record {
          slots = Every-put _ h.clipboards c.client_id _ (registered-Owned h _ refl p.0) p.0.slots;
          subscribers = p.0.subscribers;
          due = p.0.due;
        },
        no_data-Due h.trace c status_ok status_ok-HasNoData,
      );
    }

    Guests-append :
        (subs : List Connection) → Guests c.client_id subs → Guests c.client_id (subs ++ c ∷ [])
    Guests-append [] g = (refl, guest, tt)
    Guests-append (d ∷ subs) g = (g.0, g.1, Guests-append subs g.2)

    appended-Guests :
        (h : Hub) (o : Option (List Connection))
        → get h.subscribers c.client_id ≡ o
        → Isolated h
        → Guests c.client_id (appended c o)
    unfolding appended
    appended-Guests h none e i = (refl, guest, tt)
    appended-Guests h (some subs) e i =
        Guests-append subs (Every-get Guests h.subscribers c.client_id subs i.subscribers e)

    enter-Meets : Meets Isolated Isolated (ReplyDue c) (enter c)
    unfolding enter
    enter-Meets = record {
      at = λ h i. (
        record {
          slots = i.slots;
          subscribers =
              Every-put Guests h.subscribers c.client_id _ (appended-Guests h _ refl i)
                i.subscribers;
          due = i.due;
        },
        tt,
      );
    }

    greet-Isolated : Keeps Isolated (write w c subscribed)
    unfolding lookup bytes_eq
    greet-Isolated = record {
      at = λ h i. write-Isolated w c subscribed h (no_data-Due h.trace c subscribed refl) i;
    }

    subscribe-Meets : Meets Heard Isolated (ReplyDue c) (subscribe w c)
    unfolding subscribe
    subscribe-Meets = record {
      at = λ h p.
          (Meets-then (write w c subscribed) (enter c) (λ _ i. i) greet-Isolated enter-Meets).at h
            p.0;
    }

    pub handle_guest-Meets : Meets Heard Isolated (ReplyDue c) (handle_guest w c r)
    unfolding handle_guest
    handle_guest-Meets = Meets-if (equals r.action (codes "set")) _ _ guest_set-Meets (λ _.
        Meets-if (equals r.action (codes "get")) _ _ (λ _. guest_get-Meets)
          (λ _.
            Meets-if (equals r.action (codes "register")) _ _ (λ _. register-Meets)
              (λ _.
                Meets-if (equals r.action (codes "subscribe")) _ _ (λ _. subscribe-Meets)
                  (λ _. refusal c _ Heard-Isolated))))
