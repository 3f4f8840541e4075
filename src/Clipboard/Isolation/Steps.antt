-- ===== src/Clipboard/Isolation/Steps.antt =====
-- What the shared steps of the two handlers keep: the slots, the writes and the broadcasts.
use tartarus_nix.Base.{
  ◌≡◌, refl, inl, inr, false, Option, none, some, List, [], ◌∷◌, Text, codes, get, bytes_eq,
  Bool-cases,
}
use tartarus_nix.Base.Effects.Keeps.{
  Keeps, Keeps-pure, Keeps-lift, Keeps-cases, Keeps-bind, Keeps-then,
}
use tartarus_nix.Base.Dicts.Every.{Every-get, Every-put, Every-map}
use tartarus_nix.Json.{Value, Fields, lookup}
use tartarus_nix.Clipboard.Names.{Listener, Mode, get_resolution_mode}
use tartarus_nix.Clipboard.Hub.{
  Connection, Event, received, wrote, notified, Hub, World, ok_data, log, write, notify,
  store_pushed, notify_name, try_write, broadcast, broadcast_to, is_excluded, subscribers_of,
  notify_and_broadcast,
}
use tartarus_nix.Clipboard.Isolation.{Written, Owned, Due, AllDue, Guests, Isolated}

Written-log :
    (e : Event) (trace : List Event) (client : Text) (v : Value)
    → Written trace client v
    → Written (e ∷ trace) client v
Written-log (received c r slots) trace client v h = inr h
Written-log (wrote c m) trace client v h = h
Written-log (notified name action) trace client v h = h

pub Owned-log :
    (e : Event) (trace : List Event) (client : Text) (v : Value)
    → Owned trace client v
    → Owned (e ∷ trace) client v
Owned-log e trace client v (inl empty) = inl empty
Owned-log e trace client v (inr h) = inr (Written-log e trace client v h)

pub log-Isolated : (e : Event) (h : Hub) → AllDue (e ∷ h.trace) → Isolated h → Isolated (log e h)
unfolding log
log-Isolated e h due i = record {
  slots =
      Every-map _ _ (λ client slot. Owned-log e h.trace client slot.content) h.clipboards i.slots;
  subscribers = i.subscribers;
  due = due;
}

pub write-Isolated :
    (w : World) (c : Connection) (m : Fields) (h : Hub)
    → Due h.trace c m
    → Isolated h
    → Isolated (write w c m h).1
unfolding write
write-Isolated w c m h due i = elim (Bool-cases (w.broken h.trace c.handle)) [
  | inl broken ↦ rw broken i
  | inr works ↦ rw works (log-Isolated (wrote c m) h (due, i.due) i)
]

data_of_ok_data : (v u : Value) → lookup (ok_data v) (codes "data") ≡ some u → v ≡ u
unfolding lookup bytes_eq
data_of_ok_data v u e = cc

-- Its answer to a guest whose data it is.
pub ok_data-Due :
    (trace : List Event) (c : Connection) (v : Value)
    → (c.listener.admin ≡ false)
    → Owned trace c.client_id v
    → Due trace c (ok_data v)
ok_data-Due trace c v guest owned =
    (λ g u e. rw (← data_of_ok_data v u e) owned, λ admin. absurd (cc))

module _ (w : World) (client : Text) (v : Value) where
  -- While a value that the client may see is pushed.
  abbrev pub Pushing : Hub → Type 0
  Pushing h = Isolated h × Owned h.trace client v

  try_write-Pushing :
      (c : Connection)
      → c.client_id ≡ client
      → c.listener.admin ≡ false
      → Keeps Pushing (try_write w c (ok_data v))
  unfolding try_write log
  try_write-Pushing c own guest = record {
    at = λ h p. elim (Bool-cases (w.broken h.trace c.handle)) [
      | inl broken ↦ rw broken p
      | inr works ↦ rw works (
        log-Isolated (wrote c (ok_data v)) h (ok_data-Due h.trace c v guest (rw own p.1), p.0.due)
            p.0,
        Owned-log (wrote c (ok_data v)) h.trace client v p.1,
      )
    ];
  }

  broadcast-Pushing :
      (exclude : Option Connection) (subs : List Connection)
      → Guests client subs
      → Keeps Pushing (broadcast w exclude v subs)
  unfolding broadcast
  broadcast-Pushing exclude [] g = Keeps-pure tt
  broadcast-Pushing exclude (c ∷ subs) g =
      Keeps-then _ _
        (Keeps-cases (is_excluded exclude c) _ _ (λ _. Keeps-pure tt)
          (λ _. try_write-Pushing c g.0 g.1))
        (broadcast-Pushing exclude subs g.2)

  subscribers_of-Guests :
      (h : Hub) (o : Option (List Connection))
      → get h.subscribers client ≡ o
      → Isolated h
      → Guests client (subscribers_of o)
  unfolding subscribers_of
  subscribers_of-Guests h none e i = tt
  subscribers_of-Guests h (some subs) e i =
      Every-get Guests h.subscribers client subs i.subscribers e

  broadcast_to-Pushing :
      (exclude : Option Connection) → Keeps Pushing (broadcast_to w exclude v client)
  unfolding broadcast_to
  broadcast_to-Pushing exclude = record {
    at = λ h p. (broadcast-Pushing exclude _ (subscribers_of-Guests h _ refl p.0)).at h p;
  }

  store_pushed-Pushing :
      (mode : Mode) (name : Option Text) → Keeps Pushing (store_pushed w mode client v name)
  unfolding store_pushed
  store_pushed-Pushing mode name = record {
    at = λ h p. (
      record {
        slots = Every-put _ h.clipboards client _ p.1 p.0.slots;
        subscribers = p.0.subscribers;
        due = p.0.due;
      },
      p.1,
    );
  }

  notify_name-Pushing : (action : Text) → Keeps Pushing (notify_name client action)
  unfolding notify_name notify log
  notify_name-Pushing action = record {
    at = λ h p. (log-Isolated (notified _ action) h p.0.due p.0, p.1);
  }

  pub notify_and_broadcast-Pushing :
      (listener : Listener) (action : Text) (name : Option Text) (exclude : Option Connection)
      → Keeps Pushing (notify_and_broadcast w listener client v action name exclude)
  unfolding notify_and_broadcast
  notify_and_broadcast-Pushing listener action name exclude =
      Keeps-bind _ _ (Keeps-lift (get_resolution_mode listener.resolution)) (λ mode.
        Keeps-then _ _ (store_pushed-Pushing mode name)
          (Keeps-then _ _ (notify_name-Pushing action) (broadcast_to-Pushing exclude)))
