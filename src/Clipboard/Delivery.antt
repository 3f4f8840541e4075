-- ===== src/Clipboard/Delivery.antt =====
-- Where the data of a push to clipboard-bridge.py arrives: in the slot, and at each subscriber.
use tartarus_nix.Base.{
  ◌≡◌, refl, inl, inr, false, Option, some, List, [], ◌∷◌, Text, codes, get, put, get-put_self,
  bytes_eq, Bool-cases, if◌then◌else◌,
}
use tartarus_nix.Base.Effects.{done, ◌>>◌}
use tartarus_nix.Json.{Value, string, equals, truthy}
use tartarus_nix.Clipboard.Names.{Listener, Slot, Mode, get_resolution_mode}
use tartarus_nix.Clipboard.Hub.{
  Connection, Request, Event, wrote, notified, Hub, World, status_ok, ok_data, log, try_write,
  broadcast, broadcast_to, is_excluded, subscribers_of, store_slot, store_pushed, pushed_name,
  slot_name, notify_name, notify, notify_and_broadcast,
}
use tartarus_nix.Clipboard.Handlers.{content_of, guest_set, guest_get, own_content, handle_guest}

-- The writes that a broadcast makes, newest first, to those whose connection is up.
abbrev pub delivered : World → Option Connection → Value → List Connection → List Event → List Event
delivered w exclude v [] before = before
delivered w exclude v (c ∷ subs) before =
    let skipped = delivered w exclude v subs before in
    let sent = delivered w exclude v subs (wrote c (ok_data v) ∷ before) in
    if is_excluded exclude c then skipped else if w.broken before c.handle then skipped else sent

module _ (w : World) (exclude : Option Connection) (v : Value) where
  broadcast-delivered :
      (subs : List Connection) (h : Hub)
      → broadcast w exclude v subs h
        ≡ (done tt, record h { trace = delivered w exclude v subs h.trace })
  unfolding broadcast try_write log
  broadcast-delivered [] h = refl
  broadcast-delivered (c ∷ subs) h = elim (Bool-cases (is_excluded exclude c)) [
    | inl skip ↦ rw (skip, broadcast) (broadcast-delivered subs h)
    | inr send ↦ elim (Bool-cases (w.broken h.trace c.handle)) [
      | inl broken ↦ rw (send, broken) (broadcast-delivered subs h)
      | inr works ↦ rw (send, works) (broadcast-delivered subs (log (wrote c (ok_data v)) h))
    ]
  ]

-- The slot that a push leaves.
abbrev pub pushed : World → Mode → Text → Value → Option Text → Hub → Slot
pushed w mode client v name h = record {
  content = v;
  updated = w.now h.trace;
  name = pushed_name w.directory h.clipboards mode client name;
}

module _ (w : World) (listener : Listener) (client : Text) (v : Value) (action : Text)
    (name : Option Text) (exclude : Option Connection) where
  push_mode :
      (mode : Mode) (h : Hub)
      → (do
        store_pushed w mode client v name
        notify_name client action
        broadcast_to w exclude v client)
          h
        ≡ (
          done tt,
          record h {
            clipboards = put h.clipboards client (pushed w mode client v name h);
            trace =
                delivered w exclude v
                  (subscribers_of (get h.subscribers client))
                  (notified (pushed w mode client v name h).name action ∷ h.trace);
          },
        )
  unfolding store_pushed store_slot notify_name notify log broadcast_to slot_name
  push_mode mode h =
      rw get-put_self
        (broadcast-delivered w exclude v (subscribers_of (get h.subscribers client)) _)

  -- What a push does to the state.
  pub notify_and_broadcast-delivered :
      (mode : Mode) (h : Hub)
      → get_resolution_mode listener.resolution ≡ some mode
      → notify_and_broadcast w listener client v action name exclude h ≡ (
        done tt,
        record h {
          clipboards = put h.clipboards client (pushed w mode client v name h);
          trace =
              delivered w exclude v
                (subscribers_of (get h.subscribers client))
                (notified (pushed w mode client v name h).name action ∷ h.trace);
        },
      )
  unfolding notify_and_broadcast
  notify_and_broadcast-delivered mode h e = rw e (push_mode mode h)

-- A request of a guest for its own slot.
abbrev pub OwnRequest : Request → Text → Type 0
OwnRequest r action = (r.action ≡ some (string action)) × (truthy r.target ≡ false)

-- The state that a guest's push leaves.
abbrev pub after_push : World → Connection → Request → Mode → Hub → Hub
after_push w c r mode h = record h {
  clipboards = put h.clipboards c.client_id (pushed w mode c.client_id r.content c.machine h);
  trace =
      delivered w (some c) r.content (subscribers_of (get h.subscribers c.client_id))
        (notified (pushed w mode c.client_id r.content c.machine h).name (codes "Push") ∷ h.trace);
}

module _ (w : World) (c : Connection) (r : Request) (mode : Mode) (h : Hub)
    (sets : OwnRequest r (codes "set"))
    (resolves : get_resolution_mode c.listener.resolution ≡ some mode) where
  guest_set-delivered : handle_guest w c r h ≡ (done (some status_ok), after_push w c r mode h)
  unfolding handle_guest guest_set equals bytes_eq
  guest_set-delivered = rw (
    sets.0,
    sets.1,
    notify_and_broadcast-delivered w c.listener c.client_id r.content (codes "Push") c.machine
        (some c) mode h resolves,
  )

  -- What a guest sets, every connection of the same client gets, and each of its subscribers but the
  -- writer is sent once, if its connection takes the write.
  pub guest_set-get :
      (reader : Connection) (q : Request)
      → reader.client_id ≡ c.client_id
      → OwnRequest q (codes "get")
      → q.wants_json ≡ false
      → (handle_guest w c r h ≡ (done (some status_ok), after_push w c r mode h))
        × (handle_guest w reader q (after_push w c r mode h)
            ≡ (done (some (ok_data r.content)), after_push w c r mode h))
  unfolding handle_guest guest_get own_content content_of equals bytes_eq
  guest_set-get reader q same gets plain = (
    guest_set-delivered,
    rw (
      gets.0,
      gets.1,
      plain,
      same,
      get-put_self h.clipboards c.client_id (pushed w mode c.client_id r.content c.machine h),
    ),
  )
