-- ===== src/Clipboard/Isolation/Runs.antt =====
-- Every run of the clipboard server keeps the clients apart.
use tartarus_nix.Base.{
  ℕ, ◌≡◌, refl, inl, inr, Bool, true, false, Option, none, some, List, [], ◌∷◌, Bytes, Text, Dict,
  get, ◌==◌, Bool-cases, if◌then◌else◌,
}
use tartarus_nix.Base.Effects.{Outcome, done, raised, ◌>>=◌}
use tartarus_nix.Base.Effects.Keeps.{Keeps, Keeps-pure}
use tartarus_nix.Base.Effects.Meets.{Meets, Meets-bind}
use tartarus_nix.Base.Dicts.Every.{Every, Every-get, Every-put, Every-remove}
use tartarus_nix.Json.{Fields}
use tartarus_nix.Clipboard.Names.{Slot}
use tartarus_nix.Clipboard.Hub.{
  Connection, Request, received, wrote, Hub, World, log, write, is_stale, unexpired, expire_clients,
}
use tartarus_nix.Clipboard.Handlers.{unauthorized, handle_admin, handle_guest}
use tartarus_nix.Clipboard.Loop.{
  Input, garbled, parsed, closed, read_request, receive, respond, write_response, serve_request,
  was_written, write_error, recover, serve_value, serve_line, is_in, without, left,
  subscribers_without, unsubscribe, end_connection, settle, wait_on, Step, input, expiry, step, run,
  idle,
}
use tartarus_nix.Clipboard.Isolation.{Guests, Isolated}
use tartarus_nix.Clipboard.Isolation.Steps.{log-Isolated, write-Isolated}
use tartarus_nix.Clipboard.Isolation.Handlers.{
  ReplyDue, no_data-Due, unauthorized-HasNoData, handle_guest-Meets,
}
use tartarus_nix.Clipboard.Isolation.Handlers.Admins.{handle_admin-Meets}

module _ (w : World) (c : Connection) where
  -- A reply that is due when it is returned is due when it is written.
  write_response-Meets :
      (o : Option Fields)
      → Meets (λ h. Isolated h × ReplyDue c o h) Isolated (λ b h. Unit) (write_response w c o)
  unfolding write_response write log
  write_response-Meets none = record { at = λ h p. (p.0, tt) }
  write_response-Meets (some m) = record {
    at = λ h p. elim (Bool-cases (w.broken h.trace c.handle)) [
      | inl broken ↦ rw broken (p.0, tt)
      | inr works ↦ rw works (log-Isolated (wrote c m) h (p.1, p.0.due) p.0, tt)
    ];
  }

  served :
      {P : Hub → Type 0} (m : Hub → Outcome (Option Fields) × Hub)
      → Meets P Isolated (ReplyDue c) m
      → (h : Hub) → P h
      → Isolated ((m >>= write_response w c) h).1
  served m k h p = ((Meets-bind m (write_response w c) (λ _ i. i) k write_response-Meets).at h p).0

  responded-Isolated :
      (admin : Bool) (r : Request) (h : Hub)
      → c.listener.admin ≡ admin
      → Isolated h
      → Isolated
          (((if admin then handle_admin w c r else handle_guest w c r) >>= write_response w c)
            (log (received c r h.clipboards) h)).1
  unfolding log
  responded-Isolated true r h admin i =
      served (handle_admin w c r) (handle_admin-Meets w c admin r) _
        (log-Isolated (received c r h.clipboards) h i.due i, (h.trace, refl))
  responded-Isolated false r h guest i =
      served (handle_guest w c r) (handle_guest-Meets w c guest r) _ (
        log-Isolated (received c r h.clipboards) h i.due i,
        λ sets own. inr (inl (sets, refl, inl (guest, own, refl))),
      )

  serve_request-Isolated : (r : Request) → Keeps Isolated (serve_request w c r)
  unfolding serve_request receive respond
  serve_request-Isolated r = record { at = λ h i. responded-Isolated c.listener.admin r h refl i }

  was_written-Isolated : (o : Outcome (Unit {0}) × Hub) → Isolated o.1 → Isolated (was_written o).1
  unfolding was_written
  was_written-Isolated (done u, h) i = i
  was_written-Isolated (raised, h) i = i

  write_error-Isolated : (text : Text) → Keeps Isolated (write_error w c text)
  unfolding write_error
  write_error-Isolated text = record {
    at = λ h i. was_written-Isolated (write w c (unauthorized text) h) (
        write-Isolated w c (unauthorized text) h
          (no_data-Due h.trace c (unauthorized text) (unauthorized-HasNoData text)) i);
  }

  recover-Isolated : (o : Outcome Bool × Hub) → Isolated o.1 → Isolated (recover w c o).1
  unfolding recover
  recover-Isolated (done b, h) i = i
  recover-Isolated (raised, h) i = (write_error-Isolated (w.error_text h.trace)).at h i

  serve_value-Isolated : (o : Option Request) → Keeps Isolated (serve_value w c o)
  unfolding serve_value
  serve_value-Isolated none = record { at = λ h i. recover-Isolated (raised, h) i }
  serve_value-Isolated (some r) = record {
    at = λ h i. recover-Isolated (serve_request w c r h) ((serve_request-Isolated r).at h i);
  }

  serve_line-Isolated : (line : Input) → Keeps Isolated (serve_line w c line)
  unfolding serve_line
  serve_line-Isolated (garbled text) = write_error-Isolated text
  serve_line-Isolated (parsed v) = serve_value-Isolated (read_request v)
  serve_line-Isolated closed = Keeps-pure false

module _ (c : Connection) where
  without-Guests :
      (client : Text) (subs : List Connection) → Guests client subs → Guests client (without c subs)
  unfolding without
  without-Guests client [] g = tt
  without-Guests client (d ∷ subs) g = elim (Bool-cases (d.handle == c.handle)) [
    | inl same ↦ rw same g.2
    | inr other ↦ rw other (g.0, g.1, without-Guests client subs g.2)
  ]

  left-Guests :
      (d : Dict (List Connection)) (subs : List Connection)
      → Guests c.client_id subs
      → Every Guests d
      → Every Guests (left c.client_id d subs)
  unfolding left
  left-Guests d [] g e = Every-remove Guests d c.client_id e
  left-Guests d (s ∷ subs) g e = Every-put Guests d c.client_id (s ∷ subs) g e

  subscribers_without-Guests :
      (d : Dict (List Connection)) (o : Option (List Connection))
      → get d c.client_id ≡ o
      → Every Guests d
      → Every Guests (subscribers_without c d o)
  unfolding subscribers_without
  subscribers_without-Guests d none e g = Every-remove Guests d c.client_id g
  subscribers_without-Guests d (some subs) e g =
      left-Guests d (without c subs)
        (without-Guests c.client_id subs (Every-get Guests d c.client_id subs g e)) g

  unsubscribe-Isolated : (h : Hub) → Isolated h → Isolated (unsubscribe c h)
  unfolding unsubscribe
  unsubscribe-Isolated h i = record {
    slots = i.slots;
    subscribers = subscribers_without-Guests h.subscribers _ refl i.subscribers;
    due = i.due;
  }

  wait_on-Isolated : (line : Input) (h : Hub) → Isolated h → Isolated (wait_on c line h)
  unfolding wait_on
  wait_on-Isolated (garbled text) h i = i
  wait_on-Isolated (parsed v) h i = i
  wait_on-Isolated closed h i = unsubscribe-Isolated h i

  ended-Isolated :
      (b : Bool) (h : Hub) → Isolated h → Isolated (if b then h else end_connection c h)
  unfolding end_connection
  ended-Isolated true h i = i
  ended-Isolated false h i = record { slots = i.slots; subscribers = i.subscribers; due = i.due }

  settle-Isolated : (o : Outcome Bool × Hub) → Isolated o.1 → Isolated (settle c o)
  unfolding settle
  settle-Isolated (done true, h) i = i
  settle-Isolated (done false, h) i = ended-Isolated (is_in c.handle h.waiting) h i
  settle-Isolated (raised, h) i = ended-Isolated (is_in c.handle h.waiting) h i

unexpired-Owned :
    (P : Bytes → Slot → Type 0) (subscribers : Dict (List Connection)) (now : ℕ) (slots : Dict Slot)
    → Every P slots
    → Every P (unexpired subscribers now slots)
unfolding unexpired
unexpired-Owned P subscribers now [] e = tt
unexpired-Owned P subscribers now ((client, slot) ∷ slots) e =
    elim (Bool-cases (is_stale subscribers now client slot)) [
      | inl stale ↦ rw stale (unexpired-Owned P subscribers now slots e.1)
      | inr fresh ↦ rw fresh (e.0, unexpired-Owned P subscribers now slots e.1)
    ]

module _ (w : World) where
  step-Isolated : (s : Step) (h : Hub) → Isolated h → Isolated (step w s h)
  unfolding step expire_clients
  step-Isolated (input c line) h i = elim (Bool-cases (is_in c.handle h.ended)) [
    | inl over ↦ rw over i
    | inr going ↦ rw going (elim (Bool-cases (is_in c.handle h.waiting)) [
      | inl waits ↦ rw waits (wait_on-Isolated c line h i)
      | inr serves ↦
          rw serves
            (settle-Isolated c (serve_line w c line h) ((serve_line-Isolated w c line).at h i))
    ])
  ]
  step-Isolated expiry h i = record {
    slots = unexpired-Owned _ h.subscribers (w.now h.trace) h.clipboards i.slots;
    subscribers = i.subscribers;
    due = i.due;
  }

  run_keeps : (steps : List Step) (h : Hub) → Isolated h → Isolated (run w steps h)
  unfolding run
  run_keeps [] h i = i
  run_keeps (s ∷ steps) h i = run_keeps steps (step w s h) (step-Isolated s h i)

  -- However the threads of the connections take turns: a guest is written only what is empty or what
  -- an earlier request wrote to its own slot, the client's own request or one of an admin that the
  -- rules allow; an admin is written only errors, plain acknowledgements and the exact answer to a
  -- request of its own that the rules allow; the slots hold no other data, and the subscribers of a
  -- client are its own guest connections.
  pub run-Isolated : (steps : List Step) → Isolated (run w steps idle)
  run-Isolated steps = run_keeps steps idle (record { slots = tt; subscribers = tt; due = tt })
