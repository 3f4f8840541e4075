-- ===== src/Clipboard/Isolation.antt =====
-- Whose data reaches whom through clipboard-bridge.py: the requests that account for what a slot
-- holds and for what is written to a connection.
pub mod Steps
pub mod Handlers
pub mod Runs
use tartarus_nix.Base.{
  ℕ, ◌≡◌, ◌⊎◌, Bool, true, false, Option, none, some, List, [], ◌∷◌, Bytes, Text, Dict, codes,
}
use tartarus_nix.Base.Dicts.Every.{Every}
use tartarus_nix.Json.{Value, string, array, Fields, lookup, equals, truthy}
use tartarus_nix.Clipboard.Rules.{allow}
use tartarus_nix.Clipboard.Names.{Slot, resolve_target_to_id}
use tartarus_nix.Clipboard.Hub.{Connection, Request, Event, received, wrote, notified, Hub, ok_data}
use tartarus_nix.Clipboard.Handlers.{verdict, target_text, clients_list, got}

-- A request may write the slot of a client: the client's own, or an admin's that the rules allow and
-- whose target names the client.
abbrev pub MayWrite : Connection → Request → Dict Slot → Text → Type 0
MayWrite c r slots client =
    ((c.listener.admin ≡ false) × (truthy r.target ≡ false) × (c.client_id ≡ client))
    ⊎ ((target : Text) × (c.listener.admin ≡ true)
        × (target_text r.target ≡ some target)
        × (verdict c r target ≡ allow)
        × (resolve_target_to_id slots c.listener target ≡ client))

abbrev pub Writes : Connection → Request → Dict Slot → Text → Value → Type 0
Writes c r slots client v =
    (equals r.action (codes "set") ≡ true) × (r.content ≡ v) × MayWrite c r slots client

-- A request before wrote the value to the client's slot.
abbrev pub Written : List Event → Text → Value → Type 0
Written [] client v = ⊥
Written (received c r slots ∷ before) client v = Writes c r slots client v ⊎ Written before client v
Written (wrote c m ∷ before) client v = Written before client v
Written (notified name action ∷ before) client v = Written before client v

-- What a client may see.
abbrev pub Owned : List Event → Text → Value → Type 0
Owned trace client v = (v ≡ string []) ⊎ Written trace client v

-- The answer that an admin's request gets by the rules.
abbrev pub Answers : Connection → Request → Dict Slot → Fields → Type 0
Answers c r slots m =
    (target : Text) × (target_text r.target ≡ some target)
    × (verdict c r target ≡ allow)
    × (((equals r.action (codes "clients") ≡ true) × (m ≡ ok_data (array (clients_list slots))))
        ⊎ ((equals r.action (codes "get") ≡ true) × (m ≡ ok_data (got slots c.listener r target))))

-- The last request, which came from the connection itself, is answered.
abbrev pub Answered : List Event → Connection → Fields → Type 0
Answered [] c m = ⊥
Answered (received d r slots ∷ before) c m = (d ≡ c) × Answers c r slots m
Answered (wrote d n ∷ before) c m = Answered before c m
Answered (notified name action ∷ before) c m = Answered before c m

abbrev pub HasNoData : Fields → Type 0
HasNoData m = lookup m (codes "data") ≡ none

-- A message that may be written: to a guest's connection what the client may see, to an admin's
-- what answers the request.
abbrev pub Due : List Event → Connection → Fields → Type 0
Due before c m =
    (c.listener.admin ≡ false
      → (v : Value) → lookup m (codes "data") ≡ some v
      → Owned before c.client_id v)
    × (c.listener.admin ≡ true → HasNoData m ⊎ Answered before c m)

abbrev pub AllDue : List Event → Type 0
AllDue [] = Unit {0}
AllDue (wrote c m ∷ before) = Due before c m × AllDue before
AllDue (received c r slots ∷ before) = AllDue before
AllDue (notified name action ∷ before) = AllDue before

-- The subscribers of a client are its guest connections.
abbrev pub Guests : Text → List Connection → Type 0
Guests client [] = Unit {0}
Guests client (c ∷ subs) = (c.client_id ≡ client) × (c.listener.admin ≡ false) × Guests client subs

abbrev pub SlotsOwned : List Event → Dict Slot → Type 0
SlotsOwned trace = Every (λ client slot. Owned trace client slot.content)

pub record Isolated (h : Hub) : Type 0 where
  pub slots : SlotsOwned h.trace h.clipboards
  pub subscribers : Every Guests h.subscribers
  pub due : AllDue h.trace
