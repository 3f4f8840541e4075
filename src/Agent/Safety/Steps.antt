-- ===== src/Agent/Safety/Steps.antt =====
-- The single effects keep a connection safe.
use tartarus_nix.Base.{
  ◌≡◌, ◌⊎◌, Bool, true, false, Option, none, some, List, [], ◌∷◌, Bytes, Text, get, put, get-put,
  bytes_eq, bytes_eq_iff, arith, Bool-cases, Dict, inl, inr,
}
use mathlib.Core.Path.{subst}
use tartarus_nix.Base.Effects.Keeps.{Keeps, keeps_rules}
use tartarus_nix.Agent.Wire.{failure, success}
use tartarus_nix.Agent.Rules.{KeyConfig}
use tartarus_nix.Agent.State.{
  World, Config, Conn, Event, sent, Prompt, Notice, send, send_failure, notify, request, confirm,
  answered,
}
use tartarus_nix.Agent.Identities.{governing_rule, register, note_owner}
use tartarus_nix.Agent.Offers.{Known, Known-later, key-inj}
use tartarus_nix.Agent.Sign.{refuse}
use tartarus_nix.Agent.SessionBind.{record_bind}
use tartarus_nix.Agent.Safety.{Safe, AllJustified, Due, IsPlain, Verified}

module _ (w : World) (cfg : Config) (identity listener : Option Text) where
  abbrev pub IsSafe : Conn → Type 0
  IsSafe = Safe w cfg identity listener

  pub with_event :
      (c : Conn) (e : Event)
      → AllJustified w cfg identity listener (e ∷ c.trace)
      → IsSafe c
      → IsSafe (record c { trace = e ∷ c.trace })
  with_event c e j h = record {
    who = h.who;
    whence = h.whence;
    governed = h.governed;
    upstreams = h.upstreams;
    known = λ blob k found. Known-later w cfg blob k e c.trace (h.known blob k found);
    bound = h.bound;
    justified = j;
  }

  pub send-Safe : (payload : Bytes) → Keeps IsSafe (send payload)
  unfolding send
  send-Safe payload = record { at = λ c h. with_event c _ h.justified h }

  pub send_failure-Safe : Keeps IsSafe send_failure
  unfolding send_failure
  send_failure-Safe = send-Safe (failure ∷ [])

  pub notify-Safe : (critical : Bool) (notice : Notice) → Keeps IsSafe (notify critical notice)
  unfolding notify
  notify-Safe critical notice = record { at = λ c h. with_event c _ h.justified h }

  pub refuse-Safe : (notice : Notice) → Keeps IsSafe (refuse notice)
  unfolding refuse
  refuse-Safe notice = search (keeps_rules, notify-Safe, send_failure-Safe)

  answered-Safe : (prompt : Prompt) (o : Option Bool) → Keeps IsSafe (answered prompt o)
  unfolding answered
  answered-Safe prompt none = record { at = λ c h. h }
  answered-Safe prompt (some b) = record { at = λ c h. with_event c _ h.justified h }

  pub confirm-Safe : (prompt : Prompt) → Keeps IsSafe (confirm w prompt)
  unfolding confirm
  confirm-Safe prompt = record {
    at = λ c h. (answered-Safe prompt (w.confirm c.trace prompt)).at c h;
  }

  -- A request that is due now.
  pub request-Safe_justified :
      (path : Text) (msg : Bytes) (c : Conn)
      → Due w cfg identity listener msg c.trace
      → IsSafe c
      → IsSafe (request w path msg c).1
  unfolding request
  request-Safe_justified path msg c due h = with_event c _ (due, h.justified) h

  -- A plain message is always due.
  pub request-Safe : (path : Text) (msg : Bytes) → IsPlain msg → Keeps IsSafe (request w path msg)
  request-Safe path msg plain = record {
    at = λ c h.
        request-Safe_justified path msg c ((λ s. absurd (plain.0 s)), (λ m. absurd (plain.1 m))) h;
  }

  pub note_owner-Safe :
      (blob : Bytes) (path : Text) (c : Conn) → IsSafe c → IsSafe (note_owner blob path c)
  unfolding note_owner
  note_owner-Safe blob path c h = record {
    who = h.who;
    whence = h.whence;
    governed = h.governed;
    upstreams = h.upstreams;
    known = h.known;
    bound = h.bound;
    justified = h.justified;
  }

  put-Known :
      {t : List Event} (d : Dict KeyConfig) (blob : Bytes) (k : KeyConfig)
      → Known w cfg blob k t
      → ((b : Bytes) (j : KeyConfig) → get d b ≡ some j → Known w cfg b j t)
      → (b : Bytes) (j : KeyConfig) → (bytes_eq blob b ≡ true) ⊎ (bytes_eq blob b ≡ false)
      → get (put d blob k) b ≡ some j
      → Known w cfg b j t
  put-Known {t} d blob k now old b j (inl same) e =
      let found : some k ≡ some j = ground (arith, get-put d blob b k) in
      subst (λ x. Known w cfg x j t) ((bytes_eq_iff blob b).0 same)
        (subst (λ x. Known w cfg blob x t) (key-inj found) now)
  put-Known d blob k now old b j (inr other) e = old b j (ground (arith, get-put d blob b k))

  pub register-Safe :
      (blob : Bytes) (k : KeyConfig) (c : Conn)
      → Known w cfg blob k c.trace
      → IsSafe c
      → IsSafe (register cfg blob k c)
  unfolding register
  register-Safe blob k c now h = record {
    who = h.who;
    whence = h.whence;
    governed = λ b k' e. ground (
      arith,
      get-put c.allowed_keys blob b k,
      get-put c.key_rule blob b (governing_rule cfg c.vm_identity c.listener_name k.id),
      h.governed b k',
    );
    upstreams = h.upstreams;
    known =
        λ b k' e. put-Known c.allowed_keys blob k now h.known b k' (Bool-cases (bytes_eq blob b)) e;
    bound = h.bound;
    justified = h.justified;
  }

  bound_after :
      (d : Dict Bytes) (session_id trust : Bytes)
      → ((t : Bytes) → some trust ≡ some t → Verified w session_id t)
      → ((s t : Bytes) → get d s ≡ some t → Verified w s t)
      → (s t : Bytes) → (bytes_eq session_id s ≡ true) ⊎ (bytes_eq session_id s ≡ false)
      → get (put d session_id trust) s ≡ some t
      → Verified w s t
  bound_after d session_id trust v old s t (inl same) e =
      subst (λ x. Verified w x t) ((bytes_eq_iff session_id s).0 same)
        (v t (ground (arith, get-put d session_id s trust)))
  bound_after d session_id trust v old s t (inr other) e =
      old s t (ground (arith, get-put d session_id s trust))

  pub record_bind-Safe :
      (session_id : Bytes) (o : Option Bytes)
      → ((trust : Bytes) → o ≡ some trust → Verified w session_id trust)
      → Keeps IsSafe (record_bind session_id o)
  unfolding record_bind send
  record_bind-Safe session_id none v = send_failure-Safe
  record_bind-Safe session_id (some trust) v = record {
    at = λ c h. record {
      who = h.who;
      whence = h.whence;
      governed = h.governed;
      upstreams = h.upstreams;
      known = λ blob k found.
          Known-later w cfg blob k (sent (success ∷ [])) c.trace (h.known blob k found);
      bound = λ s t e.
          bound_after c.bound_destinations session_id trust v h.bound s t
            (Bool-cases (bytes_eq session_id s)) e;
      justified = h.justified;
    };
  }
