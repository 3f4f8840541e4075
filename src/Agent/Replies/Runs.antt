-- ===== src/Agent/Replies/Runs.antt =====
-- One request, one reply: the handler of sign requests, the dispatch and the whole loop.
use tartarus_nix.Base.{
  ℕ, suc, ◌+◌, ◌<◌, ◌≤◌, ◌≡◌, refl, Bool, true, false, Option, none, some, List, [], ◌∷◌, Bytes,
  Text, get, contains, arith, inl, inr, ◌==◌, ◌||◌, not, Bool-cases,
}
use tartarus_nix.Agent.Wire.{failure}
use tartarus_nix.Agent.Rules.{KeyConfig, Rule, is_deny}
use tartarus_nix.Agent.State.{World, Config, Conn, Handle, Purpose}
use tartarus_nix.Base.Effects.{Outcome, done, raised, continue}
use mathlib.Core.Path.{subst}
use tartarus_nix.Agent.Sign.{
  Relayed, settle, usable, keep_last, sign_loop, sign_via_upstream, candidates, answer_sign,
  policy_for, sign_authorized, sign_ruled, sign_known, sign_parsed, sign_fields,
  handle_sign_request,
}
use tartarus_nix.Agent.Loop.{dispatch, serve}
use tartarus_nix.Agent.Replies.{
  replies, Told, Replies, Replies-pure, Replies-raise, Replies-lift, Replies-if, Replies-test,
  Replies-bind, Replies-then,
}
use tartarus_nix.Agent.Replies.Handlers.{
  Replies-send, Replies-send_failure, Replies-notify, Replies-request, Replies-refuse,
  Replies-authorize, Replies-identities, Replies-add, Replies-remove, Replies-extension,
}

Replies-settle :
    (path : Text) (resp : Option Bytes) (rest : Handle Relayed)
    → Replies 0 rest
    → Replies 0 (settle path resp rest)
unfolding settle
Replies-settle path resp rest k = record {
  at = λ c. elim (Bool-cases (usable resp)) [
    | inl u ↦ rw (u, settle) (omega arith)
    | inr u ↦ rw (u, settle) (k.at c)
  ];
}

Replies-answer_sign :
    (rule : Rule) (k : KeyConfig) (purpose : Purpose) (o : Option Bytes)
    → Replies 1 (answer_sign rule k purpose o)
unfolding answer_sign
Replies-answer_sign rule k purpose none = Replies-send_failure
Replies-answer_sign rule k purpose (some []) = Replies-raise 1
Replies-answer_sign rule k purpose (some (t ∷ body)) =
    Replies-if (t == failure) _ _ (Replies-send (t ∷ body)) (
      Replies-then 1 0 _ _ (Replies-send (t ∷ body))
        (Replies-if rule.notify _ _ (Replies-notify false _) (Replies-pure tt)))

module _ (w : World) (agents : List Text) (raw_msg : Bytes) where
  Replies-sign_loop :
      (paths seen : List Text) (last : Option Bytes) (last_path : Option Text)
      → Replies 0 (sign_loop w agents raw_msg paths seen last last_path)
  unfolding sign_loop
  Replies-sign_loop [] seen last last_path = Replies-pure _
  Replies-sign_loop (path ∷ paths) seen last last_path =
      elim (Bool-cases (contains path seen || not (contains path agents))) [
        | inl e ↦ rw (e, sign_loop) (Replies-sign_loop paths seen last last_path)
        | inr e ↦
            rw (e, sign_loop)
              (Replies-bind 0 0 _ _ (Replies-request w path raw_msg) λ resp.
                Replies-settle path resp _
                  (Replies-sign_loop paths (path ∷ seen) (keep_last resp last) (some path)))
      ]

  Replies-sign_via :
      (key_blob : Bytes) (k : KeyConfig) → Replies 0 (sign_via_upstream w agents key_blob k raw_msg)
  unfolding sign_via_upstream
  Replies-sign_via key_blob k = record {
    at = λ c.
        (Replies-sign_loop (candidates (get c.key_upstream key_blob) k agents) [] none none).at c;
  }

  Replies-authorized :
      (key_blob : Bytes) (purpose : Purpose) (k : KeyConfig) (rule : Rule) (b : Bool)
      → Replies 1 (sign_authorized w agents raw_msg key_blob purpose k rule b)
  unfolding sign_authorized
  Replies-authorized key_blob purpose k rule false = Replies-send_failure
  Replies-authorized key_blob purpose k rule true =
      Replies-bind 0 1 _ _ (Replies-sign_via key_blob k) λ r. Replies-answer_sign rule k purpose r.0

  Replies-ruled :
      (key_blob to_sign : Bytes) (purpose : Purpose) (k : KeyConfig) (rule : Rule)
      → Replies 1 (sign_ruled w agents raw_msg key_blob to_sign purpose k rule)
  unfolding sign_ruled
  Replies-ruled key_blob to_sign purpose k rule =
      Replies-test (λ c. is_deny (policy_for rule purpose)) _ _ (Replies-refuse _)
        (Replies-test _ _ _ (Replies-refuse _) (
          Replies-bind 0 1 _ _ (Replies-authorize w (policy_for rule purpose) _)
            λ b. Replies-authorized key_blob purpose k rule b))

  Replies-known :
      (key_blob to_sign : Bytes) (purpose : Purpose) (k : Option KeyConfig) (rule : Option Rule)
      → Replies 1 (sign_known w agents raw_msg key_blob to_sign purpose k rule)
  unfolding sign_known
  Replies-known key_blob to_sign purpose none rule = Replies-refuse _
  Replies-known key_blob to_sign purpose (some k) none = Replies-raise 1
  Replies-known key_blob to_sign purpose (some k) (some rule) =
      Replies-ruled key_blob to_sign purpose k rule

  Replies-sign : Replies 1 (handle_sign_request w agents raw_msg)
  unfolding handle_sign_request sign_parsed
  Replies-sign =
      Replies-bind 0 1 _ _ (Replies-lift (sign_fields raw_msg))
        λ f. record { at = λ c. (Replies-known f.0 f.1 _ _ _).at c }

module _ (w : World) (cfg : Config) (agents : List Text) where
  Replies-dispatch : (mtype : ℕ) (msg : Bytes) → Replies 1 (dispatch w cfg agents mtype msg)
  unfolding dispatch
  Replies-dispatch mtype msg = Replies-if _ _ _ (Replies-identities w cfg agents msg) (
      Replies-if _ _ _ (Replies-sign w agents msg) (
        Replies-if _ _ _ (Replies-add w cfg agents msg) (
          Replies-if _ _ _ (Replies-remove w cfg agents msg)
            (Replies-if _ _ _ (Replies-extension w msg) (Replies-refuse _)))))

-- The messages that the loop takes: those before the first empty one.
pub requests : List Bytes → ℕ
requests [] = 0
requests ([] ∷ later) = 0
requests ((t ∷ body) ∷ later) = 1 + requests later

counted : {A : Type 0} → Outcome A → ℕ → ℕ
counted (done a) count = suc count
counted raised count = 0

-- How many requests a run handles without an exception.
pub handled : World → Config → List Text → List Bytes → Conn → ℕ
unfolding counted
handled w cfg agents [] c = 0
handled w cfg agents ([] ∷ later) c = 0
handled w cfg agents ((t ∷ body) ∷ later) c =
    let (r, c') = dispatch w cfg agents t (t ∷ body) c in counted r (handled w cfg agents later c')

-- A run that returns has handled all its requests, with a reply to each. One that an exception ends
-- has not, with a reply to each that it handled and at most one to the request that raised.
abbrev pub Served : {A : Type 0} → ℕ → ℕ → ℕ → Outcome A → ℕ → Type 0
Served total count before (done a) behind = (count ≡ total) × (behind ≡ before + total)
Served total count before raised behind =
    (count < total) × (before + count ≤ behind) × (behind ≤ before + suc count)

-- A request that was handled, before the others.
Served-more :
    {A : Type 0} (total count before : ℕ) (r : Outcome A) (behind : ℕ)
    → Served total count (before + 1) r behind
    → Served (1 + total) (suc count) before r behind
Served-more total count before (done a) behind h = (omega arith, omega arith)
Served-more total count before raised behind h = (omega arith, omega arith, omega arith)

Served-step :
    (total count before : ℕ) (r : Outcome (Unit {0})) (m : Handle (Unit {0})) (c : Conn)
    → Told 1 before r (replies c.trace)
    → Served total count (replies c.trace) (m c).0 (replies (m c).1.trace)
    → Served
        (1 + total)
        (counted r count)
        before
        (continue r (λ _. m) c).0
        (replies (continue r (λ _. m) c).1.trace)
unfolding counted
Served-step total count before raised m c told h = (omega arith, omega (arith, told.0), told.1)
Served-step total count before (done a) m c told h =
    Served-more total count before (m c).0 (replies (m c).1.trace)
      (subst (λ n. Served total count n (m c).0 (replies (m c).1.trace)) told h)

-- A run of a connection that ends with the stream or an empty message has handled all the requests
-- before it and has sent exactly one reply to each, whichever handler and branch each of them took.
-- One that an exception ends has sent exactly one reply to each request before the one that raised,
-- and at most one to that.
pub serve_one_reply :
    (w : World) (cfg : Config) (agents : List Text) (msgs : List Bytes) (c : Conn)
    → Served
        (requests msgs)
        (handled w cfg agents msgs c)
        (replies c.trace)
        (serve w cfg agents msgs c).0
        (replies (serve w cfg agents msgs c).1.trace)
unfolding serve requests handled
serve_one_reply w cfg agents [] c = (refl, omega arith)
serve_one_reply w cfg agents ([] ∷ later) c = (refl, omega arith)
serve_one_reply w cfg agents ((t ∷ body) ∷ later) c =
    let (r, c') = dispatch w cfg agents t (t ∷ body) c in
    Served-step (requests later) (handled w cfg agents later c') (replies c.trace) r
      (serve w cfg agents later) c' ((Replies-dispatch w cfg agents t (t ∷ body)).at c)
      (serve_one_reply w cfg agents later c')
