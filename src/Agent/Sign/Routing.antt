-- ===== src/Agent/Sign/Routing.antt =====
-- Which agents a sign request is relayed to: each at most once, and every one before it fails.
use mathlib.Core.List.{append_assoc}
use tartarus_nix.Base.{
  ◌≡◌, refl, sym, ap, ◌∙◌, ◌⊎◌, inl, inr, true, false, not, ◌||◌, Option, none, some, List, [], ◌∷◌,
  ◌++◌, Bytes, Text, get, contains, bytes_eq, bytes_eq_iff, bytes_eq_refl, arith, Bool-cases,
}
use tartarus_nix.Base.Effects.{Outcome, done, raised}
use tartarus_nix.Agent.Rules.{KeyConfig}
use tartarus_nix.Agent.State.{World, Conn, Handle, Event, sent, asked, prompted, notified, request}
use tartarus_nix.Agent.Sign.{
  Relayed, usable, keep_last, settle, sign_loop, candidates, not_among, sign_via_upstream,
}

-- The agents that were asked, the last first.
unfoldable pub asked_of : List Event → List Text
asked_of [] = []
asked_of (asked path msg answer ∷ l) = path ∷ asked_of l
asked_of (sent _ ∷ l) = asked_of l
asked_of (prompted _ _ ∷ l) = asked_of l
asked_of (notified _ _ ∷ l) = asked_of l

abbrev pub Distinct : List Text → Type 0
Distinct [] = Unit {0}
Distinct (x ∷ l) = (contains x l ≡ false) × Distinct l

abbrev answer_of : Outcome Relayed → Option Bytes
answer_of (done r) = r.0
answer_of raised = none

-- What a loop over `paths` does, from `c` to `out`.
pub record Relays (raw_msg : Bytes) (agents paths seen : List Text) (c : Conn)
    (out : Outcome Relayed × Conn) : Type 0 where
  pub new : List Event
  pub grown : out.1.trace ≡ new ++ c.trace
  pub distinct : Distinct (asked_of new)
  pub connected :
      (p : Text)
      → contains p (asked_of new) ≡ true
      → (contains p seen ≡ false) × (contains p agents ≡ true)
  pub exhausted :
      usable (answer_of out.0) ≡ false
      → (p : Text) → contains p paths ≡ true
      → contains p agents ≡ true
      → (contains p seen ≡ true) ⊎ (contains p (asked_of new) ≡ true)

contains-snoc :
    (p x : Text) (l : List Text) → contains p (l ++ x ∷ []) ≡ (contains p l || bytes_eq p x)
unfolding contains
contains-snoc p x [] = ground arith
contains-snoc p x (y ∷ l) = ground (arith, contains-snoc p x l)

Distinct-snoc :
    (x : Text) (l : List Text) → Distinct l → contains x l ≡ false → Distinct (l ++ x ∷ [])
unfolding contains
Distinct-snoc x [] d h = (refl, tt)
Distinct-snoc x (y ∷ l) d h = (
  ground (arith, contains-snoc y x l, d.0, bytes_eq_iff x y, bytes_eq_iff y x),
  Distinct-snoc x l d.1 (ground arith),
)

asked_of-snoc :
    (new : List Event) (path : Text) (msg : Bytes) (answer : Option Bytes)
    → asked_of (new ++ asked path msg answer ∷ []) ≡ asked_of new ++ path ∷ []
unfolding asked_of
asked_of-snoc [] path msg answer = refl
asked_of-snoc (asked p m a ∷ new) path msg answer =
    ap (λ l. p ∷ l) (asked_of-snoc new path msg answer)
asked_of-snoc (sent _ ∷ new) path msg answer = asked_of-snoc new path msg answer
asked_of-snoc (prompted _ _ ∷ new) path msg answer = asked_of-snoc new path msg answer
asked_of-snoc (notified _ _ ∷ new) path msg answer = asked_of-snoc new path msg answer

module _ (w : World) (agents : List Text) (raw_msg : Bytes) where
  skip_path :
      (path : Text) (paths seen : List Text) (c : Conn) (out : Outcome Relayed × Conn)
      → (contains path seen || not (contains path agents)) ≡ true
      → Relays raw_msg agents paths seen c out
      → Relays raw_msg agents (path ∷ paths) seen c out
  unfolding contains
  skip_path path paths seen c out e r = record {
    new = r.new;
    grown = r.grown;
    distinct = r.distinct;
    connected = r.connected;
    exhausted = λ u p i a. ground (arith, bytes_eq_iff p path, r.exhausted u p);
  }

  ask_path :
      (path : Text) (paths seen : List Text) (c : Conn) (answer : Option Bytes)
      (out : Outcome Relayed × Conn)
      → (contains path seen || not (contains path agents)) ≡ false
      → Relays raw_msg agents paths
          (path ∷ seen)
          (record c { trace = asked path raw_msg answer ∷ c.trace })
          out
      → Relays raw_msg agents (path ∷ paths) seen c out
  unfolding contains
  ask_path path paths seen c answer out e r = record {
    new = r.new ++ asked path raw_msg answer ∷ [];
    grown = r.grown ∙ sym (append_assoc r.new (asked path raw_msg answer ∷ []) c.trace);
    distinct = rw (asked_of-snoc r.new path raw_msg answer) (
        Distinct-snoc path (asked_of r.new) r.distinct
          (ground (arith, r.connected path, bytes_eq_refl path)));
    connected = λ p i. ground (
      arith,
      r.connected p,
      bytes_eq_iff p path,
      ap (contains p) (asked_of-snoc r.new path raw_msg answer),
      contains-snoc p path (asked_of r.new),
    );
    exhausted = λ u p i a. ground (
      arith,
      r.exhausted u p,
      ap (contains p) (asked_of-snoc r.new path raw_msg answer),
      contains-snoc p path (asked_of r.new),
    );
  }

  settle_usable :
      (path : Text) (paths seen : List Text) (c : Conn) (answer : Option Bytes)
      → (contains path seen || not (contains path agents)) ≡ false
      → usable answer ≡ true
      → Relays raw_msg agents
          (path ∷ paths)
          seen
          c
          (done (answer, some path), record c { trace = asked path raw_msg answer ∷ c.trace })
  unfolding contains asked_of
  settle_usable path paths seen c answer e u = record {
    new = asked path raw_msg answer ∷ [];
    grown = refl;
    distinct = (refl, tt);
    connected = λ p i. ground (arith, bytes_eq_iff p path);
    exhausted = λ v p i a. absurd (cc);
  }

  settle-Relays :
      (path : Text) (paths seen : List Text) (c : Conn) (answer : Option Bytes)
      (rest : Handle Relayed)
      → (contains path seen || not (contains path agents)) ≡ false
      → (let c' = record c { trace = asked path raw_msg answer ∷ c.trace } in
          Relays raw_msg agents paths (path ∷ seen) c' (rest c'))
      → Relays raw_msg agents
          (path ∷ paths)
          seen
          c
          (settle path answer rest (record c { trace = asked path raw_msg answer ∷ c.trace }))
  unfolding settle
  settle-Relays path paths seen c answer rest e r = elim (Bool-cases (usable answer)) [
    | inl u ↦ rw (u, settle) (settle_usable path paths seen c answer e u)
    | inr u ↦ rw (u, settle) (ask_path path paths seen c answer _ e r)
  ]

  sign_loop-Relays :
      (paths seen : List Text) (last : Option Bytes) (last_path : Option Text) (c : Conn)
      → Relays raw_msg agents paths seen c (sign_loop w agents raw_msg paths seen last last_path c)
  unfolding sign_loop request
  sign_loop-Relays [] seen last last_path c = record {
    new = [];
    grown = refl;
    distinct = unfold asked_of in tt;
    connected = λ p i. unfold asked_of contains in absurd (cc);
    exhausted = λ u p i a. unfold contains in absurd (cc);
  }
  sign_loop-Relays (path ∷ paths) seen last last_path c =
      elim (Bool-cases (contains path seen || not (contains path agents))) [
        | inl e ↦
            rw (e, sign_loop)
              (skip_path path paths seen c _ e (sign_loop-Relays paths seen last last_path c))
        | inr e ↦
            rw (e, sign_loop)
              (settle-Relays path paths seen c (w.request c.trace path raw_msg) _ e (
                sign_loop-Relays paths (path ∷ seen)
                  (keep_last (w.request c.trace path raw_msg) last) (some path) _))
      ]

contains-append :
    (p : Text) (l m : List Text) → contains p (l ++ m) ≡ (contains p l || contains p m)
unfolding contains
contains-append p [] m = refl
contains-append p (x ∷ l) m = ground (arith, contains-append p l m)

contains-not_among :
    (p : Text) (l tried : List Text)
    → contains p l ≡ true
    → (contains p tried || contains p (not_among l tried)) ≡ true
unfolding contains not_among
contains-not_among p [] tried h = absurd (cc)
contains-not_among p (x ∷ l) tried h =
    ground (arith, bytes_eq_iff p x, contains-not_among p l tried)

contains_candidates :
    (p : Text) (agents tried : List Text)
    → contains p agents ≡ true
    → contains p (tried ++ not_among agents tried) ≡ true
contains_candidates p agents tried h =
    contains-append p tried (not_among agents tried) ∙ contains-not_among p agents tried h

-- Relaying a signature asks no agent twice and only connected ones; and unless an answer ends it that
-- is no failure, every connected agent has been asked.
pub sign_via_upstream-Relays :
    (w : World) (agents : List Text) (key_blob : Bytes) (k_cfg : KeyConfig) (raw_msg : Bytes)
    (c : Conn)
    → let out = sign_via_upstream w agents key_blob k_cfg raw_msg c in
      Relays raw_msg agents agents [] c out
unfolding sign_via_upstream
sign_via_upstream-Relays w agents key_blob k_cfg raw_msg c =
    let r =
      sign_loop-Relays w agents raw_msg (candidates (get c.key_upstream key_blob) k_cfg agents) []
        none none c in
    record {
      new = r.new;
      grown = r.grown;
      distinct = r.distinct;
      connected = r.connected;
      exhausted = λ u p i a. r.exhausted u p (contains_candidates p agents (_ ∷ _ ∷ []) i) a;
    }
