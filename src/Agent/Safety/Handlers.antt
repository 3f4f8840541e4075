-- ===== src/Agent/Safety/Handlers.antt =====
-- The handlers of identities and of extensions keep a connection safe.
use tartarus_nix.Base.{
  ℕ, zero, suc, true, false, Option, none, some, List, [], ◌∷◌, Bytes, Text, get, is_some, contains,
  ◌==◌, ◌≡◌, refl, inl, inr, Option-cases, arith, ap, sym, ◌∙◌, ==_iff,
}
use tartarus_nix.Base.Effects.{pure, ◌>>=◌}
use tartarus_nix.Base.Effects.Keeps.{
  Keeps, Keeps-test, Keeps-pure, Keeps-bind, Keeps-if, Keeps-lift, Keeps-then, Keeps-modify,
  Keeps-given, Keeps-weaker, Keeps-cases,
}
use tartarus_nix.Agent.Wire.{
  SshBuffer, identities_answer, read_byte, ssh_buffer, read_string, read_int,
}
use tartarus_nix.Agent.Rules.{KeyConfig}
use tartarus_nix.Agent.Offers.{
  Offer, Heard, Known, Discovered, get-Entry, key-inj, Lists, first, later,
}
use tartarus_nix.Agent.State.{World, Config, Conn, Handle, request}
use mathlib.Core.Path.{subst}
use tartarus_nix.Agent.Identities.{
  Identity, maybe_autoregister, admit, take_identity, take_identities, take_answer, collect,
  handle_identities, register_key, register, note_owner, key_entry, unnamed_key,
}
use tartarus_nix.Agent.SessionBind.{bind_with, extension_with, handle_extension, verify_bind_sig}
use tartarus_nix.Agent.Safety.{Safe, IsPlain}
use tartarus_nix.Agent.Safety.Steps.{
  IsSafe, send-Safe, send_failure-Safe, request-Safe, note_owner-Safe, register-Safe,
  record_bind-Safe,
}

module _ (w : World) (cfg : Config) (identity listener : Option Text) where
  -- While the answer of an agent is read, which stays heard.
  record Hearing (path : Text) (answer : Bytes) (c : Conn) : Type 0 where
    safe : IsSafe w cfg identity listener c
    heard : Heard path answer c.trace

  -- The entry that is made for an offered key is a known one.
  unnamed_key-Discovered :
      (path : Text) (answer blob comment : Bytes) (k : KeyConfig) (c : Conn)
      → Offer answer blob comment
      → Hearing path answer c
      → contains path c.resolved_agent_sockets ≡ true
      → get cfg.keys blob ≡ none
      → unnamed_key w blob comment path ≡ some k
      → Discovered w cfg blob k c.trace
  unfolding unnamed_key
  unnamed_key-Discovered path answer blob comment k c offer h resolved unnamed e =
      elim (Option-cases (read_string (ssh_buffer blob))) [
        | inl bad ↦ absurd (ground (arith, e, bad))
        | inr (r, reads) ↦
            let made = key-inj (rw reads at e) in
            record {
              unnamed = unnamed;
              path = path;
              upstream = subst (λ l. contains path l ≡ true) h.safe.upstreams resolved;
              answer = answer;
              heard = h.heard;
              comment = comment;
              offer = offer;
              same_blob = sym (ap (λ j. j.public_blob) made);
              id = sym (ap (λ j. j.id) made);
              fingerprint = sym (ap (λ j. j.fingerprint) made);
            }
      ]

  key_entry-Known :
      (path : Text) (answer blob comment : Bytes) (k : KeyConfig) (c : Conn)
      (named : Option KeyConfig)
      → Offer answer blob comment
      → Hearing path answer c
      → contains path c.resolved_agent_sockets ≡ true
      → get cfg.keys blob ≡ named
      → (elim named [ none ↦ unnamed_key w blob comment path | some j ↦ some j ]) ≡ some k
      → Known w cfg blob k c.trace
  key_entry-Known path answer blob comment k c none offer h resolved e made =
      inr (unnamed_key-Discovered path answer blob comment k c offer h resolved e made)
  key_entry-Known path answer blob comment k c (some named) offer h resolved e made =
      inl (get-Entry cfg.keys blob k (e ∙ made))

  register_key-Hearing :
      (path : Text) (answer blob comment : Bytes) (c : Conn)
      → Offer answer blob comment
      → contains path c.resolved_agent_sockets ≡ true
      → Hearing path answer c
      → Hearing path answer (register_key w cfg blob comment path c).1
  unfolding register_key
  register_key-Hearing path answer blob comment c offer resolved h =
      elim (Option-cases (key_entry w cfg blob comment path)) [
        | inl bad ↦ rw (bad, register_key) h
        | inr (k, made) ↦
            rw (made, register_key)
              (record {
                safe =
                    register-Safe w cfg identity listener blob k c
                      (key_entry-Known path answer blob comment k c (get cfg.keys blob) offer h
                        resolved refl (unfold key_entry in made))
                      h.safe;
                heard = unfold register in h.heard;
              })
      ]

  admit-Hearing :
      (path : Text) (answer blob comment : Bytes)
      → Offer answer blob comment
      → Keeps (Hearing path answer) (admit w cfg blob comment path)
  unfolding admit maybe_autoregister
  admit-Hearing path answer blob comment offer =
      Keeps-test (λ c. is_some (get c.allowed_keys blob)) (pure true)
        (maybe_autoregister w cfg blob comment path) (λ c e h. h)
        λ c e h.
          (Keeps-test (λ c. contains path c.resolved_agent_sockets)
              (register_key w cfg blob comment path) (pure false)
              (λ c e h. register_key-Hearing path answer blob comment c offer e h) (λ c e h. h)).at
            c h

  take_identity-Hearing :
      (path : Text) (answer blob comment : Bytes) (found : List Identity)
      → Offer answer blob comment
      → Keeps (Hearing path answer) (take_identity w cfg path blob comment found)
  unfolding take_identity
  take_identity-Hearing path answer blob comment found offer =
      Keeps-then _ _
        (Keeps-modify _ λ c h. record {
          safe = note_owner-Safe w cfg identity listener blob path c h.safe;
          heard = unfold note_owner in h.heard;
        })
        (Keeps-bind _ _ (admit-Hearing path answer blob comment offer) λ a. Keeps-pure _)

  take_identities-Hearing :
      (path : Text) (answer : Bytes) (count : ℕ) (b : SshBuffer) (found : List Identity)
      → ((blob comment : Bytes) → Lists count b blob comment → Offer answer blob comment)
      → Keeps (Hearing path answer) (take_identities w cfg path count b found)
  unfolding take_identities
  take_identities-Hearing path answer zero b found offers = Keeps-pure found
  take_identities-Hearing path answer (suc count) b found offers =
      Keeps-given (read_string b) _ λ r e. Keeps-given (read_string r.1) _ λ r' e'.
        Keeps-bind _ _
          (take_identity-Hearing path answer r.0 r'.0 found (offers r.0 r'.0 (first e e')))
          λ f.
            take_identities-Hearing path answer count r'.1 f
              λ blob comment l. offers blob comment (later e e' l)

  take_answer-Hearing :
      (path : Text) (t : ℕ) (body : Bytes) (found : List Identity)
      → Keeps (Hearing path (t ∷ body)) (take_answer w cfg path (some (t ∷ body)) found)
  unfolding take_answer
  take_answer-Hearing path t body found =
      Keeps-cases (t == identities_answer) _ _
        (λ typed. Keeps-given (read_byte (ssh_buffer (t ∷ body))) _ λ r opens.
          Keeps-given (read_int r.1) _ λ r' counts.
            take_identities-Hearing path (t ∷ body) r'.0 r'.1 found λ blob comment l. record {
              typed = (==_iff t identities_answer).0 typed;
              count = r'.0;
              header = r;
              body = r'.1;
              opens = opens;
              counts = counts;
              lists = l;
            })
        (λ other. Keeps-pure found)

  -- An answer that has just come, and what follows.
  answer_then-Safe :
      {A : Type 0} (path : Text) (answer : Option Bytes) (found : List Identity)
      (f : List Identity → Handle A)
      → ((l : List Identity) → Keeps (IsSafe w cfg identity listener) (f l))
      → (c : Conn) → ((bytes : Bytes) → answer ≡ some bytes → Heard path bytes c.trace)
      → Safe w cfg identity listener c
      → Safe w cfg identity listener ((take_answer w cfg path answer found >>= f) c).1
  answer_then-Safe path none found f kf c heard h = unfold take_answer in (kf found).at c h
  answer_then-Safe path (some []) found f kf c heard h = unfold take_answer in (kf found).at c h
  answer_then-Safe path (some (t ∷ body)) found f kf c heard h =
      Keeps-weaker (take_answer w cfg path (some (t ∷ body)) found) f (λ s hearing. hearing.safe)
        (take_answer-Hearing path t body found) kf c
        (record { safe = h; heard = heard (t ∷ body) refl })

  collect-Safe :
      (raw_msg : Bytes) (agents : List Text) (found : List Identity)
      → IsPlain raw_msg
      → Keeps (IsSafe w cfg identity listener) (collect w cfg raw_msg agents found)
  unfolding collect request
  collect-Safe raw_msg [] found other = Keeps-pure found
  collect-Safe raw_msg (path ∷ agents) found other = record {
    at = λ c h.
        answer_then-Safe path (w.request c.trace path raw_msg) found _
          (λ l. collect-Safe raw_msg agents l other) _ (λ bytes e. inl (refl, e))
          ((request-Safe w cfg identity listener path raw_msg other).at c h);
  }

  pub handle_identities-Safe :
      (agents : List Text) (raw_msg : Bytes)
      → IsPlain raw_msg
      → Keeps (IsSafe w cfg identity listener) (handle_identities w cfg agents raw_msg)
  unfolding handle_identities
  handle_identities-Safe agents raw_msg other =
      Keeps-bind _ _ (collect-Safe raw_msg agents [] other)
        λ found. Keeps-bind _ _ (Keeps-lift _) λ payload. send-Safe w cfg identity listener payload

  bind_with-Safe :
      (o : Option (Bytes × Bytes × Bytes)) → Keeps (IsSafe w cfg identity listener) (bind_with w o)
  unfolding bind_with
  bind_with-Safe none = send_failure-Safe w cfg identity listener
  bind_with-Safe (some (hostkey, session_id, signature)) =
      record_bind-Safe w cfg identity listener session_id
        (verify_bind_sig w hostkey session_id signature)
        λ trust e. record { hostkey = hostkey; signature = signature; valid = e }

  extension_with-Safe :
      (o : Option (Bytes × SshBuffer)) → Keeps (IsSafe w cfg identity listener) (extension_with w o)
  unfolding extension_with
  extension_with-Safe none = send_failure-Safe w cfg identity listener
  extension_with-Safe (some (name, b)) =
      Keeps-if _ _ _ (bind_with-Safe _) (send_failure-Safe w cfg identity listener)

  pub handle_extension-Safe :
      (raw_msg : Bytes) → Keeps (IsSafe w cfg identity listener) (handle_extension w raw_msg)
  unfolding handle_extension
  handle_extension-Safe raw_msg =
      Keeps-bind _ _ (Keeps-lift (read_byte (ssh_buffer raw_msg)))
        λ r. extension_with-Safe (read_string r.1)
