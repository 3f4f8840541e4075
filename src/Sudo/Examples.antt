-- ===== src/Sudo/Examples.antt =====
-- One request of a small client to a small server: tests of the definitions, and the theorems at it.
use tartarus_nix.Base.{
  ◌≤◌, ◌≡◌, refl, ◌⊎◌, inl, inr, true, not, none, some, [], ◌∷◌, ◌++◌, Text, codes, contains,
  bytes_eq, arith, length, all, get,
}
use tartarus_nix.Base.Integers.{pos, ◌+ℤ◌, ltb_int}
use tartarus_nix.Fnmatch.{fnmatchcase, has_wildcard}
use tartarus_nix.Utf8.{encode}
use tartarus_nix.Json.{
  Value, string, Fields, no_fields, lookup, assign, is_string, equals, string_or_empty,
}
use tartarus_nix.Sudo.Protocol.{
  Libraries, Metadata, encoded_message, compute_request_digest, canonical_bytes, encode_strict,
  secure_equals, validate_envelope, validate_nonce, parse_request, parse_pending, decision_of,
  build_request, build_response, build_pending, response_fields,
}
use tartarus_nix.Sudo.Rules.{
  ask, deny, Rule, Context, matches, matches_any, matches_any_of, evaluate_rules,
  identity_candidates, effective_target_user,
}
use tartarus_nix.Sudo.Rules.Order.{Decides, evaluate_rules-Decides}
use tartarus_nix.Sudo.Security.{
  SecurityConfig, attach_client_auth, authenticate_request, verify_response, fresh, freshness_of,
  check_response_freshness,
}
use tartarus_nix.Sudo.Security.Verdicts.{
  Consumes, verify_response-Accepted, verify_response-build_response,
}
use tartarus_nix.Sudo.Display.{
  Texts, sanitize_field, sanitize_text, build_confirmation, confirmation_summary,
  escape_swiftdialog_markup,
}
use tartarus_nix.Sudo.Display.Bounds.{
  shows, sanitize_field_bounds, escape_swiftdialog_markup-sanitize_field,
}
use tartarus_nix.Sudo.Server.{
  World, Listener, message, context_of, write_message, write_encoded, prompt_for_confirmation,
  respond, confirm, ask_user, apply_policy, answer, serve_authenticated, serve_parsed, serve_frame,
  handle,
}
use tartarus_nix.Sudo.Safety.{AllApproved}
use tartarus_nix.Sudo.Safety.Runs.{handle_allows_approved}
use tartarus_nix.Sudo.Client.{
  outbound_request, read_frame, after_first, final_response, exit_status, client_decision,
  run_client,
}
use tartarus_nix.Sudo.Client.Exchange.{Granted, run_client-Granted, frames_of}

abbrev lib : Libraries
lib = record {
  canonical_json = λ obj. codes "{}";
  compact_json = λ obj. codes "{}";
  sha256_hex = λ b. codes "d1";
  base64_decode =
      λ nonce. some (1 ∷ 2 ∷ 3 ∷ 4 ∷ 5 ∷ 6 ∷ 7 ∷ 8 ∷ 9 ∷ 10 ∷ 11 ∷ 12 ∷ 13 ∷ 14 ∷ 15 ∷ 16 ∷ []);
}

abbrev texts : Texts
texts = record { nfc = λ s. s; str = λ v. codes "value" }

abbrev world : World
world = record {
  lib = lib;
  texts = texts;
  fingerprint = λ der. none;
  takes = λ trace m. true;
  approves = λ trace c. true;
  now = λ trace. 1000;
  timestamp = λ trace. codes "2024-01-01T00:00:00Z";
}

abbrev deny_su : Rule
deny_su = record {
  machine = [];
  listeners = [];
  service = codes "su*" ∷ [];
  target_user = codes "admin" ∷ [];
  invoking_user = [];
  policy = deny;
}

abbrev security : SecurityConfig
security = record {
  transport_encryption = codes "none";
  client_auth = codes "none";
  server_auth = codes "none";
  response_ttl = pos 30;
  clock_skew = pos 5;
  rules = deny_su ∷ [];
  labels = [];
}

abbrev listener : Listener
listener = record {
  security = security;
  name = codes "guests";
  approver = codes "ada";
  transport = codes "unix";
  peer = codes "vm-a";
  peer_cert_der = none;
}

abbrev metadata : Metadata
metadata = record {
  service = codes "sudo";
  target_user = codes "ada";
  invoking_user = codes "ada";
  rhost = [];
  tty = codes "pts/1";
  cwd = codes "/";
  client_version = codes "1";
  guest_hint = codes "vm";
}

abbrev nonce : Text
nonce = codes "bm9uY2U="

abbrev request : Fields
request =
    assign (build_request nonce metadata) (codes "client_auth")
      (Value.object (Fields.field (codes "method") (string (codes "none")) no_fields))

-- A request of `sudo` by the user is shown as one for root.
summary :
    confirmation_summary (
      build_confirmation texts
        (codes "vm-a")
        (codes "none")
        []
        request
        (codes "unix")
        (codes "now"))
    ≡ codes "Unauthenticated requester requests root via sudo" ++ 10 ∷ codes "on vm-a (unix)"
unfolding confirmation_summary build_confirmation sanitize_field sanitize_text effective_target_user
    string_or_empty lookup assign build_request bytes_eq
summary = refl

-- No rule denies the request, and the approver says yes.
granted_run :
    run_client lib nonce metadata security 1010
      (frames_of (handle world listener (message request ∷ []) []).1)
    ≡ 0
unfolding run_client client_decision outbound_request attach_client_auth final_response read_frame
    after_first exit_status verify_response check_response_freshness freshness_of fresh ltb_int ◌+ℤ◌
    frames_of handle serve_frame serve_parsed serve_authenticated answer apply_policy ask_user
    confirm respond write_message write_encoded encoded_message compute_request_digest
    canonical_bytes prompt_for_confirmation context_of evaluate_rules matches matches_any
    matches_any_of identity_candidates effective_target_user authenticate_request parse_request
    parse_pending validate_envelope validate_nonce secure_equals encode_strict decision_of
    build_request build_response build_pending response_fields lookup assign is_string equals
    string_or_empty bytes_eq contains fnmatchcase has_wildcard get encode
granted_run = refl

abbrev context : Context
context = record {
  identities = codes "vm-a" ∷ [];
  target_user = codes "admin";
  invoking_user = codes "ada";
  service = codes "su";
  listener = [];
}

evaluate_rules-Decides_example :
    ((rule : Rule) × Decides (deny_su ∷ []) context rule
      × (evaluate_rules (deny_su ∷ []) context ≡ rule.policy))
    ⊎ ((all (λ r. not (matches r context)) (deny_su ∷ []) ≡ true)
        × (evaluate_rules (deny_su ∷ []) context ≡ ask))
evaluate_rules-Decides_example = evaluate_rules-Decides (deny_su ∷ []) context

sanitize_field_bounds_example :
    (all shows (sanitize_field texts (some (string (27 ∷ 65 ∷ 66 ∷ []))) 2) ≡ true)
    × (length (sanitize_field texts (some (string (27 ∷ 65 ∷ 66 ∷ []))) 2) ≤ 2)
sanitize_field_bounds_example = sanitize_field_bounds texts (some (string (27 ∷ 65 ∷ 66 ∷ []))) 2

escape_swiftdialog_markup-sanitize_field_example :
    escape_swiftdialog_markup (sanitize_field texts (some (string (codes "*a"))) 256)
    ≡ sanitize_field texts (some (string (codes "*a"))) 256
escape_swiftdialog_markup-sanitize_field_example =
    escape_swiftdialog_markup-sanitize_field texts (some (string (codes "*a"))) 256

handle_allows_approved_example :
    AllApproved world listener (handle world listener (message request ∷ []) []).1
handle_allows_approved_example = handle_allows_approved world listener (message request ∷ [])

run_client-Granted_example :
    Granted world listener nonce metadata security 1010 (message request ∷ [])
run_client-Granted_example =
    run_client-Granted world listener nonce metadata security 1010 (message request ∷ [])
      granted_run

abbrev response : Fields
response = response_fields (string nonce) (codes "deny") (codes "d1") (pos 30) (codes "ada") 1000

verify_response-build_response_example :
    verify_response lib response request security 1004 [] ≡ some (codes "deny", nonce ∷ [])
unfolding encode_strict lookup assign build_request bytes_eq contains build_response encode
    compute_request_digest canonical_bytes
verify_response-build_response_example =
    verify_response-build_response lib request response security nonce (codes "d1") (codes "deny")
      (codes "ada") nonce (codes "d1") 30 5 1000 1004 [] refl refl refl refl (inr (inl refl)) refl
      (omega arith) (omega arith) (omega arith) refl refl

verified : verify_response lib response request security 1004 [] ≡ some (codes "deny", nonce ∷ [])
unfolding compute_request_digest canonical_bytes verify_response validate_envelope lookup
    response_fields bytes_eq equals secure_equals assign build_request encode decision_of contains
    check_response_freshness fresh ltb_int ◌+ℤ◌ string_or_empty encode_strict freshness_of
verified = refl

verify_response-Accepted_example :
    Consumes lib response request security 1004 [] (codes "deny") (nonce ∷ [])
verify_response-Accepted_example =
    verify_response-Accepted lib response request security 1004 [] (codes "deny") (nonce ∷ [])
      verified
