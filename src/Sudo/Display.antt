-- ===== src/Sudo/Display.antt =====
-- What the approver and the logs see: `sanitize_field`, `build_confirmation` and its rendering.
pub mod Bounds
use tartarus_nix.Base.{
  ℕ, Bool, true, false, not, ◌&&◌, ◌||◌, Option, none, some, List, [], ◌∷◌, ◌++◌, Text, codes,
  bytes_eq, any, take, is_empty, map, if◌then◌else◌, ◌==◌, String,
}
use tartarus_nix.Json.{Value, null, string, Fields, no_fields, field, lookup, string_or_empty}
use tartarus_nix.Sudo.Rules.{effective_target_user}
use tartarus_nix.Sudo.Security.{none_identity}

-- The conversions of the standard library.
pub record Texts : Type 0 where
  -- `unicodedata.normalize("NFC", s)`
  pub nfc : Text → Text
  -- `str(value)` of a value that is no text
  pub str : Value → Text

abbrev pub sanitize_allowed : Text
sanitize_allowed = codes "ABCDEFGHIJKLMNOPQRSTUVWXYZabcdefghijklmnopqrstuvwxyz0123456789_.:/@- "

abbrev pub sanitize_max_length : ℕ
sanitize_max_length = 256

abbrev pub question_mark : ℕ
question_mark = 63

abbrev pub is_allowed : ℕ → Bool
is_allowed character = any (λ c. c == character) sanitize_allowed

-- `character if character in SANITIZE_ALLOWED else "?"`
abbrev pub clean : ℕ → ℕ
clean character = if is_allowed character then character else question_mark

unfoldable pub sanitize_text : Texts → Text → ℕ → Text
sanitize_text lib s max_length = take max_length (map clean (lib.nfc s))

unfoldable pub sanitize_field : Texts → Option Value → ℕ → Text
sanitize_field lib none max_length = []
sanitize_field lib (some null) max_length = []
sanitize_field lib (some (string s)) max_length = sanitize_text lib s max_length
sanitize_field lib (some v) max_length = sanitize_text lib (lib.str v) max_length

-- `text.replace(character, "\\" + character)`
replace_escaped : ℕ → Text → Text
replace_escaped character [] = []
replace_escaped character (c ∷ text) =
    let rest = replace_escaped character text in if c == character then 92 ∷ c ∷ rest else c ∷ rest

replace_all : Text → Text → Text
unfolding replace_escaped
replace_all [] text = text
replace_all (c ∷ characters) text = replace_all characters (replace_escaped c text)

unfoldable pub escape_swiftdialog_markup : Text → Text
unfolding replace_all
escape_swiftdialog_markup text = replace_all (codes "*[]()") text

abbrev pub sanitized_request_fields : List Text
sanitized_request_fields =
    codes "service"
    ∷ codes "target_user"
    ∷ codes "invoking_user"
    ∷ codes "rhost"
    ∷ codes "tty"
    ∷ codes "cwd"
    ∷ codes "client_version"
    ∷ codes "guest_hint"
    ∷ []

unfoldable pub sanitize_request_fields : Texts → Fields → List (Text × Text)
unfolding sanitize_field
sanitize_request_fields lib request =
    map (λ name. (name, sanitize_field lib (lookup request name) sanitize_max_length))
      sanitized_request_fields

pub record Confirmation : Type 0 where
  pub peer : Text
  pub identity : Text
  pub label : Text
  pub invoking_user : Text
  pub target_user : Text
  pub service : Text
  pub tty : Text
  pub rhost : Text
  pub cwd : Text
  pub request_id : Text
  pub timestamp : Text
  pub transport : Text

-- `timestamp` is the server's clock as it is formatted at that moment.
unfoldable pub build_confirmation : Texts → Text → Text → Text → Fields → Text → Text → Confirmation
unfolding sanitize_field effective_target_user
build_confirmation lib peer identity label request transport timestamp =
    let shown = λ (v : Option Value). sanitize_field lib v sanitize_max_length in
    let shown_text = λ (s : Text). shown (some (string s)) in
    let invoking_text = string_or_empty (lookup request (codes "invoking_user")) in
    record {
      peer = shown_text peer;
      identity = shown_text identity;
      label = shown_text label;
      invoking_user = shown_text invoking_text;
      target_user = shown_text (
          effective_target_user (string_or_empty (lookup request (codes "service")))
            (string_or_empty (lookup request (codes "target_user"))) invoking_text);
      service = shown (lookup request (codes "service"));
      tty = shown (lookup request (codes "tty"));
      rhost = shown (lookup request (codes "rhost"));
      cwd = shown (lookup request (codes "cwd"));
      request_id = shown_text (take 8 (string_or_empty (lookup request (codes "nonce"))));
      timestamp = shown_text timestamp;
      transport = shown_text transport;
    }

abbrev unauthenticated : Confirmation → Bool
unauthenticated c = is_empty c.identity || bytes_eq c.identity none_identity

requester_of : Confirmation → Text
requester_of c =
    if unauthenticated c
    then codes "Unauthenticated requester"
    else if is_empty c.label
    then c.identity
    else c.label

where_of : Confirmation → Text
where_of c =
    let place = if is_empty c.peer then codes "unknown peer" else c.peer in
    if not (is_empty c.rhost) && not (bytes_eq c.rhost c.peer)
    then place ++ codes " (from " ++ c.rhost ++ codes ")"
    else place

unfoldable pub confirmation_summary : Confirmation → Text
unfolding requester_of where_of
confirmation_summary c =
    requester_of c
    ++ codes " requests "
    ++ c.target_user
    ++ codes " via "
    ++ c.service
    ++ 10 ∷ codes "on "
    ++ where_of c
    ++ codes " ("
    ++ c.transport
    ++ codes ")"

-- A line of the detailed view that is left out where there is nothing to show.
optional_line : String → Text → Text
optional_line head value = if is_empty value then [] else 10 ∷ codes head ++ value

unfoldable pub confirmation_message : Confirmation → Text
unfolding requester_of optional_line
confirmation_message c =
    codes "Requester  "
    ++ requester_of c
    ++ 10 ∷ codes "Identity   "
    ++ (if unauthenticated c then codes "unverified (client_auth = none)" else c.identity)
    ++ 10 ∷ codes "Request    "
    ++ c.invoking_user
    ++ codes " -> "
    ++ c.target_user
    ++ codes " via "
    ++ c.service
    ++ 10 ∷ codes "Peer       "
    ++ c.peer
    ++ 10 ∷ codes "Transport  "
    ++ c.transport
    ++ optional_line "Remote     " c.rhost
    ++ optional_line "TTY        " c.tty
    ++ optional_line "CWD        " c.cwd
    ++ 10 ∷ codes "Request id "
    ++ c.request_id
    ++ codes " ("
    ++ c.timestamp
    ++ codes ")"
