-- ===== src/Lib.antt =====
-- tartarus: models of the programs that stand between a guest and its host, and theorems on them.
--
-- The host runs guests (virtual machines and containers) that it does not trust. Small daemons let a
-- guest use something of the host's: ssh-agent-proxy (nix/packages/ssh-agent-proxy/ssh-agent-proxy.py)
-- offers the host's SSH agents, filtered by rules per key, peer and listener, and sudo-auth-proxy
-- (nix/packages/sudo-auth-proxy/sudo-auth-proxy.py) lets a person at the host approve a `sudo` in a guest:
-- its client is a PAM hook that sends a request and exits with zero when the server's answer allows it.
-- clipboard-bridge (nix/packages/clipboard-bridge/clipboard-bridge.py) keeps a clipboard per guest, which
-- the guest's own connections read and write, and the host's by rules.
-- The command-line tool `tartarus` (src/tartarus) starts and stops the guests and, in mounts.py, mounts
-- folders of the host in running ones.
-- In the guest, tartarus-mount (nix/packages/tartarus-mount/tartarus-mount.py) mounts directories that the
-- host staged, for a client that names only an id and a target.
--
--   Base         names that every file uses, byte strings and texts as lists of numbers, dictionaries
--                as association lists. Base.Effects has the handlers' monad: state, and an outcome
--                that is a value or a raised exception, whose state changes stay. Base.Effects.Keeps
--                is what a handler that keeps an invariant is made of. Base.Options is the chain of
--                code that may raise and keeps no state, Base.Integers Python's integers, Base.Numerals
--                their texts. Base.Effects.Meets is what code returns and leaves, Base.Dicts.Every what
--                holds of every entry of a dictionary.
--   Json         the values that `json.loads` returns.
--   Fnmatch      `fnmatchcase` of Python's standard library; Fnmatch.Relation says what a pattern
--                means, independently of the matcher.
--   Utf8         decoding with errors="replace".
--   Agent        ssh-agent-proxy.py. Wire is `_ssh_string` and `SSHBuffer`, Framing is
--                `AgentIO._recv_exactly`, `_recv_msg` and `_send_msg`, Rules is `KeyConfig`, `Rule`
--                and `Handler._match_rule`, State what a connection's handler holds, Purpose
--                `_determine_purpose`, SessionBind `_split_hostkey`, `_verify_key_signature`,
--                `_verify_bind_sig`, `_handle_session_bind`, `_handle_extension` and
--                `_destination_allowed`, Identities `_maybe_autoregister` and `_handle_identities`,
--                Offers what makes the entry of a key known, Sign `_handle_sign_request`, `_sign_via_upstream` and `_authorize_mutation`, Mutation
--                `_handle_add`, `_handle_remove` and `_forward_mutation`, Loop the dispatch and the
--                loop of `Handler.handle` and the tables that `Handler.setup` fills. Safety and
--                Replies hold what every run guarantees.
--   Sudo         sudo-auth-proxy.py. Protocol is the messages: `validate_envelope`, `parse_request`,
--                `parse_response`, `parse_pending`, `secure_equals`, `build_request`, `build_response`
--                and `build_pending`; Rules is `Rule`, `evaluate_rules`, `identity_candidates` and
--                `effective_target_user`; Security is `authenticate_request`, `attach_client_auth`,
--                `_check_response_freshness` and `verify_response`; Display is `sanitize_field` and the
--                confirmation shown to the approver; Chain is
--                `verify_x509_chain`, over what the cryptography package reads of a certificate; Server is the loop of `Handler.handle` and Client
--                `run_client` from the request on. Safety holds what the server guarantees, and
--                Client.Exchange what the client's exit status means with such a server behind it.
--   Mount        tartarus-mount.py, the helper in the guest that binds staged directories. Paths is
--                `validate_id`, `validate_target` and the functions of `os.path` they use, Host the
--                state file and the record of what was done, Requests `mount_op`, `umount_op`,
--                `list_op` and `dispatch`. Sound is what every request keeps.
--   Clipboard    clipboard-bridge.py. Security is `resolve_listener_security`, Rules is `parse_rules` and
--                `evaluate_rules`, Schema the validation of a document (`validate_listener_table`,
--                `validate_document_schema`, `load_client_acl`, `listener_views`), Names the ids and the
--                friendly names of clients, Hub the shared slots and subscribers with
--                `notify_and_broadcast` and `expire_clients`, Handlers `_handle_admin` and
--                `_handle_guest`, Loop `handle`: who is served, and the requests of all connections as
--                steps in any order. Isolation, Delivery and Admissions hold what they guarantee.
--   Cli          the tool `tartarus`. Cli.Mounts is src/tartarus/mounts.py: Specs the targets and modes,
--                Machine the state file and the commands, Stages `_release_stage` and
--                `cleanup_vm_mounts`, Guests `_mount_vm` and `_unmount_vm`, Containers
--                `_mount_container`, Actions `action_mount` and `action_unmount` and what they keep. Cli.Trees is `safe_rmtree` of
--                src/tartarus/fs.py: Kept what it leaves alone, Cleared when it removes all.
--
-- A handler is a function from the connection's state to an outcome and a state. The state carries the
-- history of what was sent to the client, what agents were asked and answered, and what the user was
-- asked, the last first. What the code cannot decide by itself is a field of World: the answers of the
-- agents and of the user are functions of the history and of the question, so the theorems hold for
-- every behaviour of theirs; the signature checks of the cryptography package are functions too. The
-- server of sudo-auth-proxy is modelled in the same way: its state is the history of the frames it
-- wrote and of what it asked the approver, and its World gives the approver's answers, the clock and
-- whether the socket takes a frame. JSON as text, SHA-256, base64, Unicode normalisation and the
-- fingerprint of a certificate are parameters: what the theorems use of them is in their hypotheses.
-- The server of clipboard-bridge is modelled over the state that its threads share, with the history of
-- the requests read, the messages written and the notifications; its World gives the clock, in whole
-- seconds, and which writes fail, as functions of the history, and the names that are looked up.
-- The tool's commands work on the state file of one guest and the history of what was run, made and
-- removed.
-- A frame that is read is the message it holds, or one of the ways in which there is none.
--
-- Fuel: `_recv_exactly` runs on one more than the bytes that remain, and each round receives one at
-- least. Every other loop is structural: the frames or messages of a connection are the list of what the
-- peer sends until it closes.
--
-- Not modelled: sockets, processes, TLS, the dialogs and the notifications themselves, the reading of
-- the configuration files, the removal of an overlay's tree by the helper (`_safe_rmtree` is an entry
-- of the history), the client and the proxy of clipboard-bridge, and the `tartarus` command-line tool but for
-- its mounts and its removal of trees. A request of clipboard-bridge whose target is neither a text nor false is answered as an error.
pub mod Base
pub mod Json
pub mod Fnmatch
pub mod Utf8
pub mod Agent
pub mod Sudo
pub mod Mount
pub mod Clipboard
pub mod Cli
