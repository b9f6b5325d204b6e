-- ===== src/Lib.antt =====
-- The verification library of OmaSeal, a password store for desktops whose secrets agents may read
-- only under a policy. It models the Go engine (engine/) by definitions that run, and proves what
-- they guarantee.
--
-- How the parts interact: a command line or an agent names a credential (Refs); an agent's call is
-- let through by the agent policy and session (Agent), whose weakening needs the user's presence
-- (Presence), and the manifest says which credentials agents may read (Manifest); the secret is
-- then read from the native store (Native), whose identity a passphrase or a session opens;
-- `omaseal sudo` (Sudo) reads it under a rate limit and a strict presence check.
--
-- Refs: engine/refs.go. parse_ref, ref_aware_credentials, parse_credential_args and valid_component
-- are parseRef, refAwareCredentials, parseCredentialArgs and validComponent.
--
-- Presence: engine/presence.go with guiPrompterOrder of engine/guiprompt.go. A Desktop says what
-- the fingerprint reader, the session and the prompters do.
--
-- Sudo: engine/sudorate.go; Sudo/Feed: sudoFeed of engine/sudo.go. Rate is the lock and the
-- recorded attempts.
--
-- Agent: engine/agent.go. The record Agent is agent.json and the session file; each operation takes
-- the time and what the file system lets it write, and gives back the result and the new files.
-- Agent/ModeChange is the mode command with its gate.
--
-- Native: engine/nativestore.go. Native/Store has the state (the files and the memory of a process)
-- and the unlocking, Native/Init the first call and the repair of a torn one, Native/Items the
-- operations, Native/Key the store keys, Native/Fresh the unlocks after a first call. Native/Crypto
-- is the interface of filippo.io/age; the theorems that need its laws take them as a hypothesis,
-- and Native/Toy has an instance.
--
-- Manifest: engine/manifest.go and engine/manifestapply.go. Manifest/Lines parses, prints and edits
-- the rule lines, the root module has CheckPolicy and the judgement of a change, Manifest/Review
-- the application of a proposal. A file is the list of its lines; scan_fails is whether
-- bufio.Scanner fails on one of 64 KiB, in which case nothing is applied.
--
-- Chain: engine/chain.go. A log is the list of its lines; the root module has the writer and the
-- verification, Chain/Scan the scanner that stops at a line of 1 MiB, Chain/ReadBack and
-- Chain/Sealed what the writer and the verification promise each other.
--
-- Mcp: engine/mcp.go. call_mcp_tool is callMCPTool; what the store, the log and the prompt answer
-- is part of the Server, and a call gives back the operations that it ran. Mcp/Permits and
-- Mcp/Gated are about these, Mcp/Payload and Mcp/Hidden about the lists.
--
-- Flags: engine/flags.go. The flags file is a map from stat_key to flags.
--
-- Daemon: engine/svcbus.go, svcprompt.go, svclock.go, svcitems.go, svcerrors.go, svcobjects.go and
-- svcClassify of svcrouter.go. SvcDaemon is svcDaemon with the native store, the marker file and
-- the goroutines that drivePrompt has started; each definition is one critical section of its
-- mutex. Daemon/Prompts has the prompts, Daemon/Lock unlocks and locks, Daemon/Items and
-- Daemon/Rows are the index, Daemon/Calls and Daemon/Methods a method call, Daemon/Unlock the
-- methods around prompts. A DaemonStep of Daemon/Steps is any critical section, so that a run is
-- any interleaving; Daemon/Counts and Daemon/Frame carry its invariants, Daemon/Cancelled and
-- Daemon/Registry what the locking theorem of Daemon/Lasting needs.
--
-- Migrate: engine/backendmigrate.go. migrate_items is migrateItems on the native store of Native;
-- every write has a world of its own, and the source answers each read as it likes.
-- Migrate/Collapsed is about its map of keys, Migrate/Distinct counts the credentials without it,
-- Migrate/Arrived and Migrate/Complete about the turns of its loop.
--
-- Svc: engine/svccrypto.go. The padding and the codec of a session, over crypto/aes and
-- crypto/cipher as the record Aes.
--
-- Conventions: strings are lists of byte codes. Bytes/Utf8 has what JSON makes of them: the
-- envelope of a secret goes through it; the names in the keys of the store are UTF-8, as
-- validComponent and D-Bus require, and so is what the other files hold. Case folding and white
-- space are those of ASCII. Instants are nanoseconds since 1970, Unix times seconds. A file is
-- absent, unreadable, corrupt or holds a value, and a write replaces it as a whole, but for the
-- renewal of the agent session, which goes over a record of fixed width. Random draws, the clock,
-- the user's answers and the success of a write or a lock are arguments. The products of minutes
-- wrap around as int64 do; lines are read by scanners that fail at their limits. The modelled code
-- has no loops but those over lists, so nothing needs fuel. Messages and help lines of errors are
-- not modelled, only their codes and what errors.Is finds.
--
-- Not modelled: the D-Bus keyring backend, the daemon's connection to the bus, its properties and
-- its key agreement, the prompters' protocols, the provider cache, the save prompts, the log's
-- rotation, the manifest's audit, the frames of the MCP protocol, and the output of the commands.
pub mod Agent
pub mod Bytes
pub mod Chain
pub mod Daemon
pub mod Errors
pub mod Files
pub mod Flags
pub mod Manifest
pub mod Mcp
pub mod Migrate
pub mod Native
pub mod Prelude
pub mod Presence
pub mod Refs
pub mod Sudo
pub mod Svc
