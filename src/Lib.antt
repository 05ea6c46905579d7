-- ===== src/Lib.antt =====
-- A model of mcp-dispatch, the relay through which the agents of a machine send one another
-- messages: a directory tree that all of them write, with a supervisor that starts agents which
-- have mail.
--
-- Parts, by file of the repository:
--   dispatch_fs.py: `Ident` has the ids and the nick behind a session id, `Message` the message
--     record with its expiry and the translation seam to the git envelope, `Relay` the directory
--     with its inboxes, presence files and registry and what is read from them, `Relay/Send` the
--     call send_message.
--   notify_policy.py: `NotifyPolicy`.
--   supervisor.py: `Supervisor/Sources` reads the relay, `Supervisor/Decision` has the state of a
--     nick and `decide`, `Supervisor/Deaf` the alert sweep, `Supervisor/Pass` the class Supervisor.
--   git_transport.py: `Transport` has the clone of the repository with its lane files,
--     `Transport/Publish`, `Transport/Drain` and `Transport/Collect` the calls of a GitBus that write
--     and read them.
--   git_bridge.py: `Bridge` has the outbound half of GitBridge, with the ledger of
--     dispatch_fs.py, and `Bridge/Inbound` the inbound half, from what a drain returned
--     on; `Bridge/Tick` joins them with the transport to GitBridge.tick; `Bridge/Roster` writes
--     the remote roster.
--   server.py: `Server/Claim` has the claim of an id at the start of a session and the reaping of
--     presence files, cut into their accesses to the directory, `Server/Registry`
--     the durable records of the nicks, `Server/Inherit` how a new session adopts the mail of
--     dead ones, `Server/Inbox` what a session does with its own inbox (expiry, reading, marking,
--     acks), `Server/Public` what a recipient is shown of a message, `Server/Receipts` what its
--     sender is told of it; `Tasks` has the task records, and a claim cut into its accesses to
--     the directory, and `Tasks/Work` the other calls on tasks.
--   digest.py: `Digest`, which collects the mail, the task events and the teammates of a nick's
--     absence.
--   dispatch_common.py: `Common/Ancestry` finds the session that a process belongs to, and
--     `Common/Arming` says whether a session will hear of a message.
-- A child of one of these modules holds its proofs. Some join components: `Relay/Send/Contract`
-- sending with the notify policy, `Supervisor/Wake/Start` sending with the supervisor,
-- `Server/Inherit/Shown` the supervisor's count with the adoption and the reading,
-- `Server/Registry/Watermark` the registry with the digest, `Bridge/Roster/Local` the registry
-- with the remote roster, and `Digest/Mail` the digest with the supervisor's count.
--
-- How state corresponds: a directory is an association list (`Base/Dict`), a file its loaded JSON
-- or the mark that it does not load, a lock the Boolean that a probe of it returns
-- (in `Server/Claim`, where processes race for it, the process that has it). A function that
-- writes the relay returns the new relay; one that raises ValueError returns a `Result`. The
-- Supervisor object is a record, and a pass of it a function of a `World`, which holds all that the
-- pass gets from outside: clocks, relay, exit codes, spawn results. A tick of the bridge is one of
-- a `Moment` in the same way, with its fetch a function on the clone. Where other processes run
-- between the accesses of a call, as in a claim of a task or of an id, a schedule of accesses is
-- the input.
--
-- Bounds: nothing runs on fuel; every loop of the source is a recursion over the list that it
-- goes through, and process_chain on the depth that bounds its loop in the source. Wall clock
-- times are whole seconds and monotonic ones whole microseconds.
--
-- Parameters: `str.lower`, `md5_key`, what /proc shows, `str` of a number, the test of white
-- space, the JSON size of a message, and the draws of clock and uuid, are arguments. Not
-- modelled: log output, the text of a digest, the environment of a spawned child, the config
-- loaders, fsync and rename (an atomic write is one step), git itself, a body codec, and JSON
-- that is no object where a file of the relay holds one.
pub mod Base
pub mod Ident
pub mod Message
pub mod NotifyPolicy
pub mod Relay
pub mod Supervisor
pub mod Transport
pub mod Bridge
pub mod Tasks
pub mod Server
pub mod Digest
pub mod Common
mod Tests
