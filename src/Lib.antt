-- ===== src/Lib.antt =====
-- The NAS daemon of KilasOS (nasd): who may log in and how, what a licence allows, what is logged,
-- what is run on a schedule, and which files are reached. This library models those parts of the Go
-- program and proves what makes them right.
--
-- The parts, and the files that model them:
--   Auth/Users     internal/auth/userstore.go. State has the store (UserStore) and its two files;
--                  Accounts, Sessions, Recovery and Login have the methods. Consistency proves that
--                  sessions are backed by accounts, Entry who gets in and for how long, Changes what
--                  a change of an account is good for.
--   Auth/Password  hashPassword, checkPassword, deriveKey and genToken of the same file.
--   Auth/BruteForce, Auth/ApiKeys, Auth/Policy, Auth/Totp
--                  internal/auth/bruteforce.go, apikeys.go, policy.go and totp.go.
--   Auth/Crypto    what internal/auth takes from Go's crypto packages, as arguments.
--   License        internal/license/license.go and embed.go, and the gate of
--                  internal/api/license_gate.go.
--   Audit          internal/audit/audit.go.
--   Api            internal/api/router.go: the limiter on logins, authMiddleware (Gate), and the
--                  handlers that make and end sessions and accounts (Sessions) and that change a
--                  password or make backup codes and API keys (Credentials). Backups has
--                  internal/api/backup_handlers.go: Archives, Jobs, and Routes behind the licence.
--                  A handler answers with a status or what it made; the text of an error goes to the
--                  log only.
--   Files          internal/api/files.go: Paths has safePath, Calls what the handlers share, Reading
--                  and Changing the handlers, Routes the requests; Shares has the share links of
--                  internal/storage/linux.go, PublicShare publicShareHandler of
--                  internal/api/router.go, Pools its handlers for the files of one pool, and Trash
--                  FileDelete and TrashRestore of internal/storage/linux.go.
--   Monitor        internal/monitor/monitor.go, with Disks and Jobs for the polls; History has
--                  internal/monitor/history.go.
--   Rsync          internal/rsync/manager.go: the jobs, and their runs as goroutines that work on
--                  statuses in a heap.
--   Wol            internal/wol/wol.go: Addresses has what is read as an address, Packets what is
--                  sent.
--   Scheduler      internal/scheduler/scheduler.go.
--   Common         lists, dictionaries, signed integers, time and byte strings.
-- Login asks the policy and the tracker and consumes backup codes; the user store holds the tracker
-- and the policy of the daemon. The handlers of Api share one daemon: the user store, the API keys,
-- the audit log and the limiter. The handlers of files.go log to the audit log; the public route asks
-- the limiter and the share links. The other parts stand for themselves.
--
-- How the code is read. A method is a function of the store, named as in the code; it gives the
-- store that is left and the answer, where an error is a constructor for its text. What a call takes
-- from outside, the clock, random bytes, and whether a file can be written, comes in a record (Env,
-- KeyEnv, RunEnv, World, Visit). A method is one step, since it holds the lock of its store, and an
-- interleaving is a list of calls; Consistency.Runs, Scheduler.Soundness, Monitor.Runs and
-- Rsync.Statuses have it as a relation. Some code is taken as one step although it leaves room for
-- other calls: Login releases its lock while a backup code is consumed, the functions of
-- internal/storage/linux.go (ResolveShareToken among them) hold no lock, and neither does a handler
-- of the API over the calls that it makes. One call reads the clock once.
-- In Files/Trash the file system maps paths to what is there; what is in a directory has a path that
-- begins with that of the directory and a slash, and moves with it. Which directories can be made,
-- which renames are allowed, and whether meta files can be written, read and removed are inputs.
-- A map is an association list without double keys; the order of a range is the list's. Times are
-- nanoseconds since the zero time, durations 64-bit words with their wrap-around, and a stamp keeps
-- whole seconds. Passwords and tokens are lists of bytes. A slice of a licence token is in range or
-- the model panics, and the 32-bit sums of its length wrap. No function runs on fuel: every loop is
-- a recursion on a list or a number.
--
-- What is taken from outside: SHA-256, HMAC, base32, Ed25519, JSON and cron are arguments; the
-- commands for fail2ban, and what is asked of the storage provider, are recorded as lists.
--
-- Not modelled: the other handlers of the HTTP router, the rest of the storage provider (commands and
-- the parsing of their text), updates, mail, passkeys, and the web interface.
pub mod Common
pub mod Auth
pub mod License
pub mod Audit
pub mod Scheduler
pub mod Api
pub mod Files
pub mod Monitor
pub mod Rsync
pub mod Wol
