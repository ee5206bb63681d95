-- ===== src/Lib.antt =====
-- An invitation service in Rust: an administrator generates links, each of which lets one person
-- create one account in a directory server (LLDAP). This library models the service and proves what
-- makes it correct. Paths are from the repository's root; src/routes.rs is the file of that name.
--
-- The program's parts, and the files that model them:
--   * src/validation.rs, the checks of the fields of a sign-up: Validation, with a specification
--     of each validator in Validation/Username, Validation/Email and Validation/Password.
--   * src/invite_storage.rs with the tables of migrations/0001_invites.sql: Invites. Schema has the
--     rows, Sql the requests and transactions, Repository one function per operation; Spec says what
--     each operation does as one step, Atomicity that it does it or nothing, and Log, Audit, Histories,
--     SingleUse, Revocation, Retention, Lookup and Recent what follows for calls and sequences of them.
--   * src/admin_auth.rs, the administrator's credentials, throttle and session: Auth. Setup has
--     the checks of the settings, Tokens the length of the random texts; Machine runs several
--     logins at once, as the program does, since `login` gives up its lock while the password is
--     verified: its steps are `login_begin`, the end of the blocking task (`drop_permit` and
--     `verdict`) and `issue_session`, and Origins says where a session comes from. Provisioned has
--     the option --hash-admin-password of src/main.rs.
--   * src/lldap.rs, the client of the directory server: Lldap. Service is the server with the network
--     to it, a parameter; Client has one function per operation; Directory names what is relied on,
--     and Available what is, besides, where a request is to succeed.
--   * src/configuration.rs, the settings, their defaults and their loading: Config.
--   * src/main.rs, the start of the program: Program.
--   * src/routes.rs, src/admin_routes.rs, src/app_state.rs and the cleanup task of src/main.rs: Routes.
--     State is the shared state, Guards the checks before the administrator's handlers, Signup the
--     form of an invite, Manage the generating, the revoking and the dashboard, SignIn the login,
--     Start what is checked before the service runs, Requests the record of a request for the log.
--     Concurrent lets sign-ups, the administrator's requests and the cleanup interleave. There a
--     sign-up is cut at every single request to the directory and the database (Requests); Underway
--     is the service with any number of them, Marking says which invite their requests use, Owned
--     which account they make and delete. Uncut
--     runs it with nothing in between.
--   * Common has what the others share: texts, tests on numbers, lists, results; Steps has the steps
--     on a state that return or fail, of which statements, requests and handlers are made, the
--     processes, which are steps cut at their calls (Steps/Processes), and who owns a thing that
--     several processes want, an account or an invite (Steps/Owners for one process, Steps/Families
--     for any number). Lldap/Requests has the client's operations as processes.
--
-- How they interact: a handler is a step on `AppState`, which holds the settings, the administrator's
-- state, the database and the directory. It calls the repository, the client and the authentication
-- by the functions of their modules and returns a page, a redirect or an HTTP error with the state
-- after it. A page is the record of what is put into its markup.
--
-- Correspondence: a text is the list of its Unicode scalar values, and `len` counts bytes of UTF-8. A
-- message is a constructor named after what it says. A method keeps its name; where it is cut in
-- pieces, as `submit_invite` is, the pieces are named after their part of its body. `?` and early
-- returns are the failure of a step, which keeps what was changed before it. The clock's readings and
-- the random texts are arguments. A database request can fail at any point: `Db` holds the list of the
-- coming failures. SQLite runs one writing transaction at a time, so a transaction is one step. In
-- Routes/Concurrent/Underway the steps are the single requests of sign-ups, each of which the directory
-- server or the database handles at one moment; a request of the administrator is one step there, the
-- cleanup is one, and so is a change of the directory by others, whose kind is a parameter. Auth/Machine
-- cuts the sign-ins. Names of accounts are compared as the directory server compares them, by a test
-- of Lldap/Directory.
--
-- Bounds: every recursion is structural, on a list, a text, a number or a process, so there is no
-- fuel. Counters that the program keeps in `u32` or `usize` stay far below their limits
-- (`attempts` at most five, which is proved), and are natural numbers here. `expiration_hours`, an
-- `i64`, is an integer; where adding it to the time leaves the range of chrono, the handler
-- panics, as the code does.
--
-- Outside the repository, and parameters here: SHA-256, Argon2 and its format of hashes
-- (Auth/Primitives), Unicode's tables of letters and digits, chrono and serde_json (Routes/State),
-- the parser of URLs, and the directory server. The laws relied on are records of their own
-- (HasDigests, IsAlphanumeric, IsOrdered, IsArgon2, IsDirectory, RefusesTaken, IsAvailable),
-- and Auth/Tests, Routes/Fixture and Lldap/Memory have instances.
--
-- Not modelled: markup, style sheets and scripts; the lines of the log that the handlers
-- print, which change no state; the formats of config.toml and the environment, which a crate reads;
-- the router, and what the bundler writes; the texts of the GraphQL queries, for which the
-- operations of the server stand; and the time that a comparison takes.
pub mod Auth
pub mod Common
pub mod Config
pub mod Invites
pub mod Lldap
pub mod Program
pub mod Routes
pub mod Steps
pub mod Validation
