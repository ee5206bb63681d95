-- ===== src/Routes.antt =====
-- src/routes.rs, src/admin_routes.rs and src/app_state.rs: the handlers of requests, as steps on
-- the state that they share. What a handler reads from outside (the clock, random texts) is an
-- argument. The pages' markup and the log lines are left out; a page is the record of what is put
-- into it.
pub mod State
pub mod Requests
pub mod Home
pub mod Start
pub mod Status
pub mod Guards
pub mod Signup
pub mod Accounts
pub mod Passing
pub mod Accepted
pub mod Refused
pub mod Undone
pub mod Answered
pub mod Usable
pub mod Link
pub mod Manage
pub mod SignIn
pub mod Origin
pub mod Authorized
pub mod Apart
pub mod Managed
pub mod Entered
pub mod SignedIn
pub mod Dashboard
pub mod Logged
pub mod Once
pub mod Concurrent
pub mod SignedOut
pub mod Fixture
mod Tests
