-- ===== src/Routes/Concurrent.antt =====
-- Any number of requests at once. `submit_invite` gives up the thread at each `await`, so that other
-- requests run between its calls, and between the requests that these make. Here it is a process that
-- is cut at every request to the directory server and the database, among other sign-ups, the
-- administrator's requests and the cleanup.
pub mod Requests
pub mod Uncut
pub mod Handlers
pub mod Closed
pub mod Underway
pub mod Reached
pub mod Marking
pub mod Invariant
pub mod Owned
pub mod Together
mod Tests
