-- ===== src/Github.antt =====
-- app/services/github.py: the GitHub client. The HTTP client is an argument of each operation, as
-- the function from a request to its result.
mod Tests
pub mod Comments
pub mod Tokens
pub mod Sources
pub mod Reviews
pub mod Checks
