-- ===== src/Auth.antt =====
-- auth: `Redirect` is auth/redirect.go, `Session` auth/session over the commands of `Redis`, `Provider`
-- auth/provider/mock.go, `Handler` auth/handler.go and `Login` auth/login.go. The others hold proofs.
pub mod Redirect
pub mod Redis
pub mod Session
pub mod Provider
pub mod Handler
pub mod Login
pub mod Patterns
pub mod Replaced
pub mod Memory
pub mod OneSession
pub mod Limits
pub mod LoggedIn
pub mod Identified
mod Examples
mod LoginExamples
