-- ===== src/Account.antt =====
-- backend/src/modules/auth/auth.service.ts and oauth-account.service.ts: `AuthService` and
-- `OAuthAccountService`.
pub mod Nickname
pub mod Tokens
pub mod Login
pub mod Password
pub mod Oauth
pub mod Profile
pub mod Sessions
pub mod Lockout
pub mod Linking
pub mod Keeping
pub mod Binding
pub mod Access
mod Tests
