-- ===== src/Flow.antt =====
-- src/flow: the authorization request, its response, the token requests and the logout URL.
pub mod Authorize
pub mod Callback
pub mod Logout
pub mod Token
