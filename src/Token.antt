-- ===== src/Token.antt =====
-- src/token: token responses, ID-token verification and UserInfo.
pub mod Jose
pub mod Response
pub mod Verify
pub mod Claims
pub mod UserInfo
