-- ===== src/Domain.antt =====
-- internal/domain: the codes, states and records that the other packages share.
pub mod Enums
pub mod Models
pub mod Errors
