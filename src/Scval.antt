-- ===== src/Scval.antt =====
-- internal/scval
pub mod Value
pub mod Words
pub mod Literal
pub mod Encode
pub mod Decode
pub mod Registry
