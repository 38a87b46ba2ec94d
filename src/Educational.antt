-- ===== src/Educational.antt =====
-- The code under educational/: the compact scaffold of a quasi-cyclic LDPC code, a short LDPC code of
-- sixteen bits, and symbols without the Gray code.
pub mod Compact
pub mod ShortLdpc
pub mod BinaryPam
