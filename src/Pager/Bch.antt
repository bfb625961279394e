-- ===== src/Pager/Bch.antt =====
-- pager/bch_code.c: the binary BCH(31, 21, 5) code. `Code` holds the structure, `Field` and
-- `Generator` build its tables, `Encode` and `Decode` use them, `New` allocates it.
pub mod Code
pub mod Field
pub mod Generator
pub mod Encode
pub mod Decode
pub mod New
pub mod Code31
pub mod Powers
pub mod Syndromes
pub mod Register
pub mod Codeword
pub mod Plan
pub mod Toggle
pub mod Correction
pub mod Detection
pub mod RoundTrip
mod Examples
