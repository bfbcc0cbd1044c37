-- ===== src/Bffp.antt =====
-- The wire protocol: src/bffp.rs. A `Cursor` is the list of the bytes not read yet; its position is the
-- length of the buffer less their number.
pub mod Command
pub mod Decode
pub mod Encode
pub mod Response
pub mod Fields
pub mod Lists
pub mod RoundTrip
