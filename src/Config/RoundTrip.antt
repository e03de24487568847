-- ===== src/Config/RoundTrip.antt =====
-- What `Marshal` writes is read back: quoted strings, then lines, then the whole file.
pub mod Quoted
mod Line
pub mod Whole
