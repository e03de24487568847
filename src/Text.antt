-- ===== src/Text.antt =====
-- Go strings as lists of bytes, and what the program uses of the packages `strings`, `bufio` and
-- `strconv`: comparison and search, white space, lines, and decimal integers.
pub mod Compare
pub mod Space
pub mod Lines
pub mod Decimal
pub mod FilePath
pub mod Base64
