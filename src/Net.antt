-- ===== src/Net.antt =====
-- What the program uses of the packages `net` and `net/netip`: addresses, networks in CIDR form,
-- masks. An address is its sixteen bytes.
pub mod Address
pub mod Show
pub mod Cidr
