-- ===== src/Net.antt =====
-- Go's package net, as far as the program calls it. An address is its bytes, a nil one `none`.
mod Address
mod Parse
mod Print
mod Cidr
unfoldable pub use Address.{to4, to16, equal, v4_in_v6}
pub use Address.{Ip, bytes_beq}
unfoldable pub use Parse.{parse_ipv4, parse_ipv6, parse_ip, dtoi, digits, v4_rest, by_mark}
pub use Parse.{is_digit, octet, begins_digit}
unfoldable pub use Print.{ip_string, decimal, dotted, numeral}
pub use Print.{digit, digit_char}
pub use Cidr.{IpNet, Mask}
unfoldable pub use Cidr.{
  mask_ip, net_contains, parse_cidr, mask_size, ipnet_string, mask_ones, byte_ones, number_and_mask,
  cidr_mask, before_slash, cidr_address, cidr_parts,
}
pub use Cidr.{cidr_length, all_zero}
