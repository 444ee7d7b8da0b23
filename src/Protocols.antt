-- ===== src/Protocols.antt =====
-- samples/dhcp/protocols.c and protocols.h: the headers of Ethernet, ARP, IPv4, ICMP and UDP packets. A
-- packet is a run of bytes in memory, `data` its address. The core is little-endian.
pub mod Fields
pub mod Headers
pub mod Checksum
pub mod Ip
pub mod IpBack
pub mod IcmpBack
pub mod Carries
pub mod RoundTrip
pub mod Verify
mod Tests
