-- ===== src/Ipv4.antt =====
-- src/protocols/ipv4.cpp, src/protocols/ipv4_reassembler.cpp and include/wadjet/protocols/ipv4.hpp:
-- the options of a header, the header itself and the reassembly of fragments. The checksums are in
-- `Checksum`.
pub mod Options
pub mod Header
pub mod Reassembler
