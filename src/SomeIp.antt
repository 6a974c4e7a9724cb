-- ===== src/SomeIp.antt =====
-- src/protocols/someip.cpp and include/wadjet/protocols/someip.hpp: the segments and the reassembler
-- of SOME/IP-TP, and the header decoder that feeds it.
pub mod Tp
pub mod Header
