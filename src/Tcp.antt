-- ===== src/Tcp.antt =====
-- src/protocols/tcp.cpp and include/wadjet/protocols/tcp.hpp: the options, the header and the tracker
-- of connections.
pub mod Options
pub mod Header
pub mod Tracker
