-- ===== src/Doip.antt =====
-- DoIP (ISO 13400-2) of src/protocols/doip.cpp and include/wadjet/protocols/doip.hpp.
pub mod Header
pub mod Payload
pub mod Safety
