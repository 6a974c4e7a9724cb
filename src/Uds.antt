-- ===== src/Uds.antt =====
-- The UDS decoder: include/wadjet/protocols/uds/ and src/protocols/uds_decoder.cpp. `Types` has the
-- header and the messages, `Requests` and `Responses` the parser of each service, `Message` the
-- decoder, and `Session` the tracker of the diagnostic session that it feeds.
pub mod ServiceId
pub mod Types
pub mod Reads
pub mod Requests
pub mod Responses
pub mod Message
pub mod Session
