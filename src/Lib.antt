-- ===== src/Lib.antt =====
-- Wadjet-Link: the packet decoders of the library, from raw bytes to SOME/IP, DoIP and UDS, with the
-- reassembly of IPv4 fragments and the trackers of connections, of diagnostic sessions, of requests,
-- of trouble codes and of flash programming.
--
-- Parts, from the outside in. A captured frame is a list of bytes. A decoder takes a context
-- (`Decoder`), reads its header and gives the header with the context of the next layer.
--   Prelude: shared names, Boolean tests, lists, association lists, integers, well-foundedness.
--   Bytes: include/wadjet/core/byte_order.hpp.
--   Decoder: include/wadjet/protocols/decoder.hpp.
--   Checksum: src/protocols/common/checksum.cpp and IPv4Decoder::calculate_checksum.
--   Ethernet: src/protocols/ethernet.cpp and its header.
--   Ipv4: src/protocols/ipv4.cpp, src/protocols/ipv4_reassembler.cpp and their header.
--   View: src/net/packet_view.cpp, which looks into a frame without the decoders.
--   Tcp: src/protocols/tcp.cpp and its header, with the connection tracker.
--   Udp: src/protocols/udp.cpp and its header, with the checksum validator.
--   SomeIp: src/protocols/someip.cpp and its header, with the SOME/IP-TP reassembler.
--   Doip: src/protocols/doip.cpp and its header.
--   Flash: src/protocols/diagnostic/flash_sequence.cpp and its header, which follows the UDS messages
--     that DoIP carries.
--   Uds: src/protocols/uds_decoder.cpp, src/protocols/uds_session.cpp and
--     include/wadjet/protocols/uds/: the messages that DoIP carries, and the session that follows
--     them. Uds.Message.Contents is a table of the layouts, with which the decoder is compared.
--   Correlator: src/protocols/diagnostic/request_correlator.cpp and its header, which pairs UDS
--     responses with requests. A decoded message goes to it and to the session.
--   Dtc: src/protocols/diagnostic/dtc_manager.cpp and its header, which keeps the trouble codes that
--     UDS responses report.
--   Examples: the theorems at concrete inputs, and tests.
--
-- Conventions. Bytes and machine words are natural numbers, and a wrap is written out. A read that
-- nothing guards gives `fault` outside its buffer, where C++ has undefined behaviour. Enumerators
-- that come from the wire are their numbers, since any byte may stand there. The text of error
-- messages and all printing are left out.
--
-- Hash maps are association lists, so an order in which C++ leaves iteration open is the list's.
-- Times are ticks of a clock that is given, nanoseconds or milliseconds as the code has them, and a
-- callback is the list of its calls.
--
-- Fuel. The option parsers of IPv4 and TCP index their input and run on fuel, one unit for each byte
-- of it: every round takes a byte at least, and they are shown to be the parsers by recursion on the
-- rest of the input that stand in Suffix. The loop that reads the identifiers of a UDS request has
-- the length of the request as fuel, which its lemma needs no more than to reach the end. The loop
-- that keeps an ECU below its limit of trouble codes has the number of its codes as fuel, since one
-- goes in every round, and the loop over all ECUs counts their total down as the code does. Folding
-- the carries of a checksum is recursion on the accessibility of `<`. All else is structural.
--
-- Not modelled, for the size of the library: SOME/IP-SD, the diagnostic session manager, UDS over
-- DoIP, gPTP, DDS, the dispatcher and the validation. Not modelled at all: files, capture and
-- scenarios, which are mostly input and output; locks, since every operation holds its one mutex from
-- start to end, except where Dtc locks it twice; and whatever only prints or names values.
pub mod Prelude
pub mod Bytes
pub mod Decoder
pub mod Checksum
pub mod Ethernet
pub mod Ipv4
pub mod View
pub mod Tcp
pub mod Udp
pub mod SomeIp
pub mod Doip
pub mod Flash
pub mod Uds
pub mod Correlator
pub mod Dtc
mod Examples
