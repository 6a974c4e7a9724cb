-- ===== src/Examples.antt =====
-- The theorems at concrete inputs, and tests of the definitions.
mod Link
mod Ip
mod SomeIpRuns
mod TcpRuns
mod FlashRuns
mod DoipRuns
mod Fragments
mod Views
mod UdsRuns
mod SessionRuns
mod CorrelatorRuns
mod UdpRuns
mod DtcRuns
