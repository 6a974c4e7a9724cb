-- ===== src/Doip/Header/PayloadType.antt =====
-- `PayloadType` of include/wadjet/protocols/doip.hpp, the types that `decode_impl` checks.
use wadjet_link.Prelude.{ℕ}

abbrev pub generic_nack : ℕ
generic_nack = 0x0000

abbrev pub vehicle_identification_response : ℕ
vehicle_identification_response = 0x0004

abbrev pub routing_activation_request : ℕ
routing_activation_request = 0x0005

abbrev pub routing_activation_response : ℕ
routing_activation_response = 0x0006

abbrev pub alive_check_response : ℕ
alive_check_response = 0x0008

abbrev pub entity_status_response : ℕ
entity_status_response = 0x4002

abbrev pub power_mode_response : ℕ
power_mode_response = 0x4004

abbrev pub diagnostic_message : ℕ
diagnostic_message = 0x8001

abbrev pub diagnostic_message_positive_ack : ℕ
diagnostic_message_positive_ack = 0x8002

abbrev pub diagnostic_message_negative_ack : ℕ
diagnostic_message_negative_ack = 0x8003
