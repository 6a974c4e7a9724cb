-- ===== src/Uds/ServiceId.antt =====
-- `ServiceID` of include/wadjet/protocols/uds/uds_types.hpp, and which services have a sub-function
-- (uds_services.hpp).
use wadjet_link.Prelude.{ℕ, List, [], ◌∷◌, Bool, false, ◌||◌, ◌==◌}

abbrev pub diagnostic_session_control : ℕ
diagnostic_session_control = 0x10

abbrev pub ecu_reset : ℕ
ecu_reset = 0x11

abbrev pub security_access : ℕ
security_access = 0x27

abbrev pub communication_control : ℕ
communication_control = 0x28

abbrev pub tester_present : ℕ
tester_present = 0x3e

abbrev pub access_timing_parameter : ℕ
access_timing_parameter = 0x83

abbrev pub secured_data_transmission : ℕ
secured_data_transmission = 0x84

abbrev pub control_dtc_setting : ℕ
control_dtc_setting = 0x85

abbrev pub response_on_event : ℕ
response_on_event = 0x86

abbrev pub link_control : ℕ
link_control = 0x87

abbrev pub read_data_by_identifier : ℕ
read_data_by_identifier = 0x22

abbrev pub read_memory_by_address : ℕ
read_memory_by_address = 0x23

abbrev pub read_scaling_data_by_identifier : ℕ
read_scaling_data_by_identifier = 0x24

abbrev pub read_data_by_periodic_identifier : ℕ
read_data_by_periodic_identifier = 0x2a

abbrev pub dynamically_define_data_identifier : ℕ
dynamically_define_data_identifier = 0x2c

abbrev pub write_data_by_identifier : ℕ
write_data_by_identifier = 0x2e

abbrev pub write_memory_by_address : ℕ
write_memory_by_address = 0x3d

abbrev pub clear_diagnostic_information : ℕ
clear_diagnostic_information = 0x14

abbrev pub read_dtc_information : ℕ
read_dtc_information = 0x19

abbrev pub input_output_control_by_identifier : ℕ
input_output_control_by_identifier = 0x2f

abbrev pub routine_control : ℕ
routine_control = 0x31

abbrev pub request_download : ℕ
request_download = 0x34

abbrev pub request_upload : ℕ
request_upload = 0x35

abbrev pub transfer_data : ℕ
transfer_data = 0x36

abbrev pub request_transfer_exit : ℕ
request_transfer_exit = 0x37

abbrev pub request_file_transfer : ℕ
request_file_transfer = 0x38

abbrev pub one_of : List ℕ → ℕ → Bool
one_of [] sid = false
one_of (s ∷ ss) sid = sid == s || one_of ss sid

abbrev with_sub_function : List ℕ
with_sub_function =
    diagnostic_session_control ∷ ecu_reset ∷ security_access ∷ communication_control
    ∷ tester_present ∷ control_dtc_setting ∷ response_on_event ∷ link_control ∷ read_dtc_information
    ∷ routine_control ∷ []

unfoldable pub service_has_sub_function : ℕ → Bool
service_has_sub_function sid = one_of with_sub_function sid

-- The cases of `looks_like_uds`.
abbrev pub known : List ℕ
known =
    diagnostic_session_control ∷ ecu_reset ∷ security_access ∷ communication_control
    ∷ tester_present ∷ access_timing_parameter ∷ secured_data_transmission ∷ control_dtc_setting
    ∷ response_on_event ∷ link_control ∷ read_data_by_identifier ∷ read_memory_by_address
    ∷ read_scaling_data_by_identifier ∷ read_data_by_periodic_identifier
    ∷ dynamically_define_data_identifier ∷ write_data_by_identifier ∷ write_memory_by_address
    ∷ clear_diagnostic_information ∷ read_dtc_information ∷ input_output_control_by_identifier
    ∷ routine_control ∷ request_download ∷ request_upload ∷ transfer_data ∷ request_transfer_exit
    ∷ request_file_transfer ∷ []
