-- ===== src/Uds/Types.antt =====
-- uds_types.hpp and uds_services.hpp. An `enum class` over a byte is that byte, since a cast gives
-- it any value; identifiers are their numbers. Of the alternatives of `UdsServiceMessage` those
-- stand here that the decoder makes. A span is the list of its bytes, and `none` is an access
-- outside it.
use wadjet_link.Prelude.{
  ℕ, zero, suc, ◌+◌, ◌*◌, ◌/◌, ◌%◌, ◌^◌, List, Bool, true, false, Option, none, some, leb, ◌==◌,
  if◌then◌else◌, length, drop,
}
use wadjet_link.Bytes.{get_elem?, ◌>>=◌}

abbrev pub negative_response_sid : ℕ
negative_response_sid = 0x7f

abbrev pub response_sid_offset : ℕ
response_sid_offset = 0x40

-- `byte & 0x7F` and `(byte & 0x80) != 0`
abbrev pub extract_sub_function : ℕ → ℕ
extract_sub_function byte = byte % 128

abbrev pub extract_suppress_positive_response : ℕ → Bool
extract_suppress_positive_response byte = byte / 128 % 2 == 1

-- `data.subspan(n)`
unfoldable pub subspan : ℕ → List ℕ → Option (List ℕ)
subspan n bs = if leb n (length bs) then some (drop n bs) else none

-- `read_be_var`: the shift drops what leaves the 64 bits.
unfoldable pub read_digits : ℕ → List ℕ → ℕ → ℕ → Option ℕ
read_digits zero bs i acc = some acc
read_digits (suc len) bs i acc = do
  b ← get_elem? bs i
  read_digits len bs (i + 1) (acc * 2 ^ 8 % 2 ^ 64 + b)

abbrev pub read_be_var : List ℕ → ℕ → ℕ → Option ℕ
read_be_var bs o len = read_digits len bs o 0

pub data MessageDirection : Type 0 where
  request positive_response negative_response : MessageDirection

pub record UdsHeader : Type 0 where
  pub service_id : ℕ
  pub direction : MessageDirection
  pub sub_function : Option ℕ
  pub suppress_positive_response : Bool
  pub rejected_service_id : Option ℕ
  pub negative_response_code : Option ℕ
  pub service_data : List ℕ
  pub raw_data : List ℕ

abbrev pub is_negative_direction : MessageDirection → Bool
is_negative_direction request = false
is_negative_direction positive_response = false
is_negative_direction negative_response = true

abbrev pub is_negative_response : UdsHeader → Bool
is_negative_response h = is_negative_direction h.direction

pub record DiagnosticSessionControlRequest : Type 0 where
  pub session_type : ℕ
  pub suppress_positive_response : Bool

pub record DiagnosticSessionControlResponse : Type 0 where
  pub session_type : ℕ
  pub p2_server_max_ms : ℕ
  pub p2_star_server_max_ms : ℕ

pub record EcuResetRequest : Type 0 where
  pub reset_type : ℕ
  pub suppress_positive_response : Bool

pub record EcuResetResponse : Type 0 where
  pub reset_type : ℕ
  pub power_down_time : Option ℕ

pub record SecurityAccessRequest : Type 0 where
  pub access_type : ℕ
  pub suppress_positive_response : Bool
  pub security_key : List ℕ

pub record SecurityAccessResponse : Type 0 where
  pub access_type : ℕ
  pub security_seed : List ℕ

pub record TesterPresentRequest : Type 0 where
  pub sub_function : ℕ
  pub suppress_positive_response : Bool

pub record TesterPresentResponse : Type 0 where
  pub sub_function : ℕ

pub record ReadDataByIdentifierRequest : Type 0 where
  pub data_identifiers : List ℕ

pub record DataRecord : Type 0 where
  pub did : ℕ
  pub bytes : List ℕ

pub record ReadDataByIdentifierResponse : Type 0 where
  pub records : List DataRecord

pub record WriteDataByIdentifierRequest : Type 0 where
  pub data_identifier : ℕ
  pub data_record : List ℕ

pub record WriteDataByIdentifierResponse : Type 0 where
  pub data_identifier : ℕ

pub record RoutineControlRequest : Type 0 where
  pub routine_control_type : ℕ
  pub routine_identifier : ℕ
  pub routine_option_record : List ℕ
  pub suppress_positive_response : Bool

pub record RoutineControlResponse : Type 0 where
  pub routine_control_type : ℕ
  pub routine_identifier : ℕ
  pub routine_info : List ℕ
  pub routine_status_record : List ℕ

pub record DataFormatIdentifier : Type 0 where
  pub compression_method : ℕ
  pub encrypting_method : ℕ

pub record AddressAndLengthFormatIdentifier : Type 0 where
  pub memory_size_length : ℕ
  pub memory_address_length : ℕ

pub record RequestDownloadRequest : Type 0 where
  pub data_format : DataFormatIdentifier
  pub address_and_length_format : AddressAndLengthFormatIdentifier
  pub memory_address : ℕ
  pub memory_size : ℕ

pub record RequestDownloadResponse : Type 0 where
  pub length_format_identifier : ℕ
  pub max_number_of_block_length : ℕ

pub record TransferDataRequest : Type 0 where
  pub block_sequence_counter : ℕ
  pub transfer_request_parameter_record : List ℕ

pub record TransferDataResponse : Type 0 where
  pub block_sequence_counter : ℕ
  pub transfer_response_parameter_record : List ℕ

pub record RequestTransferExitRequest : Type 0 where
  pub transfer_request_parameter_record : List ℕ

pub record RequestTransferExitResponse : Type 0 where
  pub transfer_response_parameter_record : List ℕ

pub record NegativeResponseMessage : Type 0 where
  pub rejected_service_id : ℕ
  pub negative_response_code : ℕ

pub data UdsServiceMessage : Type 0 where
  monostate : UdsServiceMessage
  diagnostic_session_control_request : DiagnosticSessionControlRequest → UdsServiceMessage
  diagnostic_session_control_response : DiagnosticSessionControlResponse → UdsServiceMessage
  ecu_reset_request : EcuResetRequest → UdsServiceMessage
  ecu_reset_response : EcuResetResponse → UdsServiceMessage
  security_access_request : SecurityAccessRequest → UdsServiceMessage
  security_access_response : SecurityAccessResponse → UdsServiceMessage
  tester_present_request : TesterPresentRequest → UdsServiceMessage
  tester_present_response : TesterPresentResponse → UdsServiceMessage
  read_data_by_identifier_request : ReadDataByIdentifierRequest → UdsServiceMessage
  read_data_by_identifier_response : ReadDataByIdentifierResponse → UdsServiceMessage
  write_data_by_identifier_request : WriteDataByIdentifierRequest → UdsServiceMessage
  write_data_by_identifier_response : WriteDataByIdentifierResponse → UdsServiceMessage
  routine_control_request : RoutineControlRequest → UdsServiceMessage
  routine_control_response : RoutineControlResponse → UdsServiceMessage
  request_download_request : RequestDownloadRequest → UdsServiceMessage
  request_download_response : RequestDownloadResponse → UdsServiceMessage
  transfer_data_request : TransferDataRequest → UdsServiceMessage
  transfer_data_response : TransferDataResponse → UdsServiceMessage
  request_transfer_exit_request : RequestTransferExitRequest → UdsServiceMessage
  request_transfer_exit_response : RequestTransferExitResponse → UdsServiceMessage
  negative_response_message : NegativeResponseMessage → UdsServiceMessage

pub record UdsDecodeResult : Type 0 where
  pub header : UdsHeader
  pub message : UdsServiceMessage

-- `UdsHeader::header_size`
abbrev pub header_size : UdsHeader → ℕ
header_size h =
    if is_negative_response h then 3 else elim h.sub_function [ none ↦ 1 | some sub ↦ 2 ]
