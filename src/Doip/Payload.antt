-- ===== src/Doip/Payload.antt =====
-- The `parse_*` functions of `DoIPDecoder`, on the span that they are given. `ok none` is
-- `std::nullopt`, and a read that leaves the span is a fault.
pub mod Length
use wadjet_link.Prelude.{
  ℕ, List, [], ◌∷◌, Bool, ◌||◌, not, Option, none, some, ltb, leb, ◌==◌, if◌then◌else◌, length,
  drop,
}
use wadjet_link.Bytes.{get_elem?, read_be16, read_be32}
use wadjet_link.Decoder.{Decoded, ok, err, fault, ◌>>=◌, or_fault, memcpy}

pub record RoutingActivationRequest : Type 0 where
  pub source_address : ℕ
  pub activation_type : ℕ
  pub reserved : ℕ
  pub oem_specific : Option ℕ

-- The optional four bytes at the end, if the span is long enough for them.
unfoldable pub optional_be32 : List ℕ → ℕ → ℕ → Decoded (Option ℕ)
optional_be32 p size o =
    if leb size (length p) then (do n ← or_fault (read_be32 p o); ok (some n)) else ok none

unfoldable pub parse_routing_activation_request : List ℕ → Decoded (Option RoutingActivationRequest)
parse_routing_activation_request p = if ltb (length p) 7 then ok none else do
  source_address ← or_fault (read_be16 p 0)
  activation_type ← or_fault (get_elem? p 2)
  reserved ← or_fault (read_be32 p 3)
  oem_specific ← optional_be32 p 11 7
  ok (
      some (record {
        source_address = source_address;
        activation_type = activation_type;
        reserved = reserved;
        oem_specific = oem_specific;
      }))

pub record RoutingActivationResponse : Type 0 where
  pub logical_address : ℕ
  pub entity_address : ℕ
  pub response_code : ℕ
  pub reserved : ℕ
  pub oem_specific : Option ℕ

unfoldable pub parse_routing_activation_response :
    List ℕ → Decoded (Option RoutingActivationResponse)
parse_routing_activation_response p = if ltb (length p) 9 then ok none else do
  logical_address ← or_fault (read_be16 p 0)
  entity_address ← or_fault (read_be16 p 2)
  response_code ← or_fault (get_elem? p 4)
  reserved ← or_fault (read_be32 p 5)
  oem_specific ← optional_be32 p 13 9
  ok (
      some (record {
        logical_address = logical_address;
        entity_address = entity_address;
        response_code = response_code;
        reserved = reserved;
        oem_specific = oem_specific;
      }))

pub record DiagnosticMessagePayload : Type 0 where
  pub source_address : ℕ
  pub target_address : ℕ
  pub user_data : List ℕ

unfoldable pub parse_diagnostic_message : List ℕ → Decoded (Option DiagnosticMessagePayload)
parse_diagnostic_message p = if ltb (length p) 4 then ok none else do
  source_address ← or_fault (read_be16 p 0)
  target_address ← or_fault (read_be16 p 2)
  ok (
      some (record {
        source_address = source_address;
        target_address = target_address;
        user_data = if ltb 4 (length p) then drop 4 p else [];
      }))

pub record VehicleIdentificationResponse : Type 0 where
  pub vin : List ℕ
  pub logical_address : ℕ
  pub eid : List ℕ
  pub gid : List ℕ
  pub further_action : ℕ
  pub sync_status : ℕ

unfoldable pub optional_status : List ℕ → Decoded ℕ
optional_status p = if leb 33 (length p) then or_fault (get_elem? p 32) else ok 0

unfoldable pub parse_vehicle_identification_response :
    List ℕ → Decoded (Option VehicleIdentificationResponse)
parse_vehicle_identification_response p = if ltb (length p) 32 then ok none else do
  vin ← memcpy p 17
  logical_address ← or_fault (read_be16 p 17)
  eid ← memcpy (drop 19 p) 6
  gid ← memcpy (drop 25 p) 6
  further_action ← or_fault (get_elem? p 31)
  sync_status ← optional_status p
  ok (
      some (record {
        vin = vin;
        logical_address = logical_address;
        eid = eid;
        gid = gid;
        further_action = further_action;
        sync_status = sync_status;
      }))

-- The power mode, if it is Ready, NotReady or NotSupported.
unfoldable pub parse_diagnostic_power_mode : List ℕ → Decoded (Option ℕ)
parse_diagnostic_power_mode p =
    if ltb (length p) 1
    then ok none
    else do mode ← or_fault (get_elem? p 0); ok (if ltb 2 mode then none else some mode)

-- Node type, greatest and current number of sockets, greatest number of connections.
unfoldable pub parse_entity_status : List ℕ → Decoded (Option (ℕ × (ℕ × (ℕ × ℕ))))
parse_entity_status p = if ltb (length p) 5 then ok none else do
  node_type ← or_fault (get_elem? p 0)
  max_concurrent_sockets ← or_fault (get_elem? p 1)
  current_concurrent_sockets ← or_fault (get_elem? p 2)
  max_connections ← or_fault (read_be16 p 3)
  ok (some (node_type, (max_concurrent_sockets, (current_concurrent_sockets, max_connections))))

unfoldable pub parse_generic_nack : List ℕ → Decoded (Option (ℕ × ℕ))
parse_generic_nack p = if ltb (length p) 3 then ok none else do
  nack_code ← or_fault (get_elem? p 0)
  unknown_payload_type ← or_fault (read_be16 p 1)
  ok (some (nack_code, unknown_payload_type))

unfoldable pub parse_alive_check_response : List ℕ → Decoded (Option ℕ)
parse_alive_check_response p =
    if ltb (length p) 2
    then ok none
    else do tester_source_address ← or_fault (read_be16 p 0); ok (some tester_source_address)
