-- ===== src/Uds/Responses/Yields.antt =====
-- No parser of responses reads outside its span, and each gives a response of its service.
use wadjet_link.Prelude.{
  ℕ, ◌+◌, ◌/◌, ◌%◌, refl, List, [], some, leb, ◌==◌, if◌then◌else◌, ◌&&◌, length, arith,
}
use wadjet_link.Bytes.{get_elem?, read_be16}
use wadjet_link.Uds.ServiceId
use wadjet_link.Uds.Types.{positive_response, read_be_var}
use wadjet_link.Uds.Requests.{rest_from}
use wadjet_link.Uds.Responses.{
  read_timing, read_power_down_time, is_rapid_shut_down, read_block_length,
  parse_diagnostic_session_control_response, parse_ecu_reset_response,
  parse_security_access_response, parse_tester_present_response,
  parse_read_data_by_identifier_response, parse_write_data_by_identifier_response,
  parse_routine_control_response, parse_request_download_response, parse_transfer_data_response,
  parse_request_transfer_exit_response,
}
use wadjet_link.Uds.Reads.{
  Gives, Yields, >>=-Yields, unless_short, if-Gives, >>=-Gives, get_elem?-Gives, read_be16-Gives,
  read_digits-Gives,
}
use wadjet_link.Uds.Requests.Yields.{rest_from-Gives}

pub read_timing-Gives : (bs : List ℕ) → Gives (read_timing bs)
unfolding read_timing
read_timing-Gives bs =
    if-Gives (leb 6 (length bs)) _ _
      (λ h.
        >>=-Gives (read_be16 bs 2) _ (read_be16-Gives bs 2 (ground arith)) (λ x.
          >>=-Gives (read_be16 bs 4) _ (read_be16-Gives bs 4 (ground arith)) (λ y. (_, refl))))
      (λ h. (_, refl))

pub read_power_down_time-Gives : (bs : List ℕ) (t : ℕ) → Gives (read_power_down_time bs t)
unfolding read_power_down_time
read_power_down_time-Gives bs t =
    if-Gives (leb 3 (length bs) && is_rapid_shut_down t) _ _
      (λ h. >>=-Gives (get_elem? bs 2) _ (get_elem?-Gives bs 2 (ground arith)) (λ y. (_, refl)))
      (λ h. (_, refl))

pub read_block_length-Gives : (bs : List ℕ) (n : ℕ) → Gives (read_block_length bs n)
unfolding read_block_length
read_block_length-Gives bs n =
    if-Gives (leb (2 + n) (length bs) && leb n 4) _ _
      (λ h.
        >>=-Gives (read_be_var bs 2 n) _ (read_digits-Gives n bs 2 0 (ground arith))
          (λ y. (_, refl)))
      (λ h. (_, refl))

pub parse_diagnostic_session_control_response-Yields :
    (bs : List ℕ)
    → Yields ServiceId.diagnostic_session_control positive_response
        (parse_diagnostic_session_control_response bs)
unfolding parse_diagnostic_session_control_response
parse_diagnostic_session_control_response-Yields bs =
    unless_short ServiceId.diagnostic_session_control positive_response 2 bs _ (λ long.
      >>=-Yields ServiceId.diagnostic_session_control positive_response (get_elem? bs 1) _
        (get_elem?-Gives bs 1 (omega arith))
        (λ x2.
          >>=-Yields ServiceId.diagnostic_session_control positive_response (read_timing bs) _
            (read_timing-Gives bs) (λ x1. (_, refl, (refl, refl)))))

pub parse_ecu_reset_response-Yields :
    (bs : List ℕ) → Yields ServiceId.ecu_reset positive_response (parse_ecu_reset_response bs)
unfolding parse_ecu_reset_response
parse_ecu_reset_response-Yields bs =
    unless_short ServiceId.ecu_reset positive_response 2 bs _ (λ long.
      >>=-Yields ServiceId.ecu_reset positive_response (get_elem? bs 1) _
        (get_elem?-Gives bs 1 (omega arith))
        (λ x2.
          >>=-Yields ServiceId.ecu_reset positive_response (read_power_down_time bs x2) _
            (read_power_down_time-Gives bs x2) (λ x1. (_, refl, (refl, refl)))))

pub parse_security_access_response-Yields :
    (bs : List ℕ)
    → Yields ServiceId.security_access positive_response (parse_security_access_response bs)
unfolding parse_security_access_response
parse_security_access_response-Yields bs =
    unless_short ServiceId.security_access positive_response 2 bs _ (λ long.
      >>=-Yields ServiceId.security_access positive_response (get_elem? bs 1) _
        (get_elem?-Gives bs 1 (omega arith))
        (λ x2.
          >>=-Yields ServiceId.security_access positive_response
            (if x2 % 2 == 1 then rest_from 2 bs else some []) _
            (if-Gives (x2 % 2 == 1) _ _ (λ _. rest_from-Gives 2 bs) (λ _. (_, refl)))
            (λ x1. (_, refl, (refl, refl)))))

pub parse_tester_present_response-Yields :
    (bs : List ℕ)
    → Yields ServiceId.tester_present positive_response (parse_tester_present_response bs)
unfolding parse_tester_present_response
parse_tester_present_response-Yields bs =
    unless_short ServiceId.tester_present positive_response 2 bs _ (λ long.
      >>=-Yields ServiceId.tester_present positive_response (get_elem? bs 1) _
        (get_elem?-Gives bs 1 (omega arith)) (λ x1. (_, refl, (refl, refl))))

pub parse_read_data_by_identifier_response-Yields :
    (bs : List ℕ)
    → Yields ServiceId.read_data_by_identifier positive_response
        (parse_read_data_by_identifier_response bs)
unfolding parse_read_data_by_identifier_response
parse_read_data_by_identifier_response-Yields bs =
    unless_short ServiceId.read_data_by_identifier positive_response 3 bs _ (λ long.
      >>=-Yields ServiceId.read_data_by_identifier positive_response (read_be16 bs 1) _
        (read_be16-Gives bs 1 (omega arith))
        (λ x2.
          >>=-Yields ServiceId.read_data_by_identifier positive_response (rest_from 3 bs) _
            (rest_from-Gives 3 bs) (λ x1. (_, refl, (refl, refl)))))

pub parse_write_data_by_identifier_response-Yields :
    (bs : List ℕ)
    → Yields ServiceId.write_data_by_identifier positive_response
        (parse_write_data_by_identifier_response bs)
unfolding parse_write_data_by_identifier_response
parse_write_data_by_identifier_response-Yields bs =
    unless_short ServiceId.write_data_by_identifier positive_response 3 bs _ (λ long.
      >>=-Yields ServiceId.write_data_by_identifier positive_response (read_be16 bs 1) _
        (read_be16-Gives bs 1 (omega arith)) (λ x1. (_, refl, (refl, refl))))

pub parse_routine_control_response-Yields :
    (bs : List ℕ)
    → Yields ServiceId.routine_control positive_response (parse_routine_control_response bs)
unfolding parse_routine_control_response
parse_routine_control_response-Yields bs =
    unless_short ServiceId.routine_control positive_response 4 bs _ (λ long.
      >>=-Yields ServiceId.routine_control positive_response (get_elem? bs 1) _
        (get_elem?-Gives bs 1 (omega arith))
        (λ x3.
          >>=-Yields ServiceId.routine_control positive_response (read_be16 bs 2) _
            (read_be16-Gives bs 2 (omega arith))
            (λ x2.
              >>=-Yields ServiceId.routine_control positive_response (rest_from 4 bs) _
                (rest_from-Gives 4 bs) (λ x1. (_, refl, (refl, refl))))))

pub parse_request_download_response-Yields :
    (bs : List ℕ)
    → Yields ServiceId.request_download positive_response (parse_request_download_response bs)
unfolding parse_request_download_response
parse_request_download_response-Yields bs =
    unless_short ServiceId.request_download positive_response 2 bs _ (λ long.
      >>=-Yields ServiceId.request_download positive_response (get_elem? bs 1) _
        (get_elem?-Gives bs 1 (omega arith))
        (λ x2.
          >>=-Yields ServiceId.request_download positive_response
            (read_block_length bs (x2 / 16 % 16)) _ (read_block_length-Gives bs (x2 / 16 % 16))
            (λ x1. (_, refl, (refl, refl)))))

pub parse_transfer_data_response-Yields :
    (bs : List ℕ)
    → Yields ServiceId.transfer_data positive_response (parse_transfer_data_response bs)
unfolding parse_transfer_data_response
parse_transfer_data_response-Yields bs =
    unless_short ServiceId.transfer_data positive_response 2 bs _ (λ long.
      >>=-Yields ServiceId.transfer_data positive_response (get_elem? bs 1) _
        (get_elem?-Gives bs 1 (omega arith))
        (λ x2.
          >>=-Yields ServiceId.transfer_data positive_response (rest_from 2 bs) _
            (rest_from-Gives 2 bs) (λ x1. (_, refl, (refl, refl)))))

pub parse_request_transfer_exit_response-Yields :
    (bs : List ℕ)
    → Yields ServiceId.request_transfer_exit positive_response
        (parse_request_transfer_exit_response bs)
unfolding parse_request_transfer_exit_response
parse_request_transfer_exit_response-Yields bs =
    >>=-Yields ServiceId.request_transfer_exit positive_response (rest_from 1 bs) _
      (rest_from-Gives 1 bs) (λ x1. (_, refl, (refl, refl)))
