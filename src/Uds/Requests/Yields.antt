-- ===== src/Uds/Requests/Yields.antt =====
-- No parser of requests reads outside its span, and each gives a request of its service.
use wadjet_link.Prelude.{
  ℕ, zero, suc, ◌+◌, ◌/◌, ◌%◌, refl, List, [], some, ltb, leb, if◌then◌else◌, length, arith,
}
use wadjet_link.Bytes.{get_elem?, read_be16}
use wadjet_link.Uds.ServiceId
use wadjet_link.Uds.Types.{request, extract_sub_function, read_be_var}
use wadjet_link.Uds.Requests.{
  rest_from, read_identifiers, read_memory, is_send_key, parse_diagnostic_session_control_request,
  parse_ecu_reset_request, parse_security_access_request, parse_tester_present_request,
  parse_read_data_by_identifier_request, parse_write_data_by_identifier_request,
  parse_routine_control_request, parse_request_download_request, parse_transfer_data_request,
  parse_request_transfer_exit_request,
}
use wadjet_link.Uds.Reads.{
  Gives, Yields, >>=-Yields, unless_short, if-Gives, >>=-Gives, get_elem?-Gives, read_be16-Gives,
  subspan_in, read_digits-Gives,
}

pub rest_from-Gives : (n : ℕ) (bs : List ℕ) → Gives (rest_from n bs)
unfolding rest_from
rest_from-Gives n bs =
    if-Gives (ltb n (length bs)) _ _ (λ h. (_, subspan_in n bs (ground arith))) (λ h. (_, refl))

pub read_identifiers-Gives : (fuel : ℕ) (bs : List ℕ) (i : ℕ) → Gives (read_identifiers fuel bs i)
unfolding read_identifiers
read_identifiers-Gives zero bs i = (_, refl)
read_identifiers-Gives (suc fuel) bs i =
    if-Gives (ltb (i + 1) (length bs)) _ _
      (λ h. >>=-Gives (read_be16 bs i) _ (read_be16-Gives bs i (ground arith)) (λ did.
        >>=-Gives (read_identifiers fuel bs (i + 2)) _ (read_identifiers-Gives fuel bs (i + 2))
          (λ dids. (_, refl))))
      (λ h. (_, refl))

pub read_memory-Gives : (bs : List ℕ) (a s : ℕ) → Gives (read_memory bs a s)
unfolding read_memory
read_memory-Gives bs a s =
    if-Gives (leb (3 + a + s) (length bs)) _ _
      (λ h. >>=-Gives (read_be_var bs 3 a) _ (read_digits-Gives a bs 3 0 (ground arith)) (λ x.
        >>=-Gives (read_be_var bs (3 + a) s) _ (read_digits-Gives s bs (3 + a) 0 (ground arith))
          (λ y. (_, refl))))
      (λ h. (_, refl))

pub parse_diagnostic_session_control_request-Yields :
    (bs : List ℕ)
    → Yields ServiceId.diagnostic_session_control request
        (parse_diagnostic_session_control_request bs)
unfolding parse_diagnostic_session_control_request
parse_diagnostic_session_control_request-Yields bs =
    unless_short ServiceId.diagnostic_session_control request 2 bs _ (λ long.
      >>=-Yields ServiceId.diagnostic_session_control request (get_elem? bs 1) _
        (get_elem?-Gives bs 1 (omega arith)) (λ x1. (_, refl, (refl, refl))))

pub parse_ecu_reset_request-Yields :
    (bs : List ℕ) → Yields ServiceId.ecu_reset request (parse_ecu_reset_request bs)
unfolding parse_ecu_reset_request
parse_ecu_reset_request-Yields bs = unless_short ServiceId.ecu_reset request 2 bs _ (λ long.
    >>=-Yields ServiceId.ecu_reset request (get_elem? bs 1) _ (get_elem?-Gives bs 1 (omega arith))
      (λ x1. (_, refl, (refl, refl))))

pub parse_security_access_request-Yields :
    (bs : List ℕ) → Yields ServiceId.security_access request (parse_security_access_request bs)
unfolding parse_security_access_request
parse_security_access_request-Yields bs =
    unless_short ServiceId.security_access request 2 bs _ (λ long.
      >>=-Yields ServiceId.security_access request (get_elem? bs 1) _
        (get_elem?-Gives bs 1 (omega arith))
        (λ x2.
          >>=-Yields ServiceId.security_access request
            (if is_send_key (extract_sub_function x2) then rest_from 2 bs else some []) _
            (if-Gives (is_send_key (extract_sub_function x2)) _ _ (λ _. rest_from-Gives 2 bs)
              (λ _. (_, refl)))
            (λ x1. (_, refl, (refl, refl)))))

pub parse_tester_present_request-Yields :
    (bs : List ℕ) → Yields ServiceId.tester_present request (parse_tester_present_request bs)
unfolding parse_tester_present_request
parse_tester_present_request-Yields bs =
    unless_short ServiceId.tester_present request 2 bs _ (λ long.
      >>=-Yields ServiceId.tester_present request (get_elem? bs 1) _
        (get_elem?-Gives bs 1 (omega arith)) (λ x1. (_, refl, (refl, refl))))

pub parse_read_data_by_identifier_request-Yields :
    (bs : List ℕ)
    → Yields ServiceId.read_data_by_identifier request (parse_read_data_by_identifier_request bs)
unfolding parse_read_data_by_identifier_request
parse_read_data_by_identifier_request-Yields bs =
    unless_short ServiceId.read_data_by_identifier request 3 bs _ (λ long.
      >>=-Yields ServiceId.read_data_by_identifier request (read_identifiers (length bs) bs 1) _
        (read_identifiers-Gives (length bs) bs 1) (λ x1. (_, refl, (refl, refl))))

pub parse_write_data_by_identifier_request-Yields :
    (bs : List ℕ)
    → Yields ServiceId.write_data_by_identifier request (parse_write_data_by_identifier_request bs)
unfolding parse_write_data_by_identifier_request
parse_write_data_by_identifier_request-Yields bs =
    unless_short ServiceId.write_data_by_identifier request 4 bs _ (λ long.
      >>=-Yields ServiceId.write_data_by_identifier request (read_be16 bs 1) _
        (read_be16-Gives bs 1 (omega arith))
        (λ x2.
          >>=-Yields ServiceId.write_data_by_identifier request (rest_from 3 bs) _
            (rest_from-Gives 3 bs) (λ x1. (_, refl, (refl, refl)))))

pub parse_routine_control_request-Yields :
    (bs : List ℕ) → Yields ServiceId.routine_control request (parse_routine_control_request bs)
unfolding parse_routine_control_request
parse_routine_control_request-Yields bs =
    unless_short ServiceId.routine_control request 4 bs _ (λ long.
      >>=-Yields ServiceId.routine_control request (get_elem? bs 1) _
        (get_elem?-Gives bs 1 (omega arith))
        (λ x3.
          >>=-Yields ServiceId.routine_control request (read_be16 bs 2) _
            (read_be16-Gives bs 2 (omega arith))
            (λ x2.
              >>=-Yields ServiceId.routine_control request (rest_from 4 bs) _ (rest_from-Gives 4 bs)
                (λ x1. (_, refl, (refl, refl))))))

pub parse_request_download_request-Yields :
    (bs : List ℕ) → Yields ServiceId.request_download request (parse_request_download_request bs)
unfolding parse_request_download_request
parse_request_download_request-Yields bs =
    unless_short ServiceId.request_download request 4 bs _ (λ long.
      >>=-Yields ServiceId.request_download request (get_elem? bs 1) _
        (get_elem?-Gives bs 1 (omega arith))
        (λ x3.
          >>=-Yields ServiceId.request_download request (get_elem? bs 2) _
            (get_elem?-Gives bs 2 (omega arith))
            (λ x2.
              >>=-Yields ServiceId.request_download request
                (read_memory bs (x2 % 16) (x2 / 16 % 16)) _
                (read_memory-Gives bs (x2 % 16) (x2 / 16 % 16)) (λ x1. (_, refl, (refl, refl))))))

pub parse_transfer_data_request-Yields :
    (bs : List ℕ) → Yields ServiceId.transfer_data request (parse_transfer_data_request bs)
unfolding parse_transfer_data_request
parse_transfer_data_request-Yields bs = unless_short ServiceId.transfer_data request 2 bs _ (λ long.
    >>=-Yields ServiceId.transfer_data request (get_elem? bs 1) _
      (get_elem?-Gives bs 1 (omega arith))
      (λ x2.
        >>=-Yields ServiceId.transfer_data request (rest_from 2 bs) _ (rest_from-Gives 2 bs)
          (λ x1. (_, refl, (refl, refl)))))

pub parse_request_transfer_exit_request-Yields :
    (bs : List ℕ)
    → Yields ServiceId.request_transfer_exit request (parse_request_transfer_exit_request bs)
unfolding parse_request_transfer_exit_request
parse_request_transfer_exit_request-Yields bs =
    >>=-Yields ServiceId.request_transfer_exit request (rest_from 1 bs) _ (rest_from-Gives 1 bs)
      (λ x1. (_, refl, (refl, refl)))
