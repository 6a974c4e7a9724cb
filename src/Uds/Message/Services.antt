-- ===== src/Uds/Message/Services.antt =====
-- Two services as a whole: the request that reads identifiers, and the range of a download.
use wadjet_link.Prelude.{
  ℕ, ◌+◌, ◌/◌, ◌%◌, ◌^◌, ◌≤◌, ◌<◌, ◌≡◌, refl, List, ◌∷◌, ◌++◌, Bool, false, none, some, ltb, leb,
  if◌then◌else◌, All, length, take, drop, arith, le→ltb, Bool-cases, inl, inr,
}
use wadjet_link.Bytes.{IsBytes}
use wadjet_link.Decoder.Reads.{get_elem?_in, u8_at}
use wadjet_link.Uds.ServiceId
use wadjet_link.Uds.ServiceId.{service_has_sub_function}
use wadjet_link.Uds.Types.{request, request_download_request, read_data_by_identifier_request}
use wadjet_link.Uds.Reads.{subspan_in}
use wadjet_link.Uds.Requests.{
  parse_read_data_by_identifier_request, parse_request_download_request, read_memory,
  data_format_from_byte, address_format_from_byte,
}
use wadjet_link.Uds.Message.{
  ok, plain_header, request_header, request_message, parse_request, dispatch_sid, decode,
}
use wadjet_link.Uds.Message.RoundTrip.{
  bytes_of, pairs-bytes_of, read_identifiers_lem, be_value, read_be_var_lem,
}

module _ (did : ℕ) (dids tail : List ℕ) where
  abbrev pub read_request : List ℕ
  read_request = ServiceId.read_data_by_identifier ∷ bytes_of (did ∷ dids) ++ tail

  -- The request to read a list of identifiers is decoded to just these, in their order: nothing is
  -- lost, and a single byte behind the last of them is dropped without an error.
  pub decode-bytes_of :
      All (λ d. d < 2 ^ 16) (did ∷ dids)
      → length tail ≤ 1
      → decode read_request
        ≡ some (
            ok (record {
              header =
                  plain_header request ServiceId.read_data_by_identifier read_request none false
                    (bytes_of (did ∷ dids) ++ tail);
              message = read_data_by_identifier_request (record { data_identifiers = did ∷ dids });
            }))
  unfolding decode dispatch_sid parse_request request_header request_message
      service_has_sub_function parse_read_data_by_identifier_request
  decode-bytes_of h k =
      let one : ltb (length read_request) 1 ≡ false = le→ltb _ _ (omega arith) in
      let three : ltb (length read_request) 3 ≡ false = le→ltb _ _ (omega arith) in
      let all = read_identifiers_lem (length read_request) read_request 1 (omega arith) in
      rw
        (
          decode,
          one,
          subspan_in 1 read_request (omega arith),
          three,
          all,
          pairs-bytes_of (did ∷ dids) tail h k,
        )
        refl

-- The range that the bytes of a download request state, most significant byte first.
abbrev pub address_in : List ℕ → ℕ
address_in bs = be_value 0 (take (u8_at bs 2 % 16) (drop 3 bs))

abbrev pub size_in : List ℕ → ℕ
size_in bs = be_value 0 (take (u8_at bs 2 / 16 % 16) (drop (3 + u8_at bs 2 % 16) bs))

abbrev pub holds_range : List ℕ → Bool
holds_range bs = leb (3 + u8_at bs 2 % 16 + u8_at bs 2 / 16 % 16) (length bs)

-- Of a download request of at least four bytes the address and the size are the numbers that
-- stand at the places that the format byte gives, modulo 2 ^ 64. Where the bytes end before, the
-- request is accepted all the same, with address 0 and size 0.
pub parse_request_download_request_lem :
    (bs : List ℕ)
    → IsBytes bs
    → 4 ≤ length bs
    → parse_request_download_request bs
      ≡ some (
          request_download_request (record {
            data_format = data_format_from_byte (u8_at bs 1);
            address_and_length_format = address_format_from_byte (u8_at bs 2);
            memory_address = if holds_range bs then address_in bs % 2 ^ 64 else 0;
            memory_size = if holds_range bs then size_in bs % 2 ^ 64 else 0;
          }))
unfolding parse_request_download_request read_memory
parse_request_download_request_lem bs b h =
    let long : ltb (length bs) 4 ≡ false = le→ltb _ _ h in
    elim (Bool-cases (holds_range bs)) [
      | inl e ↦
          let inside : 3 + u8_at bs 2 % 16 + u8_at bs 2 / 16 % 16 ≤ length bs = ground (arith, e) in
          let a = read_be_var_lem bs 3 (u8_at bs 2 % 16) b (omega arith) in
          let s = read_be_var_lem bs (3 + u8_at bs 2 % 16) (u8_at bs 2 / 16 % 16) b inside in
          rw
            (
              parse_request_download_request,
              long,
              get_elem?_in bs 1 (omega arith),
              get_elem?_in bs 2 (omega arith),
              read_memory,
              e,
              a,
              s,
            )
            refl
      | inr e ↦
          rw
            (
              parse_request_download_request,
              long,
              get_elem?_in bs 1 (omega arith),
              get_elem?_in bs 2 (omega arith),
              read_memory,
              e,
            )
            refl
    ]
