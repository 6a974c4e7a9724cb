-- ===== src/Decoder.antt =====
-- include/wadjet/protocols/decoder.hpp: the context that passes through the decoder chain and the
-- result of a decoder. `DecodeResultT` holds a header with the next context, or an error, whose
-- message and offset are left out. `fault` is no C++ value: it is an access outside a buffer.
pub mod Reads
use wadjet_link.Prelude.{
  ℕ, ◌+◌, ◌-◌, ◌≡◌, List, [], Bool, Option, none, some, leb, if◌then◌else◌, length, take, drop,
}
use wadjet_link.Bytes
use wadjet_link.Bytes.{get_elem?}

pub data DecodeErrorCode : Type 0 where
  success buffer_too_small invalid_header invalid_checksum invalid_version : DecodeErrorCode
  invalid_length malformed_data unsupported_protocol truncated_payload : DecodeErrorCode

pub data Decoded (A : Type 0) : Type 0 where
  ok : A → Decoded A
  err : DecodeErrorCode → Decoded A
  fault : Decoded A

infixl 5 ◌>>=◌ ◌>>◌
abbrev pub ◌>>=◌ : {A B : Type 0} → Decoded A → (A → Decoded B) → Decoded B
ok a >>= f = f a
err e >>= f = err e
fault >>= f = fault

abbrev pub ◌>>◌ : {B : Type 0} → Decoded (Unit {0}) → Decoded B → Decoded B
m >> k = m >>= λ _. k

-- `if (test) return make_error(e);`
abbrev pub fail_if : Bool → DecodeErrorCode → Decoded (Unit {0})
fail_if test e = if test then err e else ok tt

pub record LayerInfo : Type 0 where
  pub ethertype : ℕ
  pub ip_protocol : ℕ
  pub src_port : ℕ
  pub dst_port : ℕ

pub record DecodeContext : Type 0 where
  pub bytes : List ℕ
  pub original_offset : ℕ
  pub timestamp : ℕ
  pub layer_info : LayerInfo

abbrev pub no_layer_info : LayerInfo
no_layer_info = record { ethertype = 0; ip_protocol = 0; src_port = 0; dst_port = 0 }

unfoldable pub from_packet : List ℕ → ℕ → DecodeContext
from_packet view timestamp = record {
  bytes = view;
  original_offset = 0;
  timestamp = timestamp;
  layer_info = no_layer_info;
}

unfoldable pub sub_context : ℕ → DecodeContext → DecodeContext
sub_context header_size c =
    if leb header_size (length c.bytes)
    then record c {
      bytes = drop header_size c.bytes;
      original_offset = c.original_offset + header_size;
    }
    else record c { bytes = []; original_offset = c.original_offset + length c.bytes }

abbrev pub has_bytes : DecodeContext → ℕ → Bool
has_bytes c n = leb n (length c.bytes)

-- A read that the context guards gives 0 outside the data.
abbrev pub or_fault : {A : Type 0} → Option A → Decoded A
or_fault none = fault
or_fault (some a) = ok a

unfoldable pub read_be16 : DecodeContext → ℕ → Decoded ℕ
read_be16 c o = if leb (o + 2) (length c.bytes) then or_fault (Bytes.read_be16 c.bytes o) else ok 0

unfoldable pub read_be32 : DecodeContext → ℕ → Decoded ℕ
read_be32 c o = if leb (o + 4) (length c.bytes) then or_fault (Bytes.read_be32 c.bytes o) else ok 0

unfoldable pub read_u8 : DecodeContext → ℕ → Decoded ℕ
read_u8 c o = if leb (o + 1) (length c.bytes) then or_fault (get_elem? c.bytes o) else ok 0

unfoldable pub read_bytes : DecodeContext → ℕ → ℕ → List ℕ
read_bytes c o len = if leb (o + len) (length c.bytes) then take len (drop o c.bytes) else []

-- `ctx.data[i]`, which nothing guards.
unfoldable pub data_at : DecodeContext → ℕ → Decoded ℕ
data_at c i = or_fault (get_elem? c.bytes i)

-- `std::memcpy(dst, src.data(), n)` from a span.
unfoldable pub memcpy : List ℕ → ℕ → Decoded (List ℕ)
memcpy src n = if leb n (length src) then ok (take n src) else fault
