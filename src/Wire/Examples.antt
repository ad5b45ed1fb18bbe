-- ===== src/Wire/Examples.antt =====
-- Tests of the wire formats, and their theorems at concrete inputs.
use aurelia.Prelude.{ℕ, ◌≡◌, refl, true, false, List, [], ◌∷◌, ◌++◌, arith, take, replicate}
use aurelia.Ids.{ok, err, msg_hello, unsupported_version, decode_failure}
use aurelia.Wire.Bytes.{read_u16, read_u32, read_u64, from_be_bytes}
use aurelia.Wire.Header.{WireHeader, Fits, protocol_version, encode, decode}
use aurelia.Wire.RoundTrip.{decode-encode, encode-decode}
use aurelia.Wire.Utf8.{is_utf8}
use aurelia.Wire.Payloads.{new_error, error_to_bytes, error_from_bytes}
use aurelia.Wire.PayloadLaws.{error_from_bytes-to_bytes}

abbrev hello_header : WireHeader
hello_header = record {
  version = 1;
  flags = 2;
  msg_type = msg_hello;
  peer_msg_id = 258;
  src_taberna = 5;
  dst_taberna = 6;
  payload_len = 0;
}

encode_hello : take 12 (encode hello_header) ≡ 0 ∷ 1 ∷ 0 ∷ 2 ∷ 0 ∷ 0 ∷ 0 ∷ 1 ∷ 0 ∷ 0 ∷ 1 ∷ 2 ∷ []
unfolding encode
encode_hello = refl

decode_short : decode (0 ∷ 1 ∷ []) ≡ err decode_failure
unfolding decode
decode_short = refl

decode_version : decode (0 ∷ 2 ∷ replicate 30 0) ≡ err unsupported_version
unfolding decode read_u16 from_be_bytes
decode_version = refl

utf8_cases :
    (is_utf8 (0xc3 ∷ 0xa9 ∷ []) ≡ true)
    × (is_utf8 (0xc0 ∷ 0x80 ∷ []) ≡ false)
    × (is_utf8 (0xed ∷ 0xa0 ∷ 0x80 ∷ []) ≡ false)
    × (is_utf8 (0xf0 ∷ 0x9f ∷ 0x98 ∷ []) ≡ false)
unfolding is_utf8
utf8_cases = (refl, refl, refl, refl)

hello-Fits : Fits hello_header
hello-Fits = omega arith

decode-encode_example : decode (encode hello_header) ≡ ok hello_header
decode-encode_example = decode-encode hello_header refl hello-Fits

abbrev wire_bytes : List ℕ
wire_bytes = 0 ∷ 1 ∷ replicate 29 0 ++ 7 ∷ []

abbrev wire_header : WireHeader
wire_header = record {
  version = 1;
  flags = 0;
  msg_type = 0;
  peer_msg_id = 0;
  src_taberna = 0;
  dst_taberna = 0;
  payload_len = 7;
}

decode-wire_bytes : decode wire_bytes ≡ ok wire_header
unfolding decode read_u16 read_u32 read_u64 from_be_bytes
decode-wire_bytes = refl

encode-decode_example :
    (encode wire_header ≡ wire_bytes) × (wire_header.version ≡ protocol_version) × Fits wire_header
encode-decode_example = encode-decode wire_bytes wire_header (omega arith) decode-wire_bytes

accent-is_utf8 : is_utf8 (0xc3 ∷ 0xa9 ∷ []) ≡ true
unfolding is_utf8
accent-is_utf8 = refl

error_from_bytes-to_bytes_example :
    error_from_bytes (error_to_bytes (new_error 12 (0xc3 ∷ 0xa9 ∷ [])))
    ≡ ok (new_error 12 (0xc3 ∷ 0xa9 ∷ []))
error_from_bytes-to_bytes_example =
    error_from_bytes-to_bytes 12 (0xc3 ∷ 0xa9 ∷ []) (omega arith) accent-is_utf8
