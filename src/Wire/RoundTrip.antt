-- ===== src/Wire/RoundTrip.antt =====
-- Encoding and decoding of frame headers.
use aurelia.Prelude.{
  ℕ, ◌+◌, ◌≡◌, refl, sym, ap, subst, ◌∙◌, List, [], ◌∷◌, ◌++◌, arith, All, length, length-append,
  All-append,
}
use aurelia.Ids.{Result, ok, ◌>>◌}
use aurelia.Wire.Bytes.{
  read-elim, IsByte, to_be_bytes, to_be_bytes-IsByte, length-to_be_bytes, read_u16, read_u32,
  read_u64, read_u16_append, read_u32_append, read_u64_append,
}
use aurelia.Wire.Header.{
  check_version, decode_fields, WireHeader, Fits, protocol_version, header_len, encode, decode,
  layout, encode-eq-layout,
}

length-layout : (h : WireHeader) → length (layout h) ≡ header_len
unfolding to_be_bytes
length-layout h = refl

-- Every header of the protocol's version whose fields fit their widths is read back, unchanged,
-- from its encoding.
pub decode-encode :
    (h : WireHeader) → h.version ≡ protocol_version → Fits h → decode (encode h) ≡ ok h
unfolding decode
decode-encode h v f =
    rw (encode-eq-layout h, length-layout h, read_u16_append h.version _ f.version)
      (rw v (
        rw (
          read_u16_append h.flags _ f.flags,
          read_u32_append h.msg_type _ f.msg_type,
          read_u32_append h.peer_msg_id _ f.peer_msg_id,
          read_u64_append h.src_taberna _ f.src_taberna,
          read_u64_append h.dst_taberna _ f.dst_taberna,
          read_u32_append h.payload_len _ f.payload_len,
        )))

-- The encoding has 32 elements, all of them bytes, whatever the fields are.
pub encode-IsByte : (h : WireHeader) → (length (encode h) ≡ header_len) × All IsByte (encode h)
encode-IsByte h = rw (encode-eq-layout h) (
  length-layout h,
  All-append IsByte _ _ (to_be_bytes-IsByte 2 h.version) (
      All-append IsByte _ _ (to_be_bytes-IsByte 2 h.flags) (
        All-append IsByte _ _ (to_be_bytes-IsByte 4 h.msg_type) (
          All-append IsByte _ _ (to_be_bytes-IsByte 4 h.peer_msg_id) (
            All-append IsByte _ _ (to_be_bytes-IsByte 8 h.src_taberna) (
              All-append IsByte _ _ (to_be_bytes-IsByte 8 h.dst_taberna)
                (All-append IsByte _ _ (to_be_bytes-IsByte 4 h.payload_len) tt)))))),
)

length-nil : (xs : List ℕ) → length xs ≡ 0 → xs ≡ []
length-nil [] h = refl
length-nil (x ∷ xs) h = absurd (omega arith)

read_length :
    (buf rest : List ℕ) (width v : ℕ)
    → buf ≡ to_be_bytes width v ++ rest
    → length buf ≡ width + length rest
read_length buf rest width v p =
    ap length p
    ∙ omega (arith, length-append (to_be_bytes width v) rest, length-to_be_bytes width v)

check_version-bind :
    {B : Type 0} (version : ℕ) (k : Result B) {b : B}
    → (check_version version >> k) ≡ ok b
    → (version ≡ protocol_version) × (k ≡ ok b)
check_version-bind version k e = ground arith

-- The fields in order make up the buffer, and the read ends at its end.
whole_buffer :
    (h : WireHeader) (buf r1 r2 r3 r4 r5 r6 r7 : List ℕ)
    → length buf ≡ header_len
    → buf ≡ to_be_bytes 2 h.version ++ r1
    → r1 ≡ to_be_bytes 2 h.flags ++ r2
    → r2 ≡ to_be_bytes 4 h.msg_type ++ r3
    → r3 ≡ to_be_bytes 4 h.peer_msg_id ++ r4
    → r4 ≡ to_be_bytes 8 h.src_taberna ++ r5
    → r5 ≡ to_be_bytes 8 h.dst_taberna ++ r6
    → r6 ≡ to_be_bytes 4 h.payload_len ++ r7
    → encode h ≡ buf
whole_buffer h buf r1 r2 r3 r4 r5 r6 r7 full p1 p2 p3 p4 p5 p6 p7 =
    encode-eq-layout h ∙ sym (rw (p1, p2, p3, p4, p5, p6, p7, end))
  where
    end : r7 ≡ []
    end = length-nil r7 (
        omega (
          arith,
          full,
          read_length buf r1 2 _ p1,
          read_length r1 r2 2 _ p2,
          read_length r2 r3 4 _ p3,
          read_length r3 r4 4 _ p4,
          read_length r4 r5 8 _ p5,
          read_length r5 r6 8 _ p6,
          read_length r6 r7 4 _ p7,
        ))

decode-ok :
    (buf : List ℕ) (h : WireHeader)
    → decode buf ≡ ok h
    → (length buf ≡ header_len) × (decode_fields buf ≡ ok h)
unfolding decode
decode-ok buf h e = ground arith

-- A buffer of bytes that decode accepts is the encoding of the header that it is read as, whose
-- version is the protocol's and whose fields fit their widths.
pub encode-decode :
    (buf : List ℕ) (h : WireHeader)
    → All IsByte buf
    → decode buf ≡ ok h
    → (encode h ≡ buf) × (h.version ≡ protocol_version) × Fits h
unfolding decode_fields read_u16 read_u32 read_u64
encode-decode buf h bytes e =
    read-elim 2 buf _ bytes (decode-ok buf h e).1 λ version r1 p1 f1 b1 e1.
      read-elim 2 r1 _ b1 (check_version-bind version _ e1).1 λ flags r2 p2 f2 b2 e2.
        read-elim 4 r2 _ b2 e2 λ msg_type r3 p3 f3 b3 e3.
          read-elim 4 r3 _ b3 e3 λ peer_msg_id r4 p4 f4 b4 e4.
            read-elim 8 r4 _ b4 e4 λ src r5 p5 f5 b5 e5.
              read-elim 8 r5 _ b5 e5 λ dst r6 p6 f6 b6 e6.
                read-elim 4 r6 _ b6 e6 λ len r7 p7 f7 b7 e7.
                  let header : WireHeader = record {
                    version = version;
                    flags = flags;
                    msg_type = msg_type;
                    peer_msg_id = peer_msg_id;
                    src_taberna = src;
                    dst_taberna = dst;
                    payload_len = len;
                  } in
                  let same : header ≡ h = cc in
                  subst (λ k. (encode k ≡ buf) × (k.version ≡ protocol_version) × Fits k) same
                    (
                      whole_buffer header buf r1 r2 r3 r4 r5 r6 r7 (decode-ok buf h e).0 p1 p2 p3 p4
                          p5 p6 p7,
                      (check_version-bind version _ e1).0,
                      record {
                        version = omega arith;
                        flags = omega arith;
                        msg_type = omega arith;
                        peer_msg_id = omega arith;
                        src_taberna = omega arith;
                        dst_taberna = omega arith;
                        payload_len = omega arith;
                      },
                    )
