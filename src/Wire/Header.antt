-- ===== src/Wire/Header.antt =====
-- `WireHeader` of crates/peering/src/wire.rs: the fixed 32-byte header of every frame.
use aurelia.Prelude.{
  ℕ, ◌+◌, ◌≤◌, ◌≡◌, refl, List, [], ◌++◌, ◌==◌, if◌then◌else◌, length, take, drop, replicate,
}
use aurelia.Prelude.Words.{u16_max, u32_max, u64_max}
use aurelia.Ids.{Result, ok, err, decode_failure, unsupported_version, ◌>>=◌, ◌>>◌}
use aurelia.Wire.Bytes.{to_be_bytes, read_u16, read_u32, read_u64}

abbrev pub protocol_version : ℕ
protocol_version = 1

-- The bits of `WireFlags`.
abbrev pub flag_blob : ℕ
flag_blob = 0x0001

abbrev pub flag_reconnect : ℕ
flag_reconnect = 0x0002

pub record WireHeader : Type 0 where
  pub version : ℕ
  pub flags : ℕ
  pub msg_type : ℕ
  pub peer_msg_id : ℕ
  pub src_taberna : ℕ
  pub dst_taberna : ℕ
  pub payload_len : ℕ

abbrev pub header_len : ℕ
header_len = 32

-- `out[offset..offset + bytes.len()].copy_from_slice(&bytes)`
unfoldable pub write_at : List ℕ → ℕ → List ℕ → List ℕ
write_at out offset bytes = take offset out ++ bytes ++ drop (offset + length bytes) out

unfoldable pub encode : WireHeader → List ℕ
unfolding write_at to_be_bytes
encode h =
    let out = replicate header_len 0 in
    let out = write_at out 0 (to_be_bytes 2 h.version) in
    let out = write_at out 2 (to_be_bytes 2 h.flags) in
    let out = write_at out 4 (to_be_bytes 4 h.msg_type) in
    let out = write_at out 8 (to_be_bytes 4 h.peer_msg_id) in
    let out = write_at out 12 (to_be_bytes 8 h.src_taberna) in
    let out = write_at out 20 (to_be_bytes 8 h.dst_taberna) in
    write_at out 28 (to_be_bytes 4 h.payload_len)

abbrev pub check_version : ℕ → Result (Unit {0})
check_version version = if version == protocol_version then ok tt else err unsupported_version

unfoldable pub decode_fields : List ℕ → Result WireHeader
decode_fields buf = do
  (version, buf) ← read_u16 buf
  check_version version
  (flags, buf) ← read_u16 buf
  (msg_type, buf) ← read_u32 buf
  (peer_msg_id, buf) ← read_u32 buf
  (src_taberna, buf) ← read_u64 buf
  (dst_taberna, buf) ← read_u64 buf
  (payload_len, buf) ← read_u32 buf
  ok (record {
    version = version;
    flags = flags;
    msg_type = msg_type;
    peer_msg_id = peer_msg_id;
    src_taberna = src_taberna;
    dst_taberna = dst_taberna;
    payload_len = payload_len;
  })

unfoldable pub decode : List ℕ → Result WireHeader
unfolding decode_fields
decode buf = if length buf == header_len then decode_fields buf else err decode_failure

-- Each field fits its width.
pub record Fits (h : WireHeader) : Type 0 where
  pub version : h.version ≤ u16_max
  pub flags : h.flags ≤ u16_max
  pub msg_type : h.msg_type ≤ u32_max
  pub peer_msg_id : h.peer_msg_id ≤ u32_max
  pub src_taberna : h.src_taberna ≤ u64_max
  pub dst_taberna : h.dst_taberna ≤ u64_max
  pub payload_len : h.payload_len ≤ u32_max

-- The layout: the fields in order, big-endian, with no gap.
abbrev pub layout : WireHeader → List ℕ
layout h =
    to_be_bytes 2 h.version
    ++ (to_be_bytes 2 h.flags
        ++ (to_be_bytes 4 h.msg_type
            ++ (to_be_bytes 4 h.peer_msg_id
                ++ (to_be_bytes 8 h.src_taberna
                    ++ (to_be_bytes 8 h.dst_taberna ++ (to_be_bytes 4 h.payload_len ++ []))))))

pub encode-eq-layout : (h : WireHeader) → encode h ≡ layout h
unfolding encode
encode-eq-layout h = refl
