-- ===== src/Packet/Decode.antt =====
-- `interpret_packet` on a whole buffer, as a function of the bytes at their offsets.
use ghetto_subscriber_valida.Prelude.{
  ℕ, ◌+◌, ◌*◌, ◌≤◌, ◌<◌, ◌≡◌, refl, List, [], ◌∷◌, length, drop, ok, arith, All, All-get_or, ◌&&◌,
  ◌==◌, if◌then◌else◌, Bool,
}
use ghetto_subscriber_valida.Host.{ByteOrder, IsByte, load16, ntohs-load16}
use ghetto_subscriber_valida.RawIterator.Laws.{◌!◌, rit_at, rit_read_one, rit_read_two}
use ghetto_subscriber_valida.Packet.{
  PacketInfo, Layout, with_payload, acknowledgement, rejection, unknown, layout, set_data_info,
  set_ack_info, set_reject_info, check_end, interpret_content, interpret_packet, no_end, bad_type,
}

abbrev pub IsBytes : List ℕ → Type 0
IsBytes = All IsByte

-- The length of the longest packet: a payload of 255 bytes and nine bytes round it.
abbrev pub max_packet : ℕ
max_packet = 264

module _ (host : ByteOrder) (buf : List ℕ) where
  abbrev pub flag_at : ℕ → Bool
  flag_at i = buf ! i == 255 && buf ! (i + 1) == 255

  abbrev pub end_code : ℕ → ℕ
  end_code i = if flag_at i then 0 else no_end

  abbrev pub decode_content : Layout → PacketInfo → ℕ × PacketInfo
  decode_content with_payload pi =
      (end_code (7 + buf ! 6), set_data_info (buf ! 5) (buf ! 6) (drop 7 buf) pi)
  decode_content acknowledgement pi = (end_code 6, set_ack_info (buf ! 5) pi)
  decode_content rejection pi =
      (end_code 8, set_reject_info host (256 * buf ! 5 + buf ! 6) (buf ! 7) pi)
  decode_content unknown pi = (bad_type, pi)

  abbrev pub fields : PacketInfo → PacketInfo
  fields pi = record pi { id = buf ! 2; type = 256 * buf ! 3 + buf ! 4 }

  -- What `interpret_packet` finds in a buffer: the code, and `*pi` after it.
  abbrev pub decode : PacketInfo → ℕ × PacketInfo
  decode pi =
      if flag_at 0
      then decode_content (layout (256 * buf ! 3 + buf ! 4)) (fields pi)
      else (no_end, pi)

load16-flag :
    (host : ByteOrder) (a b : ℕ)
    → IsByte a
    → IsByte b
    → (load16 host (a ∷ b ∷ []) == 0xFFFF) ≡ (a == 255 && b == 255)
unfolding load16
load16-flag ByteOrder.little a b ha hb = ground arith
load16-flag ByteOrder.big a b ha hb = ground arith

pub byte-at : (buf : List ℕ) (i : ℕ) → IsBytes buf → buf ! i < 256
byte-at buf i h = All-get_or IsByte buf i 0 h (omega arith)

module _ (host : ByteOrder) (buf : List ℕ) (size : ℕ) (bytes : IsBytes buf)
    (fits : size ≤ length buf) where
  check_end-code :
      (pi : PacketInfo) (i : ℕ)
      → i + 2 ≤ size
      → check_end host pi (rit_at buf i size) ≡ ok (end_code host buf i, pi)
  unfolding check_end
  check_end-code pi i h = ground (
    arith,
    rit_read_two buf i size fits,
    load16-flag host (buf ! i) (buf ! (i + 1)) (byte-at buf i bytes) (byte-at buf (i + 1) bytes),
  )

  module _ (large : max_packet ≤ size) where
    interpret_content-decode :
        (l : Layout) (pi : PacketInfo)
        → layout pi.type ≡ l
        → interpret_content host pi (rit_at buf 5 size) ≡ ok (decode_content host buf l pi)
    unfolding interpret_content
    interpret_content-decode with_payload pi e = ground (
      arith,
      byte-at buf 6 bytes,
      rit_read_one buf 5 size fits,
      rit_read_one buf 6 size fits,
      check_end-code (set_data_info (buf ! 5) (buf ! 6) (drop 7 buf) pi) (7 + buf ! 6),
    )
    interpret_content-decode acknowledgement pi e =
        ground (arith, rit_read_one buf 5 size fits, check_end-code (set_ack_info (buf ! 5) pi) 6)
    interpret_content-decode rejection pi e = ground (
      arith,
      rit_read_two buf 5 size fits,
      rit_read_one buf 7 size fits,
      ntohs-load16 host (buf ! 5) (buf ! 6) (byte-at buf 5 bytes) (byte-at buf 6 bytes),
      check_end-code (set_reject_info host (256 * buf ! 5 + buf ! 6) (buf ! 7) pi) 8,
    )
    interpret_content-decode unknown pi e = ground arith

    -- On a buffer that holds the longest packet `interpret_packet` returns: no assertion fails and
    -- nothing outside the buffer is read, whatever bytes are there. Its results are those of `decode`.
    pub interpret_packet-decode :
        (pi : PacketInfo) → interpret_packet host buf pi size ≡ ok (decode host buf pi)
    unfolding interpret_packet
    interpret_packet-decode pi = ground (
      arith,
      rit_read_two buf 0 size fits,
      load16-flag host (buf ! 0) (buf ! 1) (byte-at buf 0 bytes) (byte-at buf 1 bytes),
      rit_read_one buf 2 size fits,
      rit_read_two buf 3 size fits,
      ntohs-load16 host (buf ! 3) (buf ! 4) (byte-at buf 3 bytes) (byte-at buf 4 bytes),
      interpret_content-decode (layout (256 * buf ! 3 + buf ! 4)) (fields host buf pi) refl,
    )
