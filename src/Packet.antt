-- ===== src/Packet.antt =====
-- packet.c and packet.h: packets in memory and on the wire.

mod Tests
pub mod Alerts
pub mod Decode
pub mod RoundTrip
pub mod Typed
pub mod Range
pub mod Accepted
pub mod Wire
use ghetto_subscriber_valida.Prelude.{
  ℕ, ◌+◌, ◌%◌, ◌^◌, List, [], ◌∷◌, ◌||◌, ◌==◌, if◌then◌else◌, Bool, get_or, drop, Outcome, ok,
  aborted, ◌>>=◌, not, length, ◌≡◌, ◌<◌, ◌≤◌,
}
use ghetto_subscriber_valida.Host.{
  ByteOrder, IsByte, store16, store32, load16, load32, htons, ntohs,
}
use ghetto_subscriber_valida.RawIterator.{RawIterator, rit_init, rit_read, rit_write, rit_skip}

abbrev pub packet_start : ℕ
packet_start = 0xFFFF

abbrev pub packet_end : ℕ
packet_end = 0xFFFF

-- `packet_type`. A received type is a cast 16-bit number, so a type is a number.
abbrev pub data_packet : ℕ
data_packet = 0xFFF1

abbrev pub ack : ℕ
ack = 0xFFF2

abbrev pub reject : ℕ
reject = 0xFFF3

abbrev pub acc_per : ℕ
acc_per = 0xFFF8

abbrev pub not_paid : ℕ
not_paid = 0xFFF9

abbrev pub not_exist : ℕ
not_exist = 0xFFFA

abbrev pub acc_ok : ℕ
acc_ok = 0xFFFB

-- `reject_code`. The value of BAD_TYPE is that of ACC_PER.
abbrev pub out_of_seq : ℕ
out_of_seq = 0xFFF4

abbrev pub bad_len : ℕ
bad_len = 0xFFF5

abbrev pub no_end : ℕ
no_end = 0xFFF6

abbrev pub dup_pack : ℕ
dup_pack = 0xFFF7

abbrev pub bad_type : ℕ
bad_type = 0xFFF8

-- sizeof(client_id), sizeof(sequence_num) and sizeof(payload_len); sizeof(uint16_t).
abbrev pub byte_size : ℕ
byte_size = 1

abbrev pub short_size : ℕ
short_size = 2

-- The union `content`, as the bytes that its members share: `data_info` has `seq_num` at 0, `len` at
-- 1 and the pointer behind all others, `ack_info` has `recvd_seq_num` at 0, `reject_info` has `code`
-- at 0 to 3 and `recvd_seq_num` at 4. A pointer is the memory from it to the end of its object.
pub record Content : Type 0 where
  pub b0 : ℕ
  pub b1 : ℕ
  pub b2 : ℕ
  pub b3 : ℕ
  pub b4 : ℕ
  pub payload : List ℕ

-- `packet_info`.
pub record PacketInfo : Type 0 where
  pub type : ℕ
  pub id : ℕ
  pub cont : Content

abbrev pub seq_num : PacketInfo → ℕ
seq_num pi = pi.cont.b0

abbrev pub data_len : PacketInfo → ℕ
data_len pi = pi.cont.b1

abbrev pub reject_code : ByteOrder → PacketInfo → ℕ
reject_code host pi = load32 host (pi.cont.b0 ∷ pi.cont.b1 ∷ pi.cont.b2 ∷ pi.cont.b3 ∷ [])

abbrev pub reject_seq_num : PacketInfo → ℕ
reject_seq_num pi = pi.cont.b4

abbrev pub set_data_info : ℕ → ℕ → List ℕ → PacketInfo → PacketInfo
set_data_info seq len payload pi = record pi {
  cont = record pi.cont { b0 = seq; b1 = len; payload = payload };
}

abbrev pub set_ack_info : ℕ → PacketInfo → PacketInfo
set_ack_info seq pi = record pi { cont = record pi.cont { b0 = seq } }

abbrev pub set_reject_info : ByteOrder → ℕ → ℕ → PacketInfo → PacketInfo
set_reject_info host code seq pi =
    let bs = store32 host code in
    record pi {
      cont = record pi.cont {
        b0 = get_or bs 0 0;
        b1 = get_or bs 1 0;
        b2 = get_or bs 2 0;
        b3 = get_or bs 3 0;
        b4 = seq;
      };
    }

-- The cases of `switch (pi->type)`, the same in `flatten` and in `interpret_packet`.
pub data Layout : Type 0 where
  with_payload acknowledgement rejection unknown : Layout

unfoldable pub layout : ℕ → Layout
layout type =
    if type == data_packet
      || type == acc_per
      || type == not_paid
      || type == not_exist
      || type == acc_ok
    then with_payload
    else if type == ack
    then acknowledgement
    else if type == reject
    then rejection
    else unknown

module _ (host : ByteOrder) where
  -- The `switch` of `flatten`: the bytes written, and their number.
  unfoldable pub flatten_content : PacketInfo → RawIterator → Outcome (ℕ × RawIterator)
  flatten_content pi rit = elim (layout pi.type) [
    | with_payload ↦ do
      rit₁ ← rit_write byte_size (seq_num pi ∷ []) rit
      rit₂ ← rit_write byte_size (data_len pi ∷ []) rit₁
      rit₃ ← rit_write (data_len pi) pi.cont.payload rit₂
      ok (byte_size + byte_size + data_len pi, rit₃)
    | acknowledgement ↦ do rit₁ ← rit_write byte_size (seq_num pi ∷ []) rit; ok (byte_size, rit₁)
    | rejection ↦ do
      rit₁ ← rit_write short_size (store16 host (htons host (reject_code host pi))) rit
      rit₂ ← rit_write byte_size (reject_seq_num pi ∷ []) rit₁
      ok (short_size + byte_size, rit₂)
    | unknown ↦ aborted
  ]

  -- `flatten`: the size that it returns, and the buffer after it.
  unfoldable pub flatten : PacketInfo → List ℕ → ℕ → Outcome (ℕ × List ℕ)
  unfolding rit_init flatten_content
  flatten pi buf size = do
    let rit = rit_init buf size
    rit₁ ← rit_write short_size (store16 host packet_start) rit
    rit₂ ← rit_write byte_size (pi.id ∷ []) rit₁
    rit₃ ← rit_write short_size (store16 host (htons host pi.type)) rit₂
    (content_size, rit₄) ← flatten_content pi rit₃
    rit₅ ← rit_write short_size (store16 host packet_end) rit₄
    ok (short_size + byte_size + short_size + short_size + content_size, rit₅.bytes)

  -- The end of `interpret_packet`: zero, or NO_END if there is no end flag.
  unfoldable pub check_end : PacketInfo → RawIterator → Outcome (ℕ × PacketInfo)
  check_end pi rit = do
    (short, rit₁) ← rit_read short_size rit
    ok ((if load16 host short == packet_end then 0 else no_end), pi)

  -- The `switch` of `interpret_packet`, and what comes after it.
  unfoldable pub interpret_content : PacketInfo → RawIterator → Outcome (ℕ × PacketInfo)
  unfolding check_end rit_skip
  interpret_content pi rit = elim (layout pi.type) [
    | with_payload ↦ do
      (seq, rit₁) ← rit_read byte_size rit
      (len, rit₂) ← rit_read byte_size rit₁
      let pi' = set_data_info (get_or seq 0 0) (get_or len 0 0) (drop rit₂.curr rit₂.bytes) pi
      check_end pi' (rit_skip (data_len pi') rit₂)
    | acknowledgement ↦ do
      (seq, rit₁) ← rit_read byte_size rit
      check_end (set_ack_info (get_or seq 0 0) pi) rit₁
    | rejection ↦ do
      (code, rit₁) ← rit_read short_size rit
      (seq, rit₂) ← rit_read byte_size rit₁
      check_end (set_reject_info host (ntohs host (load16 host code)) (get_or seq 0 0) pi) rit₂
    | unknown ↦ ok (bad_type, pi)
  ]

  -- `interpret_packet` behind the start flag: the client ID, the type and what depends on it.
  unfoldable pub interpret_fields : PacketInfo → RawIterator → Outcome (ℕ × PacketInfo)
  unfolding interpret_content
  interpret_fields pi rit = do
    (id, rit₁) ← rit_read byte_size rit
    (type, rit₂) ← rit_read short_size rit₁
    interpret_content (record pi { id = get_or id 0 0; type = ntohs host (load16 host type) }) rit₂

  -- `interpret_packet`: the code that it returns, and `*pi` after it, which was `pi` before.
  unfoldable pub interpret_packet : List ℕ → PacketInfo → ℕ → Outcome (ℕ × PacketInfo)
  unfolding rit_init interpret_fields
  interpret_packet buf pi size = do
    (start, rit) ← rit_read short_size (rit_init buf size)
    if load16 host start == packet_start then interpret_fields pi rit else ok (no_end, pi)
