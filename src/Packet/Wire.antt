-- ===== src/Packet/Wire.antt =====
-- The wire format of packet.h, and that `flatten` writes it.
use ghetto_subscriber_valida.Prelude.{
  ℕ, ◌≤◌, ◌≡◌, ◌≢◌, refl, List, [], ◌∷◌, ◌++◌, length, take, ok, arith, length-append, length-take,
}
use ghetto_subscriber_valida.Host.{ByteOrder, be16, store16, store16-htons}
use ghetto_subscriber_valida.RawIterator.Laws.{filled, rit_filled, rit_write-filled}
use ghetto_subscriber_valida.Packet.{
  PacketInfo, Layout, with_payload, acknowledgement, rejection, unknown, layout, seq_num, data_len,
  reject_code, reject_seq_num, flatten, flatten_content,
}

module _ (host : ByteOrder) where
  abbrev pub wire_content : Layout → PacketInfo → List ℕ
  wire_content with_payload pi = seq_num pi ∷ data_len pi ∷ take (data_len pi) pi.cont.payload
  wire_content acknowledgement pi = seq_num pi ∷ []
  wire_content rejection pi = be16 (reject_code host pi) ++ (reject_seq_num pi ∷ [])
  wire_content unknown pi = []

  abbrev pub header : PacketInfo → List ℕ
  header pi = 255 ∷ 255 ∷ pi.id ∷ be16 pi.type

  -- The bytes of a packet: the flags, the fields in network order, and the payload.
  abbrev pub wire : PacketInfo → List ℕ
  wire pi = (header pi ++ wire_content (layout pi.type) pi) ++ (255 ∷ 255 ∷ [])

-- A packet that can be sent: its type is one of packet.h, and its payload has the length that it says.
pub record IsSendable (pi : PacketInfo) : Type 0 where
  pub known : layout pi.type ≢ unknown
  pub has_payload : layout pi.type ≡ with_payload → data_len pi ≤ length pi.cont.payload

store16-flag : (host : ByteOrder) → store16 host 0xFFFF ≡ 255 ∷ 255 ∷ []
unfolding store16
store16-flag ByteOrder.little = refl
store16-flag ByteOrder.big = refl

module _ (host : ByteOrder) (pi : PacketInfo) (buf : List ℕ) (size : ℕ)
    (fits : size ≤ length buf) where
  flatten_content-wire :
      (l : Layout)
      → layout pi.type ≡ l
      → l ≢ unknown
      → (layout pi.type ≡ with_payload → data_len pi ≤ length pi.cont.payload)
      → length (header host pi ++ wire_content host l pi) ≤ size
      → flatten_content host pi (rit_filled (header host pi) buf size)
        ≡ ok (
          length (wire_content host l pi),
          rit_filled (header host pi ++ wire_content host l pi) buf size,
        )
  unfolding flatten_content
  flatten_content-wire with_payload e k h s = ground (
    arith,
    rit_write-filled (header host pi) (seq_num pi ∷ []) buf 1 size,
    rit_write-filled (header host pi ++ (seq_num pi ∷ [])) (data_len pi ∷ []) buf 1 size,
    rit_write-filled (header host pi ++ (seq_num pi ∷ data_len pi ∷ [])) pi.cont.payload buf
        (data_len pi) size,
    length-take (data_len pi) pi.cont.payload,
  )
  flatten_content-wire acknowledgement e k h s =
      ground (arith, rit_write-filled (header host pi) (seq_num pi ∷ []) buf 1 size)
  flatten_content-wire rejection e k h s = ground (
    arith,
    store16-htons host (reject_code host pi),
    rit_write-filled (header host pi) (be16 (reject_code host pi)) buf 2 size,
    rit_write-filled (header host pi ++ be16 (reject_code host pi)) (reject_seq_num pi ∷ []) buf 1
        size,
  )
  flatten_content-wire unknown e k h s = absurd (k refl)

  -- `flatten` of a packet that can be sent writes its wire format at the start of a buffer that is
  -- large enough, leaves the rest of the buffer as it was, and returns the length of that format.
  pub flatten-wire :
      IsSendable pi
      → length (wire host pi) ≤ size
      → flatten host pi buf size ≡ ok (length (wire host pi), filled (wire host pi) buf)
  unfolding flatten
  flatten-wire v h = ground (
    arith,
    store16-flag host,
    store16-htons host pi.type,
    rit_write-filled [] (255 ∷ 255 ∷ []) buf 2 size,
    rit_write-filled (255 ∷ 255 ∷ []) (pi.id ∷ []) buf 1 size,
    rit_write-filled (255 ∷ 255 ∷ pi.id ∷ []) (be16 pi.type) buf 2 size,
    flatten_content-wire (layout pi.type) refl v.known v.has_payload,
    rit_write-filled (header host pi ++ wire_content host (layout pi.type) pi) (255 ∷ 255 ∷ []) buf
        2 size,
    length-append (header host pi ++ wire_content host (layout pi.type) pi) (255 ∷ 255 ∷ []),
    length-append (wire_content host (layout pi.type) pi) (255 ∷ 255 ∷ []),
  )
