-- ===== src/Packet/Typed.antt =====
-- The results of `interpret_packet` fit their C types.
use ghetto_subscriber_valida.Prelude.{
  ℕ, ◌+◌, ◌*◌, ◌≤◌, ◌<◌, ◌≡◌, List, length, ok, refl, get_or, arith, All-drop, All-get_or,
  Bool-cases, inl, inr,
}
use ghetto_subscriber_valida.Host.{ByteOrder, IsByte, store32}
use ghetto_subscriber_valida.RawIterator.Laws.{◌!◌}
use ghetto_subscriber_valida.Packet.{
  PacketInfo, Layout, with_payload, acknowledgement, rejection, unknown, layout, interpret_packet,
  byte_size,
}
use ghetto_subscriber_valida.Packet.Range.{urange, urange-byte_size}
use ghetto_subscriber_valida.Packet.Decode.{
  IsBytes, max_packet, flag_at, decode, decode_content, fields, interpret_packet-decode, byte-at,
}
use ghetto_subscriber_valida.Packet.RoundTrip.{IsTyped, reject_code-set_reject_info}

store32-IsByte : (host : ByteOrder) (x i : ℕ) → get_or (store32 host x) i 0 < 256
unfolding store32
store32-IsByte host x i = elim host as (λ h. get_or (store32 h x) i 0 < 256) [
  | ByteOrder.little ↦
      All-get_or IsByte (store32 ByteOrder.little x) i 0 (ground arith) (omega arith)
  | ByteOrder.big ↦ All-get_or IsByte (store32 ByteOrder.big x) i 0 (ground arith) (omega arith)
]

decode_content-code-lt :
    (host : ByteOrder) (buf : List ℕ) (l : Layout) (q : PacketInfo)
    → (decode_content host buf l q).0 < 65536
decode_content-code-lt host buf with_payload q = ground arith
decode_content-code-lt host buf acknowledgement q = ground arith
decode_content-code-lt host buf rejection q = ground arith
decode_content-code-lt host buf unknown q = omega arith

pub decode-code-lt :
    (host : ByteOrder) (buf : List ℕ) (pi₀ : PacketInfo) → (decode host buf pi₀).0 < 65536
decode-code-lt host buf pi₀ = ground (
  arith,
  decode_content-code-lt host buf (layout (256 * buf ! 3 + buf ! 4)) (fields host buf pi₀),
)

-- The bytes and the type of a packet, but for what its layout asks of the reject code.
record HasBytes (pi : PacketInfo) : Type 0 where
  type_fits : pi.type < 65536
  id_fits : IsByte pi.id
  seq_fits : IsByte pi.cont.b0
  len_fits : IsByte pi.cont.b1
  reject_seq_fits : IsByte pi.cont.b4
  payload_fits : IsBytes pi.cont.payload

module _ (host : ByteOrder) (buf : List ℕ) (bytes : IsBytes buf) where
  decode_content-IsTyped :
      (l : Layout) (pi : PacketInfo)
      → HasBytes pi
      → layout pi.type ≡ l
      → IsTyped host (decode_content host buf l pi).1
  decode_content-IsTyped with_payload pi t e = record {
    type_fits = t.type_fits;
    id_fits = t.id_fits;
    seq_fits = byte-at buf 5 bytes;
    len_fits = byte-at buf 6 bytes;
    reject_seq_fits = t.reject_seq_fits;
    code_fits = λ k. cc;
    payload_fits = All-drop IsByte 7 buf bytes;
  }
  decode_content-IsTyped acknowledgement pi t e = record {
    type_fits = t.type_fits;
    id_fits = t.id_fits;
    seq_fits = byte-at buf 5 bytes;
    len_fits = t.len_fits;
    reject_seq_fits = t.reject_seq_fits;
    code_fits = λ k. cc;
    payload_fits = t.payload_fits;
  }
  decode_content-IsTyped rejection pi t e =
      let small : 256 * buf ! 5 + buf ! 6 < 65536 =
        omega (arith, byte-at buf 5 bytes, byte-at buf 6 bytes) in
      record {
        type_fits = t.type_fits;
        id_fits = t.id_fits;
        seq_fits = store32-IsByte host (256 * buf ! 5 + buf ! 6) 0;
        len_fits = store32-IsByte host (256 * buf ! 5 + buf ! 6) 1;
        reject_seq_fits = byte-at buf 7 bytes;
        code_fits = λ k.
            rw (reject_code-set_reject_info host (256 * buf ! 5 + buf ! 6) (buf ! 7) pi small)
              small;
        payload_fits = t.payload_fits;
      }
  decode_content-IsTyped unknown pi t e = record {
    type_fits = t.type_fits;
    id_fits = t.id_fits;
    seq_fits = t.seq_fits;
    len_fits = t.len_fits;
    reject_seq_fits = t.reject_seq_fits;
    code_fits = λ k. cc;
    payload_fits = t.payload_fits;
  }

  -- The fields that stand in front of the content.
  fields-HasBytes : (pi : PacketInfo) → IsTyped host pi → HasBytes (fields host buf pi)
  fields-HasBytes pi t = record {
    type_fits = omega (arith, byte-at buf 3 bytes, byte-at buf 4 bytes);
    id_fits = byte-at buf 2 bytes;
    seq_fits = t.seq_fits;
    len_fits = t.len_fits;
    reject_seq_fits = t.reject_seq_fits;
    payload_fits = t.payload_fits;
  }

  decode-IsTyped : (pi : PacketInfo) → IsTyped host pi → IsTyped host (decode host buf pi).1
  decode-IsTyped pi t = elim (Bool-cases (flag_at host buf 0)) [
    | inl e ↦ rw e (
        decode_content-IsTyped (layout (256 * buf ! 3 + buf ! 4)) (fields host buf pi)
          (fields-HasBytes pi t) refl)
    | inr e ↦ rw e t
  ]

-- Whatever bytes a buffer for the longest packet holds, `interpret_packet` returns, and both of its results
-- fit: the code in 16 bits, and each field of the packet in its C type. The client ID is an index into the
-- array of expected sequence numbers, whose length is `urange` of its type.
pub interpret_packet-IsTyped :
    (host : ByteOrder) (buf : List ℕ) (size : ℕ) (pi : PacketInfo)
    → IsBytes buf
    → size ≤ length buf
    → max_packet ≤ size
    → IsTyped host pi
    → (code : ℕ) × (pi' : PacketInfo) × (interpret_packet host buf pi size ≡ ok (code, pi'))
      × (code < 65536)
      × IsTyped host pi'
      × (pi'.id < urange byte_size)
interpret_packet-IsTyped host buf size pi bytes fits large t =
    let typed = decode-IsTyped host buf bytes pi t in
    (
      (decode host buf pi).0,
      (decode host buf pi).1,
      interpret_packet-decode host buf size bytes fits large pi,
      decode-code-lt host buf pi,
      typed,
      omega (arith, typed.id_fits, urange-byte_size),
    )
