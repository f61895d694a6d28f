-- ===== src/Packet/Accepted.antt =====
-- What a code of 0 from `interpret_packet` says of the buffer.
use ghetto_subscriber_valida.Prelude.{
  ℕ, suc, zero, ◌+◌, ◌*◌, ◌≤◌, ◌≡◌, refl, List, [], ◌∷◌, ◌++◌, length, take, subst, ok, arith,
  Bool-cases, inl, inr, get_or-append, ap, ◌∙◌,
}
use ghetto_subscriber_valida.Host.{ByteOrder, IsByte}
use ghetto_subscriber_valida.RawIterator.Laws.{◌!◌, filled}
use ghetto_subscriber_valida.Packet.{
  PacketInfo, Layout, with_payload, acknowledgement, rejection, unknown, layout, data_len, flatten,
  interpret_packet,
}
use ghetto_subscriber_valida.Packet.Wire.{wire, wire_content, header, IsSendable, flatten-wire}
use ghetto_subscriber_valida.Packet.Decode.{
  IsBytes, max_packet, flag_at, decode, decode_content, fields, interpret_packet-decode,
}
use ghetto_subscriber_valida.Packet.RoundTrip.{
  reject_code-set_reject_info, type-decode_content, length-wire-le,
}

-- The bytes of `buf` that hold a payload of length `n` and the end flag.
filled-flag :
    (buf : List ℕ) (n : ℕ)
    → n + 2 ≤ length buf
    → buf ! n ≡ 255
    → buf ! (n + 1) ≡ 255
    → filled (take n buf ++ (255 ∷ 255 ∷ [])) buf ≡ buf
filled-flag [] n h a b = absurd (omega arith)
filled-flag (x ∷ []) n h a b = absurd (omega arith)
filled-flag (x ∷ y ∷ buf) zero h a b = ground arith
filled-flag (x ∷ y ∷ buf) (suc n) h a b =
    ap (◌∷◌ x) (filled-flag (y ∷ buf) n (omega arith) a (ground arith))

module _ (host : ByteOrder) (b0 b1 b2 b3 b4 b5 b6 b7 b8 b9 : ℕ) (rest : List ℕ)
    (pi : PacketInfo) where
  abbrev received : List ℕ
  received = b0 ∷ b1 ∷ b2 ∷ b3 ∷ b4 ∷ b5 ∷ b6 ∷ b7 ∷ b8 ∷ b9 ∷ rest

  filled_of_decode_content :
      (l : Layout)
      → IsBytes received
      → b0 ≡ 255
      → b1 ≡ 255
      → 9 + b6 ≤ length received
      → (decode_content host received l (fields host received pi)).0 ≡ 0
      → filled
          ((header host (decode_content host received l (fields host received pi)).1
              ++ wire_content host l (decode_content host received l (fields host received pi)).1)
            ++ (255 ∷ 255 ∷ []))
          received
        ≡ received
  filled_of_decode_content with_payload b e f h c = ground (
    arith,
    filled-flag (b7 ∷ b8 ∷ b9 ∷ rest) b6,
    get_or-append (7 + b6) b6 (b0 ∷ b1 ∷ b2 ∷ b3 ∷ b4 ∷ b5 ∷ b6 ∷ []) (b7 ∷ b8 ∷ b9 ∷ rest) 0,
    get_or-append (7 + b6 + 1) (b6 + 1) (b0 ∷ b1 ∷ b2 ∷ b3 ∷ b4 ∷ b5 ∷ b6 ∷ [])
        (b7 ∷ b8 ∷ b9 ∷ rest) 0,
  )
  filled_of_decode_content acknowledgement b e f h c = ground arith
  filled_of_decode_content rejection b e f h c =
      ground (arith, reject_code-set_reject_info host (256 * b5 + b6) b7 (fields host received pi))
  filled_of_decode_content unknown b e f h c = ground arith

  decode_content-IsSendable :
      (l : Layout) (q : PacketInfo)
      → layout q.type ≡ l
      → IsBytes received
      → 264 ≤ length received
      → (decode_content host received l q).0 ≡ 0
      → IsSendable (decode_content host received l q).1
  decode_content-IsSendable with_payload q e b h c = record {
    known = λ k. cc;
    has_payload = λ _. omega (arith, b);
  }
  decode_content-IsSendable acknowledgement q e b h c = record {
    known = λ k. cc;
    has_payload = λ k. absurd (cc);
  }
  decode_content-IsSendable rejection q e b h c = record {
    known = λ k. cc;
    has_payload = λ k. absurd (cc);
  }
  decode_content-IsSendable unknown q e b h c = absurd (omega arith)

  filled_of_decode :
      IsBytes received
      → 264 ≤ length received
      → (decode host received pi).0 ≡ 0
      → (filled (wire host (decode host received pi).1) received ≡ received)
  filled_of_decode b h c = elim (Bool-cases (flag_at host received 0)) [
    | inl t ↦
        let l : Layout = layout (256 * b3 + b4) in
        let q : PacketInfo = fields host received pi in
        rw (t, ap layout (type-decode_content host received l q))
          (filled_of_decode_content l b (ground arith) (ground arith) (omega (arith, b))
            (rw t at c))
    | inr f ↦ absurd (ground arith)
  ]

  decode-IsSendable :
      IsBytes received
      → 264 ≤ length received
      → (decode host received pi).0 ≡ 0
      → IsSendable (decode host received pi).1
  decode-IsSendable b h c = elim (Bool-cases (flag_at host received 0)) [
    | inl t ↦
        let l : Layout = layout (256 * b3 + b4) in
        let q : PacketInfo = fields host received pi in
        rw t (decode_content-IsSendable l q refl b h (rw t at c))
    | inr f ↦ absurd (ground arith)
  ]

  len_of_decode_content :
      (l : Layout) (q : PacketInfo)
      → layout q.type ≡ l
      → IsBytes received
      → layout (decode_content host received l q).1.type ≡ with_payload
      → IsByte (data_len (decode_content host received l q).1)
  len_of_decode_content with_payload q e b k = omega (arith, b)
  len_of_decode_content acknowledgement q e b k = absurd (cc)
  len_of_decode_content rejection q e b k = absurd (cc)
  len_of_decode_content unknown q e b k = absurd (cc)

  len_of_decode :
      IsBytes received
      → (decode host received pi).0 ≡ 0
      → layout (decode host received pi).1.type ≡ with_payload
      → IsByte (data_len (decode host received pi).1)
  len_of_decode b c k = elim (Bool-cases (flag_at host received 0)) [
    | inl t ↦ rw t (
        len_of_decode_content (layout (256 * b3 + b4)) (fields host received pi) refl b (rw t at k))
    | inr f ↦ absurd (ground arith)
  ]

-- A buffer that begins with the wire format of a packet.
abbrev pub Begins : ByteOrder → List ℕ → PacketInfo → Type 0
Begins host buf pi =
    (filled (wire host pi) buf ≡ buf)
    × IsSendable pi
    × (layout pi.type ≡ with_payload → IsByte (data_len pi))

pub decode-Begins :
    (host : ByteOrder) (buf : List ℕ) (pi : PacketInfo)
    → IsBytes buf
    → 264 ≤ length buf
    → (decode host buf pi).0 ≡ 0
    → Begins host buf (decode host buf pi).1
decode-Begins host (b0 ∷ b1 ∷ b2 ∷ b3 ∷ b4 ∷ b5 ∷ b6 ∷ b7 ∷ b8 ∷ b9 ∷ rest) pi b h c = (
  filled_of_decode host b0 b1 b2 b3 b4 b5 b6 b7 b8 b9 rest pi b h c,
  decode-IsSendable host b0 b1 b2 b3 b4 b5 b6 b7 b8 b9 rest pi b h c,
  len_of_decode host b0 b1 b2 b3 b4 b5 b6 b7 b8 b9 rest pi b c,
)
decode-Begins host _ pi b h c = absurd (omega arith)

-- A code of 0 from `interpret_packet` on a buffer that holds the longest packet means that the buffer
-- begins with the wire format of the packet found, so `flatten` of that packet into the same buffer
-- changes nothing and returns its length.
pub interpret-flatten :
    (host : ByteOrder) (buf : List ℕ) (pi₀ pi : PacketInfo) (size : ℕ)
    → IsBytes buf
    → max_packet ≤ size
    → size ≤ length buf
    → interpret_packet host buf pi₀ size ≡ ok (0, pi)
    → flatten host pi buf size ≡ ok (length (wire host pi), buf)
interpret-flatten host buf pi₀ pi size b large fits e =
    let d : decode host buf pi₀ ≡ (0, pi) =
      cc (interpret_packet-decode host buf size b fits large pi₀) in
    let code : (decode host buf pi₀).0 ≡ 0 = ap (λ (r : ℕ × PacketInfo). r.0) d in
    let back : Begins host buf pi =
      subst (λ (r : ℕ × PacketInfo). Begins host buf r.1) d
        (decode-Begins host buf pi₀ b (omega arith) code) in
    flatten-wire host pi buf size fits back.1
      (omega (arith, length-wire-le host pi (layout pi.type) back.2))
    ∙ ap (λ out. ok (length (wire host pi), out)) back.0
