-- ===== src/Packet/RoundTrip.antt =====
-- `flatten` and `interpret_packet` are inverses on well-formed packets, as packet.h says.
use ghetto_subscriber_valida.Prelude.{
  ℕ, ◌+◌, ◌*◌, ◌/◌, ◌%◌, ◌≤◌, ◌<◌, ◌≡◌, ◌≢◌, refl, List, [], ◌∷◌, ◌++◌, length, take, drop, ok,
  ◌>>=◌, arith, All-append, All-take, All-drop, get_or-append, length-append, length-take,
  take-length-append, ap, sym,
}
use mathlib.Core.List.{append_assoc}
use ghetto_subscriber_valida.Host.{ByteOrder, IsByte, store32, load32-store32}
use ghetto_subscriber_valida.RawIterator.Laws.{filled, length-filled}
use ghetto_subscriber_valida.Packet.{
  PacketInfo, Layout, with_payload, acknowledgement, rejection, unknown, layout, seq_num, data_len,
  reject_code, reject_seq_num, flatten, interpret_packet, set_reject_info,
}
use ghetto_subscriber_valida.Packet.Wire.{wire, wire_content, header, IsSendable, flatten-wire}
use ghetto_subscriber_valida.Packet.Decode.{
  IsBytes, max_packet, decode, decode_content, interpret_packet-decode,
}

-- The fields have the widths of their C types; a type and a reject code fit in the uint16_t that
-- carries them.
pub record IsTyped (host : ByteOrder) (pi : PacketInfo) : Type 0 where
  pub type_fits : pi.type < 65536
  pub id_fits : IsByte pi.id
  pub seq_fits : IsByte pi.cont.b0
  pub len_fits : IsByte pi.cont.b1
  pub reject_seq_fits : IsByte pi.cont.b4
  pub code_fits : layout pi.type ≡ rejection → reject_code host pi < 65536
  pub payload_fits : IsBytes pi.cont.payload

-- The members of `content` that a packet of a layout uses agree, each read on its own host.
abbrev pub SameContent : ByteOrder → ByteOrder → Layout → PacketInfo → PacketInfo → Type 0
SameContent h₁ h₂ with_payload p q =
    (seq_num p ≡ seq_num q)
    × (data_len p ≡ data_len q)
    × (take (data_len p) p.cont.payload ≡ take (data_len q) q.cont.payload)
SameContent h₁ h₂ acknowledgement p q = seq_num p ≡ seq_num q
SameContent h₁ h₂ rejection p q =
    (reject_code h₁ p ≡ reject_code h₂ q) × (reject_seq_num p ≡ reject_seq_num q)
SameContent h₁ h₂ unknown p q = Unit

abbrev pub SamePacket : ByteOrder → ByteOrder → PacketInfo → PacketInfo → Type 0
SamePacket h₁ h₂ p q = (p.type ≡ q.type) × (p.id ≡ q.id) × SameContent h₁ h₂ (layout p.type) p q

pub reject_code-set_reject_info :
    (host : ByteOrder) (code seq : ℕ) (pi : PacketInfo)
    → code < 65536
    → reject_code host (set_reject_info host code seq pi) ≡ code
unfolding store32
reject_code-set_reject_info ByteOrder.little code seq pi h =
    load32-store32 ByteOrder.little code (omega arith)
reject_code-set_reject_info ByteOrder.big code seq pi h =
    load32-store32 ByteOrder.big code (omega arith)

pub type-decode_content :
    (h : ByteOrder) (buf : List ℕ) (l : Layout) (q : PacketInfo)
    → (decode_content h buf l q).1.type ≡ q.type
type-decode_content h buf with_payload q = refl
type-decode_content h buf acknowledgement q = refl
type-decode_content h buf rejection q = refl
type-decode_content h buf unknown q = refl

id-decode_content :
    (h : ByteOrder) (buf : List ℕ) (l : Layout) (q : PacketInfo)
    → (decode_content h buf l q).1.id ≡ q.id
id-decode_content h buf with_payload q = refl
id-decode_content h buf acknowledgement q = refl
id-decode_content h buf rejection q = refl
id-decode_content h buf unknown q = refl

module _ (h₁ h₂ : ByteOrder) (pi pi₀ : PacketInfo) (rest : List ℕ) where
  -- What `decode` makes of a packet's wire format, whatever follows it.
  decode_content-wire :
      (l : Layout) (q : PacketInfo)
      → l ≢ unknown
      → IsTyped h₁ pi
      → layout pi.type ≡ l
      → (layout pi.type ≡ with_payload → data_len pi ≤ length pi.cont.payload)
      → let buf = ((header h₁ pi ++ wire_content h₁ l pi) ++ (255 ∷ 255 ∷ [])) ++ rest in
        ((decode_content h₂ buf l q).0 ≡ 0) × SameContent h₁ h₂ l pi (decode_content h₂ buf l q).1
  decode_content-wire with_payload q k t e h = rw (append_assoc sent (255 ∷ 255 ∷ []) rest) (
      ground (
        arith,
        length-take (data_len pi) pi.cont.payload,
        get_or-append (7 + data_len pi) 0 (front ++ sent) (255 ∷ 255 ∷ rest) 0,
        get_or-append (7 + data_len pi + 1) 1 (front ++ sent) (255 ∷ 255 ∷ rest) 0,
        take-length-append (data_len pi) sent (255 ∷ 255 ∷ rest),
      ))
    where
      sent : List ℕ
      sent = take (data_len pi) pi.cont.payload

      front : List ℕ
      front = header h₁ pi ++ (seq_num pi ∷ data_len pi ∷ [])
  decode_content-wire acknowledgement q k t e h = (refl, refl)
  decode_content-wire rejection q k t e h = ground (
    arith,
    t.code_fits e,
    reject_code-set_reject_info h₂ (reject_code h₁ pi) (reject_seq_num pi) q,
  )
  decode_content-wire unknown q k t e h = absurd (k refl)

  pub decode-wire :
      IsTyped h₁ pi
      → IsSendable pi
      → ((decode h₂ (wire h₁ pi ++ rest) pi₀).0 ≡ 0)
        × SamePacket h₁ h₂ pi (decode h₂ (wire h₁ pi ++ rest) pi₀).1
  decode-wire t v =
      let e : 256 * (pi.type / 256 % 256) + pi.type % 256 ≡ pi.type = omega (arith, t.type_fits) in
      let q : PacketInfo = record { type = pi.type; id = pi.id; cont = pi₀.cont } in
      let body = decode_content-wire (layout pi.type) q v.known t refl v.has_payload in
      rw e (
        body.0,
        (
          sym (type-decode_content h₂ (wire h₁ pi ++ rest) (layout pi.type) q),
          sym (id-decode_content h₂ (wire h₁ pi ++ rest) (layout pi.type) q),
          body.1,
        ),
      )

  wire_content-IsBytes : (l : Layout) → IsTyped h₁ pi → IsBytes (wire_content h₁ l pi)
  wire_content-IsBytes with_payload t =
      (t.seq_fits, (t.len_fits, All-take IsByte (data_len pi) pi.cont.payload t.payload_fits))
  wire_content-IsBytes acknowledgement t = (t.seq_fits, tt)
  wire_content-IsBytes rejection t = omega (arith, t.reject_seq_fits)
  wire_content-IsBytes unknown t = tt

  wire-IsBytes : IsTyped h₁ pi → IsBytes rest → IsBytes (wire h₁ pi ++ rest)
  wire-IsBytes t b =
      All-append IsByte (wire h₁ pi) rest
        (All-append IsByte (header h₁ pi ++ wire_content h₁ (layout pi.type) pi) (255 ∷ 255 ∷ [])
          (All-append IsByte (header h₁ pi) (wire_content h₁ (layout pi.type) pi)
            (omega (arith, t.id_fits)) (wire_content-IsBytes (layout pi.type) t))
          (omega arith))
        b

pub length-wire-le :
    (h : ByteOrder) (pi : PacketInfo) (l : Layout)
    → (l ≡ with_payload → IsByte (data_len pi))
    → length ((header h pi ++ wire_content h l pi) ++ (255 ∷ 255 ∷ [])) ≤ max_packet
length-wire-le h pi with_payload t = omega (
  arith,
  t refl,
  length-take (data_len pi) pi.cont.payload,
  length-append (take (data_len pi) pi.cont.payload) (255 ∷ 255 ∷ []),
)
length-wire-le h pi acknowledgement t = omega arith
length-wire-le h pi rejection t = omega arith
length-wire-le h pi unknown t = omega arith

-- A packet that one host flattens into a buffer is interpreted by any host, from that buffer, with
-- code 0 and the same fields: the type, the client ID and what its layout carries.
pub flatten-interpret :
    (h₁ h₂ : ByteOrder) (pi pi₀ : PacketInfo) (buf : List ℕ) (size : ℕ)
    → IsTyped h₁ pi
    → IsSendable pi
    → IsBytes buf
    → max_packet ≤ size
    → size ≤ length buf
    → (received : PacketInfo) × ((flatten h₁ pi buf size >>= λ (n, out).
          interpret_packet h₂ out pi₀ size)
        ≡ ok (0, received))
      × SamePacket h₁ h₂ pi received
flatten-interpret h₁ h₂ pi pi₀ buf size t v b large fits =
    let w : List ℕ = wire h₁ pi in
    let short : length w ≤ max_packet = length-wire-le h₁ pi (layout pi.type) (λ _. t.len_fits) in
    let back = decode-wire h₁ h₂ pi pi₀ (drop (length w) buf) t v in
    (
      (decode h₂ (filled w buf) pi₀).1,
      rw
          (
            flatten-wire h₁ pi buf size fits v (omega arith),
            interpret_packet-decode h₂ (filled w buf) size
                (wire-IsBytes h₁ h₂ pi pi₀ (drop (length w) buf) t
                  (All-drop IsByte (length w) buf b))
                (omega (arith, length-filled w buf)) large pi₀,
          )
          (ap (λ c. ok (c, (decode h₂ (filled w buf) pi₀).1)) back.0),
      back.1,
    )
