-- ===== src/Server/Printing.antt =====
-- The payload that `server_process_packet` prints as a string.
use ghetto_subscriber_valida.Prelude.{
  ℕ, ◌+◌, ◌*◌, ◌≡◌, ◌≢◌, ◌⊎◌, inl, inr, ◌∙◌, ap, refl, sym, List, [], ◌∷◌, ◌++◌, arith, drop, ok,
  Outcome, ◌>>=◌, fault, ◌==◌, false, Bool-cases, All,
}
use native.Mathlib.Decide.{ℕ_discrete}
use ghetto_subscriber_valida.Host.{ByteOrder}
use ghetto_subscriber_valida.SortSearch.{SortSearch}
use ghetto_subscriber_valida.Database.{ClientInfo}
use ghetto_subscriber_valida.Packet.{
  PacketInfo, Layout, with_payload, acknowledgement, rejection, unknown, layout,
}
use ghetto_subscriber_valida.Packet.Decode.{decode, decode_content, flag_at, fields}
use ghetto_subscriber_valida.Packet.Typed.{decode-code-lt}
use ghetto_subscriber_valida.Packet.RoundTrip.{type-decode_content}
use ghetto_subscriber_valida.RawIterator.Laws.{◌!◌}
use ghetto_subscriber_valida.Server.{
  Server, Address, Effect, Garbage, server_process_packet, print_string,
  server_process_packet_printing, accept_packet,
}
use ghetto_subscriber_valida.Server.Frames.{IsReady, send_reject-frame}
use ghetto_subscriber_valida.Server.Request.{layout-acc_per}
use ghetto_subscriber_valida.Server.Check.{check_fields-zero, server_check_packet-decode}
use ghetto_subscriber_valida.Server.Process.{
  Accepted, Rejected, code, pi, check_fields-lt, server_process_packet-Accepted,
  server_process_packet-Rejected,
}

-- A string that ends inside the array, or an array without a NUL.
data Prints : List ℕ → Type 0 where
  ends :
      {cs : List ℕ} (text rest : List ℕ)
      → cs ≡ text ++ (0 ∷ rest)
      → All (λ c. c ≢ 0) text
      → print_string cs ≡ ok text
      → Prints cs
  runs_out : {cs : List ℕ} → All (λ c. c ≢ 0) cs → print_string cs ≡ fault → Prints cs

print_string-Prints : (cs : List ℕ) → Prints cs
unfolding print_string
print_string-Prints [] = runs_out tt refl
print_string-Prints (c ∷ cs) = elim (ℕ_discrete c 0) [
  | yes z ↦ ends [] cs (ap (λ d. d ∷ cs) z) tt (rw z refl)
  | no nz ↦
      let no : (c == 0) ≡ false = ground arith in
      elim (print_string-Prints cs) [
        | ends text rest e h run ↦ ends (c ∷ text) rest (ap (◌∷◌ c) e) (nz, h) (rw (no, run) refl)
        | runs_out h run ↦ runs_out (nz, h) (rw (no, run) refl)
      ]
]

module _ (host : ByteOrder) (buf : List ℕ) where
  payload-decode_content :
      (l : Layout) (q : PacketInfo)
      → l ≡ with_payload
      → (decode_content host buf l q).1.cont.payload ≡ drop 7 buf
  payload-decode_content with_payload q e = refl
  payload-decode_content acknowledgement q e = absurd (cc e)
  payload-decode_content rejection q e = absurd (cc e)
  payload-decode_content unknown q e = absurd (cc e)

  -- The payload of a packet with one begins at the eighth byte.
  payload-decode :
      (q : PacketInfo)
      → (decode host buf q).0 ≡ 0
      → layout (decode host buf q).1.type ≡ with_payload
      → (decode host buf q).1.cont.payload ≡ drop 7 buf
  payload-decode q =
      let l : Layout = layout (256 * buf ! 3 + buf ! 4) in
      elim (Bool-cases (flag_at host buf 0)) [
        | inl e ↦ rw e (λ z t.
            payload-decode_content l (fields host buf q)
              (ap layout (sym (type-decode_content host buf l (fields host buf q))) ∙ t))
        | inr e ↦ rw e (λ z t. absurd (cc z))
      ]

module _ (host : ByteOrder) (std : SortSearch ClientInfo) (serv : Server) (ret : Address)
    (g : Garbage) where
  -- What `server_process_packet` comes to with its printing, when this is all that it does.
  abbrev pub PrintsAnd : Server × List Effect → Type 0
  PrintsAnd out =
      ((text : List ℕ) × (rest : List ℕ) × (drop 7 serv.recv_buf ≡ text ++ (0 ∷ rest))
        × All (λ c. c ≢ 0) text
        × (server_process_packet_printing host std serv ret g ≡ ok (text, out.0, out.1)))
      ⊎ (All (λ c. c ≢ 0) (drop 7 serv.recv_buf)
          × (server_process_packet_printing host std serv ret g ≡ fault))

module _ (host : ByteOrder) (std : SortSearch ClientInfo) (serv : Server) (ret : Address)
    (g : Garbage) (ready : IsReady serv) where
  accepted-PrintsAnd :
      (out : Server × List Effect)
      → code host std serv ret g ready ≡ 0
      → server_process_packet host std serv ret g ≡ ok out
      → PrintsAnd host std serv ret g out
  unfolding server_process_packet server_process_packet_printing
  accepted-PrintsAnd out z run =
      let check = server_check_packet-decode host serv g.received ready in
      let zero = check_fields-zero host serv g.received ready z in
      let same : (pi host std serv ret g ready).cont.payload ≡ drop 7 serv.recv_buf =
        payload-decode host serv.recv_buf g.received zero.0 (ap layout zero.1 ∙ layout-acc_per) in
      let whole : server_process_packet host std serv ret g
          ≡ accept_packet host std serv ret (pi host std serv ret g ready) g =
        rw (check, z) refl in
      let accepted = sym whole ∙ run in
      elim (print_string-Prints (drop 7 serv.recv_buf)) [
        | ends text rest e h printed ↦
            inl (text, rest, e, h, rw (check, z, ap print_string same ∙ printed, accepted) refl)
        | runs_out h printed ↦ inr (h, rw (check, z, ap print_string same ∙ printed) refl)
      ]

  rejected-prints :
      (out : Server × List Effect)
      → code host std serv ret g ready ≢ 0
      → server_process_packet host std serv ret g ≡ ok out
      → server_process_packet_printing host std serv ret g ≡ ok ([], out.0, out.1)
  unfolding server_process_packet server_process_packet_printing
  rejected-prints out nz run =
      let no : (code host std serv ret g ready == 0) ≡ false = ground arith in
      let small =
        check_fields-lt serv _ (pi host std serv ret g ready)
          (decode-code-lt host serv.recv_buf g.received) in
      let none_printed : Server × List Effect → Outcome (List ℕ × Server × List Effect) =
        λ out. ok ([], out.0, out.1) in
      let both : server_process_packet_printing host std serv ret g
          ≡ (server_process_packet host std serv ret g >>= none_printed) =
        rw
          (
            server_check_packet-decode host serv g.received ready,
            no,
            send_reject-frame host serv ret ready (pi host std serv ret g ready) g.reject_pi
                (code host std serv ret g ready) small,
          )
          refl in
      both ∙ ap (λ m. m >>= none_printed) run

-- On a server that is ready `server_process_packet`, with the payload that it prints as a string, does one
-- of three things, whatever the datagram. It rejects the datagram, and prints nothing of it. Or it accepts
-- the datagram, and prints the bytes of `recv_buf` from the payload to the first NUL. Or it accepts the
-- datagram, there is no NUL from the payload on, and the printing leaves the buffer. But for the printing
-- it always returns: no assertion fails and no access leaves a buffer, the server stays ready and keeps its
-- database, and what is said of an accepted or a rejected datagram holds.
pub server_process_packet_printing-answers :
    (host : ByteOrder) (std : SortSearch ClientInfo) (serv : Server) (ret : Address) (g : Garbage)
    → IsReady serv
    → (out : Server × List Effect) × (server_process_packet host std serv ret g ≡ ok out)
      × IsReady out.0
      × (out.0.db ≡ serv.db)
      × ((Rejected serv ret out
            × (server_process_packet_printing host std serv ret g ≡ ok ([], out.0, out.1)))
          ⊎ (Accepted std g.key serv ret out × PrintsAnd host std serv ret g out))
server_process_packet_printing-answers host std serv ret g ready =
    elim (ℕ_discrete (code host std serv ret g ready) 0) [
      | yes z ↦
          let (out, run, again, same_db, a) =
            server_process_packet-Accepted host std serv ret g ready z in
          (
            out,
            run,
            again,
            same_db,
            inr (a, accepted-PrintsAnd host std serv ret g ready out z run),
          )
      | no nz ↦
          let (out, run, again, same_db, r) =
            server_process_packet-Rejected host std serv ret g ready nz in
          (out, run, again, same_db, inl (r, rejected-prints host std serv ret g ready out nz run))
    ]
