-- ===== src/Exchange/Tests.antt =====
-- One exchange between a concrete client and a concrete server.
use ghetto_subscriber_valida.Prelude.{ℕ, ◌^◌, ◌≡◌, refl, List, [], ◌∷◌, ok, arith}
use ghetto_subscriber_valida.Host.{ByteOrder}
use ghetto_subscriber_valida.CString.{codes}
use ghetto_subscriber_valida.CString.Laws.{decimal}
use ghetto_subscriber_valida.SortSearch.Reference.{reference}
use ghetto_subscriber_valida.Database.Lookup.{filled_entries}
use ghetto_subscriber_valida.Server.{Server, Effect, receive, server_process_packet}
use ghetto_subscriber_valida.Server.Frames.{ack_frame, data_frame}
use ghetto_subscriber_valida.Server.Handle.{verdict}
use ghetto_subscriber_valida.Server.Access.{Decides}
use ghetto_subscriber_valida.Server.Tests.{info, idle, garbage, idle-IsReady, one_db-IsSearchable}
use ghetto_subscriber_valida.Client.{Client, Answer, sent, replied, returned}
use ghetto_subscriber_valida.Client.Replies.{reply_text}
use ghetto_subscriber_valida.Client.Tests.{somewhere, client_three, answer_of, Meets-answer_of}
use ghetto_subscriber_valida.Commands.{sending_to, acted, send_req}
use ghetto_subscriber_valida.Commands.Request.{request_frame}
use ghetto_subscriber_valida.Commands.Digits.{number_of}
use ghetto_subscriber_valida.Commands.Tests.{
  resolve, number, tech, nine-AreArguments, env_of, env_of-CanRequest,
}
use ghetto_subscriber_valida.Exchange.Served.{question, asked, answer}
use ghetto_subscriber_valida.Exchange.{CanExchange, send_req-server_process_packet}

three-CanExchange : CanExchange client_three idle (2 ^ 31) 9 number
three-CanExchange = record {
  ready = idle-IsReady;
  searchable = one_db-IsSearchable;
  within = ground arith;
  known = omega arith;
  expected = refl;
  room = omega arith;
}

abbrev type_for_three : ℕ
type_for_three = verdict reference info (asked number tech 3 9 idle)

-- The server's ACK and its reply reach the client in two waits.
abbrev waits : List Answer
waits =
    answer_of (ack_frame 3 9)
    ∷ answer_of (data_frame type_for_three 3 9 (question number tech))
    ∷ []

send_req-server_process_packet_example :
    (type : ℕ) × (out : Server × List Effect) × (cl' : Client) × (server_process_packet
        ByteOrder.little reference
        (receive idle (request_frame 3 9 number tech))
        somewhere
        garbage
      ≡ ok out)
    × (out.1 ≡ answer idle somewhere 3 number tech type)
    × Decides (filled_entries idle.db) (number_of number) (decimal 0 tech) type
    × (send_req ByteOrder.big resolve
          (env_of waits)
          (codes "send_req" ∷ codes "localhost" ∷ codes "4321" ∷ codes "9" ∷ number ∷ tech ∷ [])
          client_three
        ≡ ok (
          returned,
          cl',
          sending_to somewhere
              ∷ acted (sent somewhere (request_frame 3 9 number tech))
              ∷ acted (replied (reply_text ByteOrder.big type))
              ∷ [],
        ))
send_req-server_process_packet_example =
    send_req-server_process_packet ByteOrder.big ByteOrder.little resolve (env_of waits)
      client_three (codes "send_req") (codes "localhost") (codes "4321") (codes "9") number tech
      somewhere somewhere reference idle garbage (2 ^ 31) nine-AreArguments
      (env_of-CanRequest waits) three-CanExchange
      (
        Meets-answer_of (ack_frame 3 9),
        (Meets-answer_of (data_frame type_for_three 3 9 (question number tech)), tt),
      )
