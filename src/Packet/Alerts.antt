-- ===== src/Packet/Alerts.antt =====
-- What `alert_reject` and `alert_reply` of packet.c print.
use ghetto_subscriber_valida.Prelude.{ℕ, ◌==◌, if◌then◌else◌}
use Prim.Native.String.{String}
use ghetto_subscriber_valida.Packet.{
  PacketInfo, no_end, dup_pack, out_of_seq, bad_type, bad_len, not_paid, not_exist, acc_ok,
}

-- `alert_reject`: the client's ID, and the line behind it.
unfoldable pub alert_reject : PacketInfo → ℕ → ℕ × String
alert_reject pi code = (
  pi.id,
  if code == no_end
      then "No packet terminator"
      else if code == dup_pack
      then "Received duplicate"
      else if code == out_of_seq
      then "Received out of sequence!"
      else if code == bad_type
      then "Bad type field!"
      else if code == bad_len
      then "Bad length field!"
      else "Unrecognized reject code...",
)

unfoldable pub alert_reply : PacketInfo → String
alert_reply pi =
    if pi.type == not_paid
    then "alert_reply: Subscriber has not paid!"
    else if pi.type == not_exist
    then "alert_reply: Subscriber or technology not found!"
    else if pi.type == acc_ok
    then "alert_reply: Access granted!"
    else "alert_reply: Bad reply type!"
