-- ===== src/Commands/Agreement.antt =====
-- The digits that the user gives to the client, and those of the database's file.
use ghetto_subscriber_valida.Prelude.{ℕ, ◌≡◌, ◌∙◌, List, [], some, length, All}
use ghetto_subscriber_valida.CString.Laws.{IsDigit}
use ghetto_subscriber_valida.Database.{str_to_entry}
use ghetto_subscriber_valida.Database.Fields.{raw_entry, str_to_entry-fields}
use ghetto_subscriber_valida.Commands.{parse_client_info}
use ghetto_subscriber_valida.Commands.Digits.{parse_client_info-digits}

-- The client and the server agree on what digits stand for: the number and the technology that the client
-- sends for them are those of the entry that the server reads from a line with these digits.
pub parse_client_info-str_to_entry :
    (num_str tech_str : List ℕ) (flag : ℕ)
    → All IsDigit num_str
    → All IsDigit tech_str
    → length num_str ≡ 10
    → length tech_str ≡ 2
    → parse_client_info num_str tech_str ≡ (
      some (
        (str_to_entry (raw_entry num_str tech_str flag)).number,
        (str_to_entry (raw_entry num_str tech_str flag)).ttype,
      ),
      [],
    )
parse_client_info-str_to_entry num_str tech_str flag dn dt ln lt =
    let f = str_to_entry-fields num_str tech_str flag dn dt ln lt in
    parse_client_info-digits num_str tech_str dn dt ln lt ∙ cc (f.0, f.1)
