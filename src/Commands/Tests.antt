-- ===== src/Commands/Tests.antt =====
-- client_commands.c on concrete arguments.
use ghetto_subscriber_valida.Prelude.{ℕ, ◌≡◌, refl, List, [], ◌∷◌, some, arith, length-replicate}
use ghetto_subscriber_valida.Prelude.Int.{pos}
use ghetto_subscriber_valida.CString.{codes}
use ghetto_subscriber_valida.Database.{str_to_entry}
use ghetto_subscriber_valida.Database.Fields.{raw_entry}
use ghetto_subscriber_valida.Client.{Answer}
use ghetto_subscriber_valida.Client.Tests.{somewhere, client_three, packet}
use ghetto_subscriber_valida.Commands.{AddrInfo, resolved, CommandEnv, parse_client_info}
use ghetto_subscriber_valida.Commands.Request.{AreArguments, CanRequest}
use ghetto_subscriber_valida.Commands.Agreement.{parse_client_info-str_to_entry}

-- A resolver that knows one address.
abbrev pub resolve : List ℕ → List ℕ → AddrInfo
resolve node service = resolved 16 somewhere

abbrev pub number : List ℕ
number = codes "4085546805"

abbrev pub tech : List ℕ
tech = codes "04"

pub nine-AreArguments :
    AreArguments resolve (codes "localhost") (codes "4321") (codes "9") number tech somewhere
nine-AreArguments = record {
  found = refl;
  seq_digits = ground arith;
  seq_some = omega arith;
  seq_short = omega arith;
  num_digits = ground arith;
  num_ten = refl;
  tech_digits = ground arith;
  tech_two = refl;
}

abbrev pub env_of : List Answer → CommandEnv
env_of answers = record {
  sendto = pos 14;
  answers = answers;
  payload = 0 ∷ 0 ∷ 0 ∷ 0 ∷ 0 ∷ [];
  pi = packet 0;
}

pub env_of-CanRequest : (answers : List Answer) → CanRequest (env_of answers) client_three 9
env_of-CanRequest answers = record {
  delivered = refl;
  payload_size = refl;
  has_room = length-replicate {A = ℕ} 8192 0;
  has_tries = omega arith;
}

parse_client_info-str_to_entry_example : parse_client_info number tech ≡ (
  some (
    (str_to_entry (raw_entry number tech b'1')).number,
    (str_to_entry (raw_entry number tech b'1')).ttype,
  ),
  [],
)
parse_client_info-str_to_entry_example =
    parse_client_info-str_to_entry number tech b'1' nine-AreArguments.num_digits
      nine-AreArguments.tech_digits refl refl
