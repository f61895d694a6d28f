-- ===== src/Shell.antt =====
-- shell.c and shell.h: the tokenizer, the lookup of a command and the loop.
mod Tests
pub mod Words
pub mod Finds
pub mod Rounds
pub mod Prompts
pub mod Echo
use ghetto_subscriber_valida.Prelude.{
  ℕ, zero, suc, ◌==◌, List, [], ◌∷◌, ◌++◌, Bool, true, false, not, if◌then◌else◌, Option, none,
  some, Outcome, ok, fault, ◌>>=◌, length,
}
use ghetto_subscriber_valida.CString.{codes, until_nul, strtok, str_eq}
use ghetto_subscriber_valida.Client.{Progress, returned, waiting}

abbrev pub max_n_tokens : ℕ
max_n_tokens = 100

abbrev pub delims : List ℕ
delims = codes " \n"

-- `tokenize`. When there is no space left, one more token has been found and is dropped.
unfoldable pub tokenize : List ℕ → ℕ → List (List ℕ)
tokenize str zero = []
tokenize str (suc max_tokens) = elim (strtok delims str) [
  | none ↦ []
  | some (token, rest) ↦ token ∷ tokenize rest max_tokens
]

-- `command_pair`, its string without the terminator.
pub record CommandPair (F : Type 0) : Type 0 where
  pub command_str : List ℕ
  pub fn : F

-- What the shell prints, and what a command does.
pub data Output (W : Type 0) : Type 0 where
  prompt : Output W
  echoed : List ℕ → Output W
  not_found : List ℕ → Output W
  newline : Output W
  did : W → Output W

module _ {F : Type 0} where
  -- `lookup`: a null pointer, or the function. Past the end of the table there is nothing to compare.
  unfoldable pub find_command : List (CommandPair F) → ℕ → List ℕ → Outcome (Option F)
  find_command commands zero command = ok none
  find_command [] (suc n) command = fault
  find_command (c ∷ commands) (suc n) command =
      let rest = find_command commands n command in
      if str_eq c.command_str command then ok (some c.fn) else rest

-- The echo: a line above, and a line with a blank behind each token.
abbrev pub echo_head : List ℕ
echo_head = codes "Your command was:\n"

abbrev pub echo_line : List (List ℕ) → List ℕ
echo_line [] = codes "\n"
echo_line (token ∷ tokens) = token ++ (codes " " ++ echo_line tokens)

abbrev pub echo_text : List (List ℕ) → List ℕ
echo_text tokens = echo_head ++ echo_line tokens

abbrev pub did_all : {W : Type 0} → List W → List (Output W)
did_all [] = []
did_all (w ∷ ws) = did w ∷ did_all ws

-- A line of input, and the environment that a command which it names meets.
pub record Line (E : Type 0) : Type 0 where
  pub input : List ℕ
  pub env : E

-- `loop` over the lines that come, in a program whose state is `S`: a command is `invoke`, whose result
-- says whether it has returned.
module _ {F E S W : Type 0} (invoke : F → E → List (List ℕ) → S → Outcome (Progress × S × List W))
    (command_map : List (CommandPair F)) (n_commands : ℕ) where
  abbrev pub Session : Type 0
  Session = Outcome (Progress × S × List (Output W))

  abbrev pub printing : List (Output W) → Session → Session
  printing out m = m >>= λ (progress, s, more). ok (progress, s, out ++ more)

  abbrev pub when : Bool → Output W → List (Output W)
  when true o = o ∷ []
  when false o = []

  -- After a command: the rounds that follow, if it has returned.
  unfoldable pub after_command : (S → Session) → Progress × S × List W → Session
  after_command more (returned, s, done) = printing (did_all done) (more s)
  after_command more (waiting, s, done) = ok (waiting, s, did_all done)

  -- The end of a round, for a line with tokens; `more` is the rounds that follow.
  unfoldable pub run_command : E → List (List ℕ) → List ℕ → (S → Session) → S → Session
  unfolding after_command
  run_command env tokens name more s = find_command command_map n_commands name >>= λ found.
      elim found [
        | none ↦ printing (not_found name ∷ []) (more s)
        | some fn ↦ invoke fn env tokens s >>= after_command more
      ]

  -- A round behind the prompt.
  unfoldable pub run_line : Bool → E → List (List ℕ) → (S → Session) → S → Session
  unfolding run_command
  run_line echo env [] more s = more s
  run_line echo env (name ∷ tokens) more s =
      printing (when echo (echoed (echo_text (name ∷ tokens))))
        (run_command env (name ∷ tokens) name more s)

  -- The loop over the lines, to the end of the input.
  unfoldable pub rounds : Bool → Bool → List (Line E) → S → Session
  unfolding run_line
  rounds interactive echo [] s = ok (returned, s, when interactive prompt ++ newline ∷ [])
  rounds interactive echo (line ∷ lines) s = printing (when interactive prompt) (
      run_line echo line.env (tokenize (until_nul line.input) max_n_tokens)
        (rounds interactive echo lines) s)

  -- `loop`. The global `echo` is an argument, and set if the input is no terminal.
  unfoldable pub loop : Bool → Bool → List (Line E) → S → Session
  unfolding rounds
  loop interactive echo lines s =
      rounds interactive (if not interactive then true else echo) lines s
