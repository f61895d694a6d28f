-- ===== src/Shell/Rounds.antt =====
-- The loop over the lines of the input.
use ghetto_subscriber_valida.Prelude.{
  ℕ, suc, ◌+◌, ◌≤◌, ◌≡◌, ◌∙◌, refl, sym, ap, List, [], ◌∷◌, ◌++◌, Bool, true, not, if◌then◌else◌,
  Option, none, some, Outcome, ok, length, take, All, arith,
}
use ghetto_subscriber_valida.CString.{until_nul}
use ghetto_subscriber_valida.Client.{Progress, returned}
use ghetto_subscriber_valida.Shell.{
  max_n_tokens, delims, tokenize, CommandPair, find_command, Output, echoed, echo_text, not_found,
  Line, did_all, printing, when, after_command, run_command, run_line, rounds, loop,
}
use ghetto_subscriber_valida.Shell.Finds.{Finds, find_command-Finds}
use ghetto_subscriber_valida.Shell.Words.{words, tokenize-words}
use ghetto_subscriber_valida.Shell.Prompts.{prompts, prompts-append, prompts-did_all}

module _ {F E S W : Type 0} (invoke : F → E → List (List ℕ) → S → Outcome (Progress × S × List W))
    (command_map : List (CommandPair F)) (n_commands : ℕ) where
  -- The tokens of a line.
  abbrev pub tokens_of : Line E → List (List ℕ)
  tokens_of line = take max_n_tokens (words delims (until_nul line.input))

  -- How the commands of some lines take the program from one state to another.
  pub data Runs : List (Line E) → S → S → Type 0 where
    stop : (s : S) → Runs [] s s
    empty :
        {line : Line E} {lines : List (Line E)} {s s' : S}
        → tokens_of line ≡ []
        → Runs lines s s'
        → Runs (line ∷ lines) s s'
    unknown :
        {line : Line E} {lines : List (Line E)} {s s' : S} (name : List ℕ) (args : List (List ℕ))
        → tokens_of line ≡ name ∷ args
        → Finds name (take n_commands command_map) none
        → Runs lines s s'
        → Runs (line ∷ lines) s s'
    called :
        {line : Line E} {lines : List (Line E)} {s s' : S} (name : List ℕ) (args : List (List ℕ))
        (fn : F) (s₁ : S) (ws : List W)
        → tokens_of line ≡ name ∷ args
        → Finds name (take n_commands command_map) (some fn)
        → invoke fn line.env (name ∷ args) s ≡ ok (returned, s₁, ws)
        → Runs lines s₁ s'
        → Runs (line ∷ lines) s s'

  -- A line on which any command that is called keeps an invariant of the program, and returns.
  abbrev pub Serves : (S → Type 0) → Line E → Type 0
  Serves Inv line =
      (fn : F) (name : List ℕ) (args : List (List ℕ)) (s : S)
      → tokens_of line ≡ name ∷ args
      → Inv s
      → (s' : S) × (ws : List W) × (invoke fn line.env (name ∷ args) s ≡ ok (returned, s', ws))
        × Inv s'

  module _ (Inv : S → Type 0) where
    -- A session over some lines that has come to its end, with this number of prompts.
    abbrev pub HasEnded : List (Line E) → S → ℕ → Outcome (Progress × S × List (Output W)) → Type 0
    HasEnded lines s n m =
        (s' : S) × (out : List (Output W)) × (m ≡ ok (returned, s', out))
        × Runs lines s s'
        × Inv s'
        × (prompts out ≡ n)

    HasEnded-printing :
        (lines : List (Line E)) (s : S) (n k : ℕ) (out : List (Output W))
        (m : Outcome (Progress × S × List (Output W)))
        → k ≡ prompts out + n
        → HasEnded lines s n m
        → HasEnded lines s k (printing invoke command_map n_commands out m)
    HasEnded-printing lines s n k out m h (s', more, run, runs, inv, e) = (
      s',
      out ++ more,
      rw run refl,
      runs,
      inv,
      prompts-append out more ∙ ap (λ j. prompts out + j) e ∙ sym h,
    )

    module _ (fits : n_commands ≤ length command_map) (echo : Bool) (line : Line E)
        (lines : List (Line E)) (n : ℕ) (serves : Serves Inv line)
        (more : S → Outcome (Progress × S × List (Output W)))
        (ends : (s : S) → Inv s → HasEnded lines s n (more s)) where
      -- What follows a line that takes the program from one state to another.
      HasEnded-step :
          (s s₁ : S)
          → Inv s₁
          → ((s' : S) → Runs lines s₁ s' → Runs (line ∷ lines) s s')
          → HasEnded (line ∷ lines) s n (more s₁)
      HasEnded-step s s₁ i k =
          let (s', out, run, runs, inv, p) = ends s₁ i in (s', out, run, k s' runs, inv, p)

      found-HasEnded :
          (name : List ℕ) (args : List (List ℕ)) (s : S) (r : Option F)
          → Inv s
          → tokens_of line ≡ name ∷ args
          → find_command command_map n_commands name ≡ ok r
          → Finds name (take n_commands command_map) r
          → HasEnded
              (line ∷ lines)
              s
              n
              (run_command invoke command_map n_commands line.env (name ∷ args) name more s)
      unfolding run_command after_command
      found-HasEnded name args s none i e run f = rw run (
          HasEnded-printing (line ∷ lines) s n n (not_found name ∷ []) (more s) (omega arith)
            (HasEnded-step s s i (λ s' r. unknown name args e f r)))
      found-HasEnded name args s (some fn) i e run f =
          let (s₁, ws, done, j) = serves fn name args s e i in
          rw (run, done)
            (HasEnded-printing (line ∷ lines) s n n (did_all ws) (more s₁)
              (omega (arith, prompts-did_all ws))
              (HasEnded-step s s₁ j (λ s' r. called name args fn s₁ ws e f done r)))

      run_line-HasEnded :
          (tokens : List (List ℕ)) (s : S)
          → Inv s
          → tokens_of line ≡ tokens
          → HasEnded
              (line ∷ lines)
              s
              n
              (run_line invoke command_map n_commands echo line.env tokens more s)
      unfolding run_line
      run_line-HasEnded [] s i e = HasEnded-step s s i (λ s' r. empty e r)
      run_line-HasEnded (name ∷ args) s i e =
          let (r, run, f) = find_command-Finds command_map n_commands name fits in
          HasEnded-printing (line ∷ lines) s n n
            (when invoke command_map n_commands echo (echoed (echo_text (name ∷ args))))
            (run_command invoke command_map n_commands line.env (name ∷ args) name more s)
            (ground arith) (found-HasEnded name args s r i e run f)

    module _ (fits : n_commands ≤ length command_map) (interactive echo : Bool) where
      abbrev expected_prompts : ℕ → ℕ
      expected_prompts n = if interactive then n else 0

      rounds-HasEnded :
          (lines : List (Line E)) (s : S)
          → All (Serves Inv) lines
          → Inv s
          → HasEnded lines s
              (expected_prompts (suc (length lines)))
              (rounds invoke command_map n_commands interactive echo lines s)
      unfolding rounds
      rounds-HasEnded [] s a i = (s, _, refl, stop s, i, ground arith)
      rounds-HasEnded (line ∷ lines) s a i =
          HasEnded-printing (line ∷ lines) s (expected_prompts (suc (length lines))) _ _ _
            (ground arith)
            (run_line-HasEnded fits echo line lines _ a.0
              (rounds invoke command_map n_commands interactive echo lines)
              (λ s₁ j. rounds-HasEnded lines s₁ a.1 j)
              (tokenize (until_nul line.input) max_n_tokens) s i
              (sym (tokenize-words max_n_tokens (until_nul line.input)).0))

    -- For any table of commands, with at least as many entries as `loop` is told, and any invariant of
    -- the program's state: if the commands that these lines can call return and keep the invariant, on
    -- arguments that are the words of their line, then `loop` from a state with the invariant returns
    -- at the end of its input, in a state with the invariant. It has run the command of each line that
    -- names one, in order, on the state that the one before has left, with the words of the line as its
    -- arguments, and nothing for the other lines. A user at a terminal has seen one prompt for each
    -- line and one more, any other input none.
    pub loop-HasEnded :
        n_commands ≤ length command_map
        → (interactive echo : Bool) (lines : List (Line E)) (s : S) → All (Serves Inv) lines
        → Inv s
        → HasEnded lines s
            (if interactive then suc (length lines) else 0)
            (loop invoke command_map n_commands interactive echo lines s)
    unfolding loop
    loop-HasEnded fits interactive echo lines s a i =
        rounds-HasEnded fits interactive (if not interactive then true else echo) lines s a i
