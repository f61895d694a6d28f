-- ===== src/Shell/Echo.antt =====
-- What `loop` echoes of a line, read again.
use ghetto_subscriber_valida.Prelude.{
  ℕ, ◌≡◌, ◌∙◌, refl, ap, List, [], ◌∷◌, ◌++◌, true, take, take_all, All, Outcome,
}
use ghetto_subscriber_valida.CString.{codes, is_delim}
use ghetto_subscriber_valida.Client.{Progress}
use ghetto_subscriber_valida.Shell.{
  max_n_tokens, delims, tokenize, CommandPair, Output, echoed, echo_line, printing, run_command,
  run_line,
}
use ghetto_subscriber_valida.Shell.Words.{
  pieces, words, nonempties, IsPlain, IsWord, tokenize-words,
}

pieces-append :
    (t rest : List ℕ) (d : ℕ)
    → All (IsPlain delims) t
    → is_delim delims d ≡ true
    → pieces delims (t ++ (d ∷ rest)) ≡ (t, (pieces delims rest).0 ∷ (pieces delims rest).1)
pieces-append [] rest d h e = rw e refl
pieces-append (c ∷ t) rest d h e = rw (h.0, pieces-append t rest d h.1 e) refl

words-echo_line : (ts : List (List ℕ)) → All (IsWord delims) ts → words delims (echo_line ts) ≡ ts
unfolding is_delim
words-echo_line [] h = refl
words-echo_line ([] ∷ ts) h = absurd h.0
words-echo_line ((c ∷ t) ∷ ts) h =
    ap (λ (p : List ℕ × List (List ℕ)). nonempties (p.0 ∷ p.1))
      (pieces-append (c ∷ t) (echo_line ts) b' ' h.0 refl)
    ∙ ap (◌∷◌ (c ∷ t)) (words-echo_line ts h.1)

-- The second line of an echo is read as the same tokens as the line.
tokenize-echo_line : (n : ℕ) (s : List ℕ) → tokenize (echo_line (tokenize s n)) n ≡ tokenize s n
tokenize-echo_line n s =
    let (_, w, l) = tokenize-words n s in
    (tokenize-words n (echo_line (tokenize s n))).0
    ∙ ap (take n) (words-echo_line (tokenize s n) w)
    ∙ take_all n (tokenize s n) l

-- If echo is on, then for a line that has tokens `loop` prints two lines before it goes on to the command:
-- the first says what follows, and the second is read as the same tokens as the line.
pub run_line-echo_line :
    {F E S W : Type 0} (invoke : F → E → List (List ℕ) → S → Outcome (Progress × S × List W))
    (command_map : List (CommandPair F)) (n_commands : ℕ) (env : E) (line name : List ℕ)
    (args : List (List ℕ)) (more : S → Outcome (Progress × S × List (Output W))) (s : S)
    → tokenize line max_n_tokens ≡ name ∷ args
    → (text : List ℕ) × (run_line invoke command_map n_commands true env
          (tokenize line max_n_tokens)
          more
          s
        ≡ printing invoke command_map n_commands
            (echoed (codes "Your command was:\n" ++ text) ∷ [])
            (run_command invoke command_map n_commands env (name ∷ args) name more s))
      × (tokenize text max_n_tokens ≡ tokenize line max_n_tokens)
unfolding run_line
run_line-echo_line invoke command_map n_commands env line name args more s e =
    (echo_line (tokenize line max_n_tokens), rw e refl, tokenize-echo_line max_n_tokens line)
