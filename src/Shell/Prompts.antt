-- ===== src/Shell/Prompts.antt =====
-- The prompts among what the shell prints.
use ghetto_subscriber_valida.Prelude.{ℕ, suc, ◌+◌, ◌≡◌, refl, List, [], ◌∷◌, ◌++◌, arith}
use ghetto_subscriber_valida.Shell.{Output, prompt, echoed, not_found, newline, did, did_all}

module _ {W : Type 0} where
  -- The prompts that have been printed.
  abbrev pub prompts : List (Output W) → ℕ
  prompts [] = 0
  prompts (prompt ∷ out) = suc (prompts out)
  prompts (echoed text ∷ out) = prompts out
  prompts (not_found name ∷ out) = prompts out
  prompts (newline ∷ out) = prompts out
  prompts (did w ∷ out) = prompts out

  pub prompts-append : (xs ys : List (Output W)) → prompts (xs ++ ys) ≡ prompts xs + prompts ys
  prompts-append [] ys = omega arith
  prompts-append (prompt ∷ xs) ys = omega (arith, prompts-append xs ys)
  prompts-append (echoed text ∷ xs) ys = prompts-append xs ys
  prompts-append (not_found name ∷ xs) ys = prompts-append xs ys
  prompts-append (newline ∷ xs) ys = prompts-append xs ys
  prompts-append (did w ∷ xs) ys = prompts-append xs ys

  pub prompts-did_all : (ws : List W) → prompts (did_all ws) ≡ 0
  prompts-did_all [] = refl
  prompts-did_all (w ∷ ws) = prompts-did_all ws
