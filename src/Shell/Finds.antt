-- ===== src/Shell/Finds.antt =====
-- The lookup of a command by its name.
use ghetto_subscriber_valida.Prelude.{
  ℕ, zero, suc, ◌≤◌, ◌≡◌, ◌≢◌, ◌⊎◌, refl, List, [], ◌∷◌, Option, none, some, ok, length, take,
  Bool-cases, inl, inr, arith,
}
use ghetto_subscriber_valida.CString.{str_eq}
use ghetto_subscriber_valida.CString.Laws.{str_eq_iff}
use ghetto_subscriber_valida.Shell.{CommandPair, find_command}

module _ {F : Type 0} where
  -- The function of the first command with a name.
  abbrev pub Finds : List ℕ → List (CommandPair F) → Option F → Type 0
  Finds name [] none = Unit
  Finds name [] (some f) = ⊥
  Finds name (c ∷ cs) r =
      ((c.command_str ≡ name) × (r ≡ some c.fn)) ⊎ ((c.command_str ≢ name) × Finds name cs r)

  -- As long as the number of commands is not above the length of the table, `lookup` always returns:
  -- the function of the first of these commands that has the name, or null if none has it.
  pub find_command-Finds :
      (cs : List (CommandPair F)) (n : ℕ) (name : List ℕ)
      → n ≤ length cs
      → (r : Option F) × (find_command cs n name ≡ ok r) × Finds name (take n cs) r
  unfolding find_command
  find_command-Finds cs zero name h = (none, refl, tt)
  find_command-Finds [] (suc n) name h = absurd (omega arith)
  find_command-Finds (c ∷ cs) (suc n) name h = elim (Bool-cases (str_eq c.command_str name)) [
    | inl e ↦ (some c.fn, rw e refl, inl ((str_eq_iff c.command_str name).0 e, refl))
    | inr e ↦
        let (r, run, f) = find_command-Finds cs n name (omega arith) in
        (
          r,
          rw e run,
          inr (λ (k : c.command_str ≡ name). cc (e, (str_eq_iff c.command_str name).1 k), f),
        )
  ]
