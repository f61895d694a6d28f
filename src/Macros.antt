-- ===== src/Macros.antt =====
-- variadic_macros.h and closure.h: the macros that declare the struct of a closure's arguments.
mod Tests
pub mod ForEach
use ghetto_subscriber_valida.Prelude.{
  ℕ, zero, suc, List, [], ◌∷◌, ◌++◌, map, Option, none, some, ltb, if◌then◌else◌,
}
use ghetto_subscriber_valida.CString.{codes}

-- An argument of a macro: what the code writes there, a number that a macro supplies, or nothing.
pub data Arg (A : Type 0) : Type 0 where
  given : A → Arg A
  number : ℕ → Arg A
  empty : Arg A

-- CONCATENATE and STRINGIZE on what is written as their arguments: `expand` is the expansion of the
-- macros in it, which an argument of # or ## does not undergo. A string literal is what stands between
-- its quotes.
module _ (expand : List ℕ → List ℕ) where
  abbrev concatenate2 : List ℕ → List ℕ → List ℕ
  concatenate2 arg1 arg2 = arg1 ++ arg2

  abbrev concatenate1 : List ℕ → List ℕ → List ℕ
  concatenate1 arg1 arg2 = concatenate2 (expand arg1) (expand arg2)

  abbrev concatenate : List ℕ → List ℕ → List ℕ
  concatenate arg1 arg2 = concatenate1 (expand arg1) (expand arg2)

  abbrev stringize2 : List ℕ → List ℕ
  stringize2 arg = arg

  abbrev stringize1 : List ℕ → List ℕ
  stringize1 arg = stringize2 (expand arg)

  abbrev stringize : List ℕ → List ℕ
  stringize arg = stringize1 (expand arg)

-- What FOR_EACH expands to: uses of the macro `what`, and semicolons between and behind them.
pub data Piece (B : Type 0) : Type 0 where
  used : B → Piece B
  semicolon : Piece B

module _ {A : Type 0} where
  -- `__VA_ARGS__` behind a comma: without variable arguments one empty argument is left there.
  abbrev pub va_args : List (Arg A) → List (Arg A)
  va_args [] = empty ∷ []
  va_args (x ∷ args) = x ∷ args

  -- FOR_EACH_RSEQ_N.
  abbrev pub for_each_rseq_n : List (Arg A)
  for_each_rseq_n =
      number 8
      ∷ number 7
      ∷ number 6
      ∷ number 5
      ∷ number 4
      ∷ number 3
      ∷ number 2
      ∷ number 1
      ∷ number 0
      ∷ []

  -- FOR_EACH_ARG_N, which has a value for nine arguments or more.
  abbrev pub for_each_arg_n : List (Arg A) → Option (Arg A)
  for_each_arg_n (a₁ ∷ a₂ ∷ a₃ ∷ a₄ ∷ a₅ ∷ a₆ ∷ a₇ ∷ a₈ ∷ n ∷ args) = some n
  for_each_arg_n _ = none

  -- FOR_EACH_NARG.
  unfoldable pub for_each_narg : List (Arg A) → Option (Arg A)
  for_each_narg args = for_each_arg_n (args ++ for_each_rseq_n)

module _ {A B : Type 0} (what : Arg A → B) where
  -- The bodies that FOR_EACH_1 to FOR_EACH_8 share: each but the first uses the macro before it.
  abbrev pub for_each_body : ℕ → List (Arg A) → Option (List (Piece B))
  for_each_body (suc zero) (x ∷ args) = some (used (what x) ∷ [])
  for_each_body (suc (suc k)) (x ∷ args) = elim (for_each_body (suc k) args) [
    | none ↦ none
    | some more ↦ some (used (what x) ∷ semicolon ∷ (more ++ (semicolon ∷ [])))
  ]
  for_each_body _ _ = none

  -- FOR_EACH_1 to FOR_EACH_8 by their numbers; there are no others.
  unfoldable pub for_each_n : ℕ → List (Arg A) → Option (List (Piece B))
  for_each_n n args = if ltb n 9 then for_each_body n args else none

  -- CONCATENATE (FOR_EACH_, N) and the call of the macro with that name. Only a number makes such a name.
  unfoldable pub call_for_each : Option (Arg A) → List (Arg A) → Option (List (Piece B))
  call_for_each (some (number n)) args = for_each_n n args
  call_for_each _ args = none

  -- FOR_EACH_ and FOR_EACH, whose variable arguments are `args`.
  unfoldable pub for_each : Arg A → List (Arg A) → Option (List (Piece B))
  for_each x args = call_for_each (for_each_narg (x ∷ va_args args)) (x ∷ va_args args)

-- What ADD_SEMICOLON makes of a declaration.
pub data Field (A : Type 0) : Type 0 where
  declared : Arg A → Field A

abbrev pub add_semicolon : {A : Type 0} → Arg A → Field A
add_semicolon x = declared x

-- DECL_ARGS.
unfoldable pub decl_args : {A : Type 0} → Arg A → List (Arg A) → Option (List (Piece (Field A)))
decl_args x args = for_each add_semicolon x args

-- STRUCT_ARGS_NAME.
unfoldable pub struct_args_name : List ℕ → List ℕ
struct_args_name fnname = fnname ++ codes "_args"

-- DECL_STRUCT_ARGS: the name of the struct, and what stands between its braces.
unfoldable pub decl_struct_args :
    {A : Type 0} → List ℕ → Arg A → List (Arg A) → Option (List ℕ × List (Piece (Field A)))
unfolding struct_args_name decl_args
decl_struct_args fnname x args = elim (decl_args x args) [
  | none ↦ none
  | some body ↦ some (struct_args_name fnname, body)
]
