-- ===== src/Shell/Words.antt =====
-- The tokens of a line, against a reading of the line that knows no `strtok`.
use ghetto_subscriber_valida.Prelude.{
  ℕ, zero, suc, ◌≤◌, ◌≡◌, refl, ap, List, [], ◌∷◌, false, if◌then◌else◌, Option, none, some, length,
  take, All, All-take, Bool-cases, inl, inr, arith, length-take,
}
use ghetto_subscriber_valida.CString.{is_delim, skip_delims, take_token, strtok}
use ghetto_subscriber_valida.Shell.{delims, tokenize}

abbrev pub nonempties : List (List ℕ) → List (List ℕ)
nonempties [] = []
nonempties ([] ∷ ps) = nonempties ps
nonempties ((c ∷ p) ∷ ps) = (c ∷ p) ∷ nonempties ps

module _ (ds : List ℕ) where
  -- The pieces between delimiters: the first one, and those behind it.
  abbrev pub pieces : List ℕ → List ℕ × List (List ℕ)
  pieces [] = ([], [])
  pieces (c ∷ cs) = let (p, ps) = pieces cs in if is_delim ds c then ([], p ∷ ps) else (c ∷ p, ps)

  -- The words of a line are the pieces that are not empty.
  abbrev pub words : List ℕ → List (List ℕ)
  words s = nonempties ((pieces s).0 ∷ (pieces s).1)

  abbrev pub IsPlain : ℕ → Type 0
  IsPlain c = is_delim ds c ≡ false

  -- A word: not empty, and without a delimiter.
  abbrev pub IsWord : List ℕ → Type 0
  IsWord [] = ⊥
  IsWord (c ∷ cs) = All IsPlain (c ∷ cs)

  take_token-pieces :
      (s : List ℕ)
      → ((take_token ds s).0 ≡ (pieces s).0) × (words (take_token ds s).1 ≡ nonempties (pieces s).1)
  unfolding take_token
  take_token-pieces [] = (refl, refl)
  take_token-pieces (c ∷ cs) =
      let (p, ps) = take_token-pieces cs in
      elim (Bool-cases (is_delim ds c)) [
        | inl e ↦ rw e (refl, refl)
        | inr e ↦ rw e (ap (◌∷◌ c) p, ps)
      ]

  -- What a result of `strtok` says of the words.
  abbrev Words : List (List ℕ) → Option (List ℕ × List ℕ) → Type 0
  Words ws none = ws ≡ []
  Words ws (some (token, rest)) = ws ≡ token ∷ words rest

  strtok-words : (s : List ℕ) → Words (words s) (strtok ds s)
  unfolding strtok skip_delims take_token
  strtok-words [] = refl
  strtok-words (c ∷ cs) =
      let (p, ps) = take_token-pieces cs in
      elim (Bool-cases (is_delim ds c)) [
        | inl e ↦ rw e (strtok-words cs)
        | inr e ↦ rw (e, e) (cc (p, ps))
      ]

  pieces-IsPlain : (s : List ℕ) → All IsPlain (pieces s).0 × All (All IsPlain) (pieces s).1
  pieces-IsPlain [] = (tt, tt)
  pieces-IsPlain (c ∷ cs) =
      let (p, ps) = pieces-IsPlain cs in
      elim (Bool-cases (is_delim ds c)) [ inl e ↦ rw e (tt, (p, ps)) | inr e ↦ rw e ((e, p), ps) ]

  nonempties-IsWord : (ps : List (List ℕ)) → All (All IsPlain) ps → All IsWord (nonempties ps)
  nonempties-IsWord [] h = tt
  nonempties-IsWord ([] ∷ ps) h = nonempties-IsWord ps h.1
  nonempties-IsWord ((c ∷ p) ∷ ps) h = (h.0, nonempties-IsWord ps h.1)

  words-IsWord : (s : List ℕ) → All IsWord (words s)
  words-IsWord s = nonempties-IsWord ((pieces s).0 ∷ (pieces s).1) (pieces-IsPlain s)

tokens-take :
    (n : ℕ) (r : Option (List ℕ × List ℕ)) (ws : List (List ℕ))
    → ((s : List ℕ) → tokenize s n ≡ take n (words delims s))
    → Words delims ws r
    → (elim r [ none ↦ [] | some (token, rest) ↦ token ∷ tokenize rest n ]) ≡ take (suc n) ws
tokens-take n none ws more h = rw h refl
tokens-take n (some (token, rest)) ws more h = rw h (ap (◌∷◌ token) (more rest))

tokenize-take : (n : ℕ) (s : List ℕ) → tokenize s n ≡ take n (words delims s)
unfolding tokenize
tokenize-take zero s = refl
tokenize-take (suc n) s =
    tokens-take n (strtok delims s) (words delims s) (tokenize-take n) (strtok-words delims s)

-- `tokenize` gives the first words of a line, as many as there is space for: the stretches between blanks
-- and line feeds that are not empty; no token is empty or has a delimiter in it.
pub tokenize-words :
    (n : ℕ) (s : List ℕ)
    → (tokenize s n ≡ take n (words delims s))
      × All (IsWord delims) (tokenize s n)
      × (length (tokenize s n) ≤ n)
tokenize-words n s =
    let e = tokenize-take n s in
    rw e (
      refl,
      All-take (IsWord delims) n (words delims s) (words-IsWord delims s),
      omega (arith, length-take n (words delims s)),
    )
