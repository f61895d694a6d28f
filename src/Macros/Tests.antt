-- ===== src/Macros/Tests.antt =====
-- The macros on the arguments of recv.
use ghetto_subscriber_valida.Prelude.{ℕ, ◌≡◌, refl, List, [], ◌∷◌, map, some, arith}
use ghetto_subscriber_valida.CString.{codes}
use ghetto_subscriber_valida.Macros.{
  Arg, given, Piece, used, semicolon, Field, declared, add_semicolon, va_args, for_each_narg,
  for_each_n, call_for_each, for_each, decl_struct_args,
}
use ghetto_subscriber_valida.Macros.ForEach.{uses, for_each-map}

abbrev sockfd : Arg (List ℕ)
sockfd = given (codes "int sockfd")

abbrev others : List (Arg (List ℕ))
others = given (codes "void* buf") ∷ given (codes "size_t len") ∷ given (codes "int flags") ∷ []

for_each-map_example :
    (ps : List (Piece (Field (List ℕ)))) × (for_each add_semicolon sockfd others ≡ some ps)
    × (uses ps ≡ map add_semicolon (sockfd ∷ va_args others))
for_each-map_example = for_each-map add_semicolon sockfd others (omega arith)

-- The struct that packet.h declares.
recv_args :
    decl_struct_args (codes "recv") sockfd others
    ≡ some (
      codes "recv_args",
      used (declared sockfd)
          ∷ semicolon
          ∷ used (declared (given (codes "void* buf")))
          ∷ semicolon
          ∷ used (declared (given (codes "size_t len")))
          ∷ semicolon
          ∷ used (declared (given (codes "int flags")))
          ∷ semicolon
          ∷ semicolon
          ∷ semicolon
          ∷ [],
    )
unfolding decl_struct_args for_each for_each_narg call_for_each for_each_n
recv_args = refl
