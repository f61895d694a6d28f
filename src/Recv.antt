-- ===== src/Recv.antt =====
-- The closure for recv: `try_recv` of packet.c and the struct of its arguments.
use ghetto_subscriber_valida.Prelude.{
  ℕ, ◌-◌, ◌^◌, List, ◌++◌, Bool, true, false, length, take, drop,
}
use Prim.Native.Nat.{min}
use ghetto_subscriber_valida.Prelude.Int.{ℤ}

-- `struct recv_args`, which DECL_STRUCT_ARGS declares. `buf` is the memory from that pointer on.
pub record RecvArgs : Type 0 where
  pub sockfd : ℤ
  pub buf : List ℕ
  pub len : ℕ
  pub flags : ℕ

-- What a call of recv comes to: -1, or a datagram.
pub data Received : Type 0 where
  nothing : Received
  datagram : List ℕ → Received

-- A datagram is cut to the length of the buffer, and the bytes behind it stay as they were.
abbrev pub received_into : List ℕ → ℕ → List ℕ → List ℕ
received_into buf len d = take len d ++ drop (min (length d) len) buf

-- `try_recv`: its result, the arguments after it, and `*retval`, which holds the pattern of a 64-bit
-- number.
unfoldable pub try_recv : Received → RecvArgs → ℕ → Bool × RecvArgs × ℕ
try_recv nothing args retval = (false, args, 2 ^ 64 - 1)
try_recv (datagram d) args retval =
    (true, record args { buf = received_into args.buf args.len d }, min (length d) args.len)
