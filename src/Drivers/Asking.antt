-- ===== src/Drivers/Asking.antt =====
-- The client program from its command line on.
use ghetto_subscriber_valida.Prelude.{
  ℕ, suc, ◌%◌, ◌<◌, ◌≡◌, refl, subst, true, replicate, List, [], ◌∷◌, Bool, false, none, ok, length,
  if◌then◌else◌, All, All-replicate, length-replicate, arith,
}
use ghetto_subscriber_valida.Prelude.Int.{ℤ, pos, ltb_ℤ}
use ghetto_subscriber_valida.Host.{ByteOrder}
use ghetto_subscriber_valida.CString.{strtol}
use ghetto_subscriber_valida.Database.{buf_size}
use ghetto_subscriber_valida.BusyWait.{Timeval}
use ghetto_subscriber_valida.Client.{Client, max_seq_num, max_tries, client_init}
use ghetto_subscriber_valida.Client.Usable.{IsUsable, Settles}
use ghetto_subscriber_valida.Shell.{Line, Output}
use ghetto_subscriber_valida.Shell.Prompts.{prompts}
use ghetto_subscriber_valida.Shell.Rounds.{Runs, Serves, tokens_of, loop-HasEnded}
use ghetto_subscriber_valida.Commands.{
  AddrInfo, CommandEnv, Report, commands, n_commands, invoke, request_size,
}
use ghetto_subscriber_valida.Commands.Usable.{HasRoom, NamesInet, invoke-Returns}
use ghetto_subscriber_valida.Drivers.{exit, start_shell, client_main}

-- The time limit of a client.
abbrev pub one_second : Timeval
one_second = record { tv_sec = pos 1; tv_usec = 0 }

-- The client that `client_init` sets up.
abbrev new_client : ℤ → ℕ → Client
new_client socket id = record {
  tries = replicate max_seq_num 0;
  sock_fd = socket;
  addr = record { ip = 0; port = 0 };
  timeout = one_second;
  send_buf = replicate buf_size 0;
  recv_buf = replicate buf_size 0;
  id = id;
  last_recvd_len = 0;
}

new_client-IsUsable : (socket : ℤ) (id : ℕ) → IsUsable id one_second (new_client socket id)
new_client-IsUsable socket id = record {
  tries_size = length-replicate {A = ℕ} max_seq_num 0;
  tries_left = All-replicate (λ n. n < max_tries) max_seq_num 0 (omega arith);
  send_size = length-replicate {A = ℕ} buf_size 0;
  same_id = refl;
  same_timeout = refl;
}

client_init-new_client :
    (socket bind : ℤ) (id : ℕ)
    → ltb_ℤ socket (pos 0) ≡ false
    → ltb_ℤ bind (pos 0) ≡ false
    → client_init socket bind none id ≡ (true, new_client socket id)
unfolding client_init
client_init-new_client socket bind id s b = rw (client_init, s, b) refl

-- With a socket that has been bound `client_init` sets up a client that can send.
pub client_init-IsUsable :
    (socket bind : ℤ) (id : ℕ)
    → ltb_ℤ socket (pos 0) ≡ false
    → ltb_ℤ bind (pos 0) ≡ false
    → ((client_init socket bind none id).0 ≡ true)
      × IsUsable id one_second (client_init socket bind none id).1
client_init-IsUsable socket bind id s b =
    rw (client_init-new_client socket bind id s b) (refl, new_client-IsUsable socket id)

module _ (host : ByteOrder) (getaddrinfo : List ℕ → List ℕ → AddrInfo) where
  -- A line of input that asks neither for a sequence number that `tries` has no room for nor at an address
  -- of another family than IPv4, and whose waits settle.
  pub record IsServed (line : Line CommandEnv) : Type 0 where
    pub size : length line.env.payload ≡ request_size
    pub settles : Settles host one_second line.env.answers
    pub room : HasRoom (tokens_of (invoke host getaddrinfo) commands n_commands line)
    pub inet : NamesInet getaddrinfo (tokens_of (invoke host getaddrinfo) commands n_commands line)

  -- On such lines any command returns and leaves a usable client.
  pub IsServed-Serves :
      (id : ℕ) (lines : List (Line CommandEnv))
      → All IsServed lines
      → All (Serves (invoke host getaddrinfo) commands n_commands (IsUsable id one_second)) lines
  IsServed-Serves id [] a = tt
  IsServed-Serves id (line ∷ lines) (served, a) = (
    λ fn name args cl e usable.
        invoke-Returns host getaddrinfo line.env id one_second served.size served.settles fn
          (name ∷ args) cl usable (subst HasRoom e served.room)
          (subst (NamesInet getaddrinfo) e served.inet),
    IsServed-Serves id lines a,
  )

  -- From a command line with an ID and a socket that can be set up: if no line asks `send_req` for a
  -- sequence number that is 255 modulo 256, or at an address that `getaddrinfo` resolves to another
  -- family than IPv4, and the waits of each line bring a final answer or run out of time as often as
  -- there are tries, then the client program comes to the end of its input and ends with exit code 0: no
  -- assertion fails and no access leaves a buffer. It has run the commands of the lines in their order on
  -- the client that `client_init` set up, and left a client whose arrays have their sizes, with tries
  -- left for every sequence number, and with the ID of the command line modulo 256.
  pub client_main-Runs :
      (socket bind : ℤ) (interactive : Bool) (program id : List ℕ) (lines : List (Line CommandEnv))
      → ltb_ℤ socket (pos 0) ≡ false
      → ltb_ℤ bind (pos 0) ≡ false
      → All IsServed lines
      → (cl : Client) × (out : List (Output Report)) × (client_main host getaddrinfo socket bind
            interactive
            (program ∷ id ∷ [])
            lines
          ≡ ok (exit 0, out))
        × Runs
            (invoke host getaddrinfo)
            commands
            n_commands
            lines
            (client_init socket bind none (strtol id % 256)).1
            cl
        × IsUsable (strtol id % 256) one_second cl
        × (prompts out ≡ (if interactive then suc (length lines) else 0))
  unfolding client_main start_shell
  client_main-Runs socket bind interactive program id lines s b served =
      let n : ℕ = strtol id % 256 in
      let (cl, out, run, runs, usable, p) =
        loop-HasEnded (invoke host getaddrinfo) commands n_commands (IsUsable n one_second)
          (omega arith) interactive false lines (client_init socket bind none n).1
          (IsServed-Serves n lines served) (client_init-IsUsable socket bind n s b).1 in
      (cl, out, rw ((client_init-IsUsable socket bind n s b).0, run) refl, runs, usable, p)
