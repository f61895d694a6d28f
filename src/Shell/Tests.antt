-- ===== src/Shell/Tests.antt =====
-- shell.c on concrete lines.
use ghetto_subscriber_valida.Prelude.{ℕ, ◌≤◌, ◌≡◌, List, length, take, All}
use ghetto_subscriber_valida.CString.{codes}
use ghetto_subscriber_valida.Shell.{delims, tokenize}
use ghetto_subscriber_valida.Shell.Words.{words, IsWord, tokenize-words}

abbrev request_line : List ℕ
request_line = codes "send_req  localhost 4321 9 4085546805 04\n"

tokenize-words_example :
    (tokenize request_line 3 ≡ take 3 (words delims request_line))
    × All (IsWord delims) (tokenize request_line 3)
    × (length (tokenize request_line 3) ≤ 3)
tokenize-words_example = tokenize-words 3 request_line
