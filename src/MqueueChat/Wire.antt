-- ===== src/MqueueChat/Wire.antt =====
-- 13_mqueue/chat/server.c and client.c: the messages on the queues.
use eltex_homeworks.Prelude.{ℕ, ◌++◌, ◌∷◌, Option, none, some, [], if◌then◌else◌, ◌-◌}
use eltex_homeworks.Prelude.Int.{ℤ, pos, eqb_ℤ}
use eltex_homeworks.Libc.Text.{Text, codes, str_eq, snprintf}
use eltex_homeworks.Libc.Decimal.{print_int, atoi}
use eltex_homeworks.Libc.Tokens.{strtok_r}

abbrev pub max_size : ℕ
max_size = 256

-- enum msg_type
abbrev pub new_user : ℤ
new_user = pos 0

abbrev pub new_message : ℤ
new_message = pos 1

abbrev pub user_left : ℤ
user_left = pos 2

-- "%d\n%s\n%d"
abbrev pub front : ℤ → Text → ℤ → Text
front type name pid = print_int type ++ 10 ∷ (name ++ 10 ∷ print_int pid)

-- What the client sends when it starts ("%d\n%s\n%d"), for "/exit" ("%d\n%s\n%d\n"), and for a text
-- ("%d\n%s\n%d\n%s").
unfoldable pub join_line : Text → ℤ → Text
join_line name uid = front new_user name uid

unfoldable pub left_line : Text → ℤ → Text
left_line name uid =
    snprintf max_size (print_int user_left ++ 10 ∷ (name ++ 10 ∷ (print_int uid ++ 10 ∷ [])))

unfoldable pub text_line : Text → ℤ → Text → Text
text_line name uid text =
    snprintf max_size (print_int new_message ++ 10 ∷ (name ++ 10 ∷ (print_int uid ++ 10 ∷ text)))

-- sender_thread on a line that was typed: what is sent, if anything.
unfoldable pub send_line : Text → ℤ → Text → Option Text
send_line name uid [] = none
send_line name uid (c ∷ text) =
    if str_eq (c ∷ text) (codes "/exit")
    then some (left_line name uid)
    else some (text_line name uid (c ∷ text))

-- What the server reads from a message.
pub data Request : Type 0 where
  joining : Text → ℤ → Request
  saying : Text → ℤ → Text → Request
  leaving : Text → ℤ → Request
  unknown : Request

-- The calls of strtok_r for the name and the pid; `none` where the server uses a NULL pointer.
unfoldable pub read_sender : Text → Option (Text × ℤ × Text)
read_sender s = elim (strtok_r 10 s) [
  | none ↦ none
  | some (name, s') ↦ elim (strtok_r 10 s') [
    | none ↦ none
    | some (pid_str, rest) ↦ some (name, atoi pid_str, rest)
  ]
]

unfoldable pub read_text : Text × ℤ × Text → Option Request
read_text (name, pid, s) = elim (strtok_r 10 s) [
  | none ↦ none
  | some (text, rest) ↦ some (saying name pid text)
]

unfoldable pub read_body : ℤ → Text → Option Request
read_body type s =
    if eqb_ℤ type new_user
    then elim (read_sender s) [ none ↦ none | some (name, pid, _) ↦ some (joining name pid) ]
    else if eqb_ℤ type new_message
    then elim (read_sender s) [ none ↦ none | some m ↦ read_text m ]
    else if eqb_ℤ type user_left
    then elim (read_sender s) [ none ↦ none | some (name, pid, _) ↦ some (leaving name pid) ]
    else some unknown

unfoldable pub read_request : Text → Option Request
read_request buffer = elim (strtok_r 10 buffer) [
  | none ↦ none
  | some (type_str, s) ↦ read_body (atoi type_str) s
]

-- What the server sends on to every user for a text.
unfoldable pub relay : Text → ℤ → Text → Text
relay name pid text =
    snprintf max_size (print_int new_message ++ 10 ∷ (name ++ 10 ∷ (print_int pid ++ 10 ∷ text)))

-- receiver_thread of the client on a message of type NEW_MESSAGE: the line that it shows.
unfoldable pub shown_line : Text → Option Text
shown_line buffer = elim (strtok_r 10 buffer) [
  | none ↦ none
  | some (type_str, s) ↦
      if eqb_ℤ (atoi type_str) new_message
      then elim (strtok_r 10 s) [
        | none ↦ none
        | some (name, s') ↦ elim (strtok_r 10 s') [
          | none ↦ none
          | some (uid_str, s'') ↦ elim (strtok_r 10 s'') [
            | none ↦ none
            | some (text, _) ↦ some (snprintf (max_size - 1) (name ++ codes ": " ++ text))
          ]
        ]
      ]
      else none
]
