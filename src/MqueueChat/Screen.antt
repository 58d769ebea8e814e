-- ===== src/MqueueChat/Screen.antt =====
-- 13_mqueue/chat/client.c: receiver_thread, message by message.
use eltex_homeworks.Prelude.{
  ℕ, ◌+◌, ◌-◌, ◌<◌, ◌≡◌, refl, ap, ◌∙◌, Option, none, some, List, [], ◌∷◌, ◌++◌, leb, if◌then◌else◌,
  set, length, replicate,
}
use eltex_homeworks.Prelude.Int.{ℤ, eqb_ℤ}
use eltex_homeworks.Libc.Text.{Text, codes, snprintf}
use eltex_homeworks.Libc.Decimal.{print_int, atoi, atoi-print_int}
use eltex_homeworks.Libc.Tokens.{strtok_r}
use eltex_homeworks.MqueueChat.Wire.{max_size, new_user, new_message, user_left, shown_line, relay}
use eltex_homeworks.MqueueChat.Server.{notify}
use eltex_homeworks.MqueueChat.Client.{UserList, users_max, show_user, hide_user}
use eltex_homeworks.MqueueChat.Talk.{Field, number-Field, token, fields, fits, shown_line-fields}

-- The globals of the client.
pub record Screen : Type 0 where
  pub list : UserList
  pub chat_history : List Text
  pub chat_lines : ℕ

unfoldable pub start_screen : Screen
start_screen = record {
  list = record { users = replicate users_max []; users_count = 0 };
  chat_history = replicate 100 [];
  chat_lines = 0;
}

-- The first two calls of strtok_r; `none` for `continue`.
unfoldable pub read_notice : Text → Option (ℤ × Text)
read_notice buffer = elim (strtok_r 10 buffer) [
  | none ↦ none
  | some (type_str, s) ↦ elim (strtok_r 10 s) [
    | none ↦ none
    | some (name, rest) ↦ some (atoi type_str, name)
  ]
]

abbrev pub put_line : Text → Screen → Screen
put_line line c = record c { chat_history = set c.chat_history c.chat_lines line }

abbrev pub joined_line : Text → Text
joined_line name = snprintf (max_size - 1) (codes "User " ++ name ++ codes " joined the chat!")

abbrev pub gone_line : Text → Text
gone_line name = snprintf (max_size - 1) (codes "User " ++ name ++ codes " left the chat!")

-- The switch.
unfoldable pub show_notice : Text → ℤ → Text → Screen → Screen
show_notice buffer type name c =
    if eqb_ℤ type new_user
    then put_line (joined_line name) (record c { list = show_user name c.list })
    else if eqb_ℤ type user_left
    then put_line (gone_line name) (record c { list = hide_user name c.list })
    else if eqb_ℤ type new_message
    then elim (shown_line buffer) [ none ↦ c | some line ↦ put_line line c ]
    else c

-- if (chat_lines >= 100) chat_lines = 99;
unfoldable pub next_line : Screen → Screen
next_line c = record c { chat_lines = if leb 100 (c.chat_lines + 1) then 99 else c.chat_lines + 1 }

unfoldable pub receive_message : Text → Screen → Screen
receive_message buffer c = elim (read_notice buffer) [
  | none ↦ c
  | some (type, name) ↦ next_line (show_notice buffer type name c)
]

-- The messages of a queue, in order.
unfoldable pub receive_all : List Text → Screen → Screen
receive_all [] c = c
receive_all (m ∷ messages) c = receive_all messages (receive_message m c)

pub receive_all-append :
    (a b : List Text) (c : Screen) → receive_all (a ++ b) c ≡ receive_all b (receive_all a c)
unfolding receive_all
receive_all-append [] b c = refl
receive_all-append (m ∷ a) b c = receive_all-append a b (receive_message m c)

-- The fields of a notice as they are printed.
abbrev pub notice_fields : ℤ → Text → ℤ → Text
notice_fields type name pid = print_int type ++ 10 ∷ (name ++ 10 ∷ (print_int pid ++ 10 ∷ []))

read_notice-front :
    (type : ℤ) (name rest : Text)
    → Field name
    → read_notice (print_int type ++ 10 ∷ (name ++ 10 ∷ rest)) ≡ some (type, name)
unfolding read_notice
read_notice-front type name rest f =
    rw
      (
        token (print_int type) (name ++ 10 ∷ rest) (number-Field type),
        token name rest f,
        atoi-print_int type,
        read_notice,
      )
      refl

receive_message-read :
    (buffer name : Text) (type : ℤ) (c : Screen)
    → read_notice buffer ≡ some (type, name)
    → receive_message buffer c ≡ next_line (show_notice buffer type name c)
unfolding receive_message
receive_message-read buffer name type c h = rw (h, receive_message) refl

module _ (name : Text) (pid : ℤ) (c : Screen) (n : Field name) where
  receive_message-notify :
      (type : ℤ)
      → length (notice_fields type name pid) < max_size
      → receive_message (notify type name pid) c
        ≡ next_line (show_notice (notify type name pid) type name c)
  unfolding notify
  receive_message-notify type short = receive_message-read (notify type name pid) name type c (
      ap read_notice (fits (notice_fields type name pid) short)
      ∙ read_notice-front type name (print_int pid ++ 10 ∷ []) n)

  pub receive_message-joined :
      length (notice_fields new_user name pid) < max_size
      → receive_message (notify new_user name pid) c
        ≡ next_line (put_line (joined_line name) (record c { list = show_user name c.list }))
  unfolding show_notice
  receive_message-joined short = receive_message-notify new_user short

  pub receive_message-left :
      length (notice_fields user_left name pid) < max_size
      → receive_message (notify user_left name pid) c
        ≡ next_line (put_line (gone_line name) (record c { list = hide_user name c.list }))
  unfolding show_notice
  receive_message-left short = receive_message-notify user_left short

abbrev pub said_line : Text → Text → Text
said_line name text = snprintf (max_size - 1) (name ++ codes ": " ++ text)

pub receive_message-said :
    (name text : Text) (pid : ℤ) (c : Screen)
    → Field name
    → Field text
    → length (fields name pid text) < max_size
    → receive_message (relay name pid text) c ≡ next_line (put_line (said_line name text) c)
unfolding relay show_notice
receive_message-said name text pid c n t short =
    receive_message-read (relay name pid text) name new_message c (
      ap read_notice (fits (fields name pid text) short)
      ∙ read_notice-front new_message name (print_int pid ++ 10 ∷ text) n)
    ∙ ap (λ o. next_line (elim o [ none ↦ c | some line ↦ put_line line c ]))
        (ap shown_line (fits (fields name pid text) short) ∙ shown_line-fields name text pid n t)
