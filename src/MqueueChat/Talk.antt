-- ===== src/MqueueChat/Talk.antt =====
-- 13_mqueue/chat: what the server reads of the client's messages, and what the other clients show.
use eltex_homeworks.Prelude.{
  ◌-◌, ◌<◌, ◌≡◌, refl, ap, ◌∙◌, false, Option, none, some, [], ◌∷◌, ◌++◌, arith, length, take_all,
}
use eltex_homeworks.Prelude.Int.{ℤ}
use eltex_homeworks.Libc.Text.{Text, codes, str_eq, snprintf, HasNo}
use eltex_homeworks.Libc.Decimal.{print_int, atoi-print_int, print_int-length, print_int-HasNo}
use eltex_homeworks.Libc.Tokens.{strtok_r, strtok_r-append, strtok_r-last}
use eltex_homeworks.MqueueChat.Wire.{
  max_size, new_user, new_message, user_left, join_line, left_line, text_line, send_line, Request,
  joining, saying, leaving, read_sender, read_text, read_body, read_request, relay, shown_line,
}

-- What can stand in a field of a message.
abbrev pub Field : Text → Type 0
Field s = (0 < length s) × HasNo 10 s

pub number-Field : (z : ℤ) → Field (print_int z)
number-Field z = (print_int-length z, print_int-HasNo 10 refl refl z)

pub token : (s rest : Text) → Field s → strtok_r 10 (s ++ 10 ∷ rest) ≡ some (s, rest)
token s rest f = strtok_r-append 10 s rest f.0 f.1

-- The name and the pid, in front of more.
read_sender-more :
    (name rest : Text) (pid : ℤ)
    → Field name
    → read_sender (name ++ 10 ∷ (print_int pid ++ 10 ∷ rest)) ≡ some (name, pid, rest)
unfolding read_sender
read_sender-more name rest pid f =
    rw
      (
        token name (print_int pid ++ 10 ∷ rest) f,
        token (print_int pid) rest (number-Field pid),
        atoi-print_int pid,
        read_sender,
      )
      refl

-- The name and the pid at the end.
read_sender-end :
    (name : Text) (pid : ℤ)
    → Field name
    → read_sender (name ++ 10 ∷ print_int pid) ≡ some (name, pid, [])
unfolding read_sender
read_sender-end name pid f =
    let (long, plain) = number-Field pid in
    rw
      (
        token name (print_int pid) f,
        strtok_r-last 10 (print_int pid) long plain,
        atoi-print_int pid,
        read_sender,
      )
      refl

read_request-body :
    (type : ℤ) (s : Text) → read_request (print_int type ++ 10 ∷ s) ≡ read_body type s
unfolding read_request
read_request-body type s =
    rw (token (print_int type) s (number-Field type), atoi-print_int type, read_request) refl

read_text-some :
    (name text : Text) (pid : ℤ)
    → Field text
    → read_text (name, pid, text) ≡ some (saying name pid text)
unfolding read_text
read_text-some name text pid f = rw (strtok_r-last 10 text f.0 f.1, read_text) refl

-- The fields of a text message as they are printed.
abbrev pub fields : Text → ℤ → Text → Text
fields name pid text = print_int new_message ++ 10 ∷ (name ++ 10 ∷ (print_int pid ++ 10 ∷ text))

module _ (name text : Text) (pid : ℤ) (n : Field name) (t : Field text) where
  read_request-fields : read_request (fields name pid text) ≡ some (saying name pid text)
  unfolding read_body
  read_request-fields =
      read_request-body new_message (name ++ 10 ∷ (print_int pid ++ 10 ∷ text))
      ∙ ap (λ o. elim o [ none ↦ none | some m ↦ read_text m ]) (read_sender-more name text pid n)
      ∙ read_text-some name text pid t

  pub shown_line-fields :
      shown_line (fields name pid text)
      ≡ some (snprintf (max_size - 1) (name ++ codes ": " ++ text))
  unfolding shown_line
  shown_line-fields =
      rw
        (
          token (print_int new_message) (name ++ 10 ∷ (print_int pid ++ 10 ∷ text))
              (number-Field new_message),
          atoi-print_int new_message,
          token name (print_int pid ++ 10 ∷ text) n,
          token (print_int pid) text (number-Field pid),
          strtok_r-last 10 text t.0 t.1,
          shown_line,
        )
        refl

pub fits : (s : Text) → length s < max_size → snprintf max_size s ≡ s
fits s h = take_all 255 s (omega arith)

send_line-text :
    (name text : Text) (pid : ℤ)
    → 0 < length text
    → str_eq text (codes "/exit") ≡ false
    → send_line name pid text ≡ some (text_line name pid text)
unfolding send_line
send_line-text name [] pid h e = absurd (omega arith)
send_line-text name (c ∷ text) pid h e = rw e

-- A name and a text that are not empty and have no newline, the text not "/exit", with a message that
-- fits into 255 bytes: the client sends a message in which the server reads exactly the name, the pid
-- and the text; the server relays the same bytes; and the other clients show "<name>: <text>".
pub read_request-send_line :
    (name text : Text) (pid : ℤ)
    → Field name
    → Field text
    → str_eq text (codes "/exit") ≡ false
    → length (fields name pid text) < max_size
    → (line : Text) × (send_line name pid text ≡ some line)
      × (read_request line ≡ some (saying name pid text))
      × (relay name pid text ≡ line)
      × (shown_line line ≡ some (snprintf (max_size - 1) (name ++ codes ": " ++ text)))
unfolding text_line relay
read_request-send_line name text pid n t e short = (
  fields name pid text,
  send_line-text name text pid t.0 e ∙ ap some (fits _ short),
  read_request-fields name text pid n t,
  fits _ short,
  shown_line-fields name text pid n t,
)

abbrev pub left_fields : Text → ℤ → Text
left_fields name pid = print_int user_left ++ 10 ∷ (name ++ 10 ∷ (print_int pid ++ 10 ∷ []))

read_leaving :
    (name : Text) (pid : ℤ)
    → Field name
    → read_request (left_fields name pid) ≡ some (leaving name pid)
unfolding read_body
read_leaving name pid n =
    read_request-body user_left (name ++ 10 ∷ (print_int pid ++ 10 ∷ []))
    ∙ ap (λ o. elim o as (λ x. Option Request) [ none ↦ none | some m ↦ some (leaving m.0 m.1) ])
        (read_sender-more name [] pid n)

-- A name that is not empty and has no newline, with messages that fit into 255 bytes: from the first
-- message of a client the server reads that this name and pid join, and from what it sends for "/exit"
-- that they leave.
read_request-join_line :
    (name : Text) (pid : ℤ)
    → Field name
    → length (left_fields name pid) < max_size
    → (line : Text) × (send_line name pid (codes "/exit") ≡ some line)
      × (read_request line ≡ some (leaving name pid))
      × (read_request (join_line name pid) ≡ some (joining name pid))
unfolding send_line left_line join_line str_eq read_body
read_request-join_line name pid n short = (
  left_fields name pid,
  ap some (fits _ short),
  read_leaving name pid n,
  read_request-body new_user (name ++ 10 ∷ print_int pid)
      ∙ ap (λ o. elim o as (λ x. Option Request) [ none ↦ none | some m ↦ some (joining m.0 m.1) ])
          (read_sender-end name pid n),
)
