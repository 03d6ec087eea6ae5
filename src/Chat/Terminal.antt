-- ===== src/Chat/Terminal.antt =====
-- gday_chat/src/chat.rs: the chat, whose two loops run side by side until one of them ends. Which of
-- the two goes on next is an argument, as is what the user types; the lines of a reader and the
-- prompt are other packages, and a write to the peer or to the screen is one that succeeds.
pub mod Talk
use gday_old.Base.{
  ℕ, ◌≡◌, Bool, true, false, Option, none, some, List, [], ◌∷◌, ◌++◌, ◌&&◌, ◌==◌, not,
  if◌then◌else◌,
}
use gday_old.Base.Outcome.{Result, ok, err}
use gday_old.Base.Text.{Bytes, is_empty, trim}
use gday_old.Chat.Protocol.{Error, io, rustyline_async}

abbrev pub new_line : ℕ
new_line = 10

abbrev carriage_return : ℕ
carriage_return = 13

-- A text without a new line, and without a carriage return at its end.
abbrev pub single_line : Bytes → Bool
single_line [] = true
single_line (c ∷ []) = not (c == new_line) && not (c == carriage_return)
single_line (c ∷ d ∷ text) = not (c == new_line) && single_line (d ∷ text)

-- `lines` and `next_line` of tokio: none is the end of the stream, and a line comes with what
-- follows it.
pub record Lines : Type 0 where
  pub is_utf8 : Bytes → Bool
  pub next_line : Bytes → Result ℕ (Option (Bytes × Bytes))
  pub next_line-line :
      (text rest : Bytes)
      → is_utf8 text ≡ true
      → single_line text ≡ true
      → next_line (text ++ new_line ∷ rest) ≡ ok (some (text, rest))

-- `ReadlineEvent` of rustyline_async.
pub data ReadlineEvent : Type 0 where
  line : Bytes → ReadlineEvent
  eof interrupted : ReadlineEvent

-- What a loop waits for: `next_line` in `chat_listen`, `readline` in `chat_talk`.
pub data Wakes : Type 0 where
  hears : Wakes
  types : Result ℕ ReadlineEvent → Wakes

pub data Ending : Type 0 where
  chats : Ending
  ends : Result Error (Unit {0}) → Ending

-- What the reader still holds, what has been written to the peer and shown to the user, and whether
-- the chat has ended.
pub record Chat : Type 0 where
  pub incoming : Bytes
  pub written : Bytes
  pub shown : List Bytes
  pub ending : Ending

abbrev listened : Chat → Result ℕ (Option (Bytes × Bytes)) → Chat
listened chat (err e) = record chat { ending = ends (err (io e)) }
listened chat (ok none) = record chat { ending = ends (ok tt) }
listened chat (ok (some (text, rest))) = record chat {
  incoming = rest;
  shown = chat.shown ++ text ∷ [];
}

-- A round of the loop of `chat_listen`.
unfoldable pub chat_listen : Lines → Chat → Chat
chat_listen lines chat = listened chat (lines.next_line chat.incoming)

-- A round of the loop of `chat_talk`.
unfoldable pub chat_talk : Result ℕ ReadlineEvent → Chat → Chat
chat_talk (err e) chat = record chat { ending = ends (err (rustyline_async e)) }
chat_talk (ok (line text)) chat =
    if is_empty (trim text)
    then chat
    else record chat { written = (chat.written ++ text) ++ new_line ∷ [] }
chat_talk (ok eof) chat = record chat { ending = ends (ok tt) }
chat_talk (ok interrupted) chat = record chat { ending = ends (ok tt) }

abbrev pub take_turn : Lines → Wakes → Chat → Chat
take_turn lines hears chat = chat_listen lines chat
take_turn lines (types event) chat = chat_talk event chat

-- `tokio::select!` of the two: nothing happens behind the end of one.
unfoldable pub run_chat : Lines → List Wakes → Chat → Chat
run_chat lines [] chat = chat
run_chat lines (w ∷ wakes) chat = elim chat.ending [
  | chats ↦ run_chat lines wakes (take_turn lines w chat)
  | ends result ↦ chat
]

unfoldable pub start_chat : Lines → List Wakes → Bytes → Chat
start_chat lines wakes reader =
    run_chat lines wakes (record { incoming = reader; written = []; shown = []; ending = chats })
