-- ===== src/Chat/Terminal/Talk.antt =====
-- What a chat of gday_chat/src/chat.rs writes to the peer, and what it shows of the peer's.
use gday_old.Base.{
  ℕ, suc, ◌≡◌, true, List, [], ◌∷◌, ◌++◌, append_assoc, append-nil, length, All, if◌then◌else◌,
  Bool-cases, inl, inr, arith, ◌≤◌, take, drop,
}
use gday_old.Base.Outcome.{ok, err}
use gday_old.Base.Text.{Bytes, is_empty, trim}
use gday_old.Chat.Terminal.{
  new_line, single_line, Lines, line, eof, interrupted, Wakes, hears, types, chats, chat_listen,
  chat_talk, run_chat, start_chat,
}

-- The texts typed, those of them that are not blank, and these as they are sent.
abbrev pub typed : List Wakes → List Bytes
typed [] = []
typed (hears ∷ wakes) = typed wakes
typed (types (ok (line text)) ∷ wakes) = text ∷ typed wakes
typed (types (ok eof) ∷ wakes) = typed wakes
typed (types (ok interrupted) ∷ wakes) = typed wakes
typed (types (err e) ∷ wakes) = typed wakes

abbrev pub not_blank : List Bytes → List Bytes
not_blank [] = []
not_blank (text ∷ texts) = if is_empty (trim text) then not_blank texts else text ∷ not_blank texts

abbrev pub sent : List Bytes → Bytes
sent [] = []
sent (text ∷ texts) = text ++ new_line ∷ sent texts

-- How often the chat listens.
abbrev pub hearings : List Wakes → ℕ
hearings [] = 0
hearings (hears ∷ wakes) = suc (hearings wakes)
hearings (types event ∷ wakes) = hearings wakes

-- The user only types lines.
abbrev pub OnlyLines : List Wakes → Type 0
OnlyLines [] = Unit {0}
OnlyLines (hears ∷ wakes) = OnlyLines wakes
OnlyLines (types (ok (line text)) ∷ wakes) = OnlyLines wakes
OnlyLines (types (ok eof) ∷ wakes) = ⊥
OnlyLines (types (ok interrupted) ∷ wakes) = ⊥
OnlyLines (types (err e) ∷ wakes) = ⊥

module _ (lines : Lines) where
  pub record Sayable (text : Bytes) : Type 0 where
    pub utf8 : lines.is_utf8 text ≡ true
    pub one_line : single_line text ≡ true

  run_chat-chats :
      (wakes : List Wakes) (texts : List Bytes) (rest written : Bytes) (shown : List Bytes)
      → OnlyLines wakes
      → All Sayable texts
      → hearings wakes ≤ length texts
      → run_chat lines wakes (record {
        incoming = sent texts ++ rest;
        written = written;
        shown = shown;
        ending = chats;
      })
        ≡ record {
          incoming = sent (drop (hearings wakes) texts) ++ rest;
          written = written ++ sent (not_blank (typed wakes));
          shown = shown ++ take (hearings wakes) texts;
          ending = chats;
        }
  unfolding run_chat chat_listen chat_talk
  run_chat-chats [] texts rest written shown only say few =
      rw (append-nil written, append-nil shown)
  run_chat-chats (hears ∷ wakes) [] rest written shown only say few = ground arith
  run_chat-chats (hears ∷ wakes) (text ∷ texts) rest written shown only (s, say) few = rw (
    append_assoc text (new_line ∷ sent texts) rest,
    lines.next_line-line text (sent texts ++ rest) s.utf8 s.one_line,
    run_chat-chats wakes texts rest written (shown ++ text ∷ []) only say (omega arith),
    append_assoc shown (text ∷ []) (take (hearings wakes) texts),
  )
  run_chat-chats (types (ok (line text)) ∷ wakes) texts rest written shown only say few =
      elim (Bool-cases (is_empty (trim text))) [
        | inl e ↦ rw e (run_chat-chats wakes texts rest written shown only say few)
        | inr e ↦ rw (
          e,
          run_chat-chats wakes texts rest ((written ++ text) ++ new_line ∷ []) shown only say few,
          append_assoc (written ++ text) (new_line ∷ []) (sent (not_blank (typed wakes))),
          append_assoc written text (new_line ∷ sent (not_blank (typed wakes))),
        )
      ]
  run_chat-chats (types (ok eof) ∷ wakes) texts rest written shown only say few = absurd only
  run_chat-chats (types (ok interrupted) ∷ wakes) texts rest written shown only say few =
      absurd only
  run_chat-chats (types (err e) ∷ wakes) texts rest written shown only say few = absurd only

  -- While the user only types lines, and there is a line of the peer's for each turn of the listening loop.
  pub start_chat-chats :
      (wakes : List Wakes) (texts : List Bytes)
      → OnlyLines wakes
      → All Sayable texts
      → hearings wakes ≤ length texts
      → start_chat lines wakes (sent texts) ≡ record {
        incoming = sent (drop (hearings wakes) texts);
        written = sent (not_blank (typed wakes));
        shown = take (hearings wakes) texts;
        ending = chats;
      }
  unfolding start_chat
  start_chat-chats wakes texts only say few =
      rw (append-nil (sent texts), append-nil (sent (drop (hearings wakes) texts))) at
        (run_chat-chats wakes texts [] [] [] only say few)
