-- ===== src/Chat/Recipients.antt =====
-- Who gets a message in the chat of lab07/zad1a/server.c.
use operating_systems_agh_la.Base.{
  ℕ, zero, suc, ◌+◌, ◌<◌, ◌≡◌, refl, true, false, some, List, [], ◌∷◌, map, length, get_elem?, ◌==◌,
  ltb, arith,
}
use operating_systems_agh_la.Chat.{
  Text, Client, Sent, ok, World, send_from, send_everyone, chat_line, max_message_size,
}
use operating_systems_agh_la.Chat.Present.{AllPresent}

-- The clients without the one at `i`.
abbrev pub without : ℕ → List Client → List Client
without i [] = []
without zero (c ∷ cs) = cs
without (suc i) (c ∷ cs) = c ∷ without i cs

abbrev pub to : Text → Client → Sent
to text c = record { queue = c.queue; text = text }

module _ (w : World) (text : Text) (works : (q : ℕ) → w.sends q text ≡ true) where
  send_from-later :
      (k i : ℕ) (cs : List Client)
      → k < i
      → AllPresent cs
      → send_from w (some k) text i cs ≡ ok (map (to text) cs)
  unfolding send_from
  send_from-later k i [] lt a = refl
  send_from-later k i (c ∷ cs) lt a =
      let other : (k == i) ≡ false = ground arith in
      rw (other, a.0, works c.queue, send_from-later k (suc i) cs (omega arith) a.1) refl

  send_from-without :
      (m k i : ℕ) (cs : List Client)
      → k ≡ i + m
      → AllPresent cs
      → send_from w (some k) text i cs ≡ ok (map (to text) (without m cs))
  unfolding send_from
  send_from-without m k i [] e a = refl
  send_from-without zero k i (c ∷ cs) e a =
      let this : (k == i) ≡ true = ground arith in
      rw this (send_from-later k (suc i) cs (omega arith) a.1)
  send_from-without (suc m) k i (c ∷ cs) e a =
      let other : (k == i) ≡ false = ground arith in
      rw (other, a.0, works c.queue, send_from-without m k (suc i) cs (omega arith) a.1) refl

-- When all clients are present, the line fits the message and `msgsnd` works, a text of the client
-- `i` goes to every other client once, in their order, with the time and the sender's name.
pub send_everyone-without :
    (w : World) (cs : List Client) (i : ℕ) (c : Client) (tm text : Text)
    → AllPresent cs
    → get_elem? cs i ≡ some c
    → length (chat_line tm c.name text) < max_message_size
    → ((q : ℕ) → w.sends q (chat_line tm c.name text) ≡ true)
    → send_everyone w cs text (some i) tm ≡ ok (map (to (chat_line tm c.name text)) (without i cs))
unfolding send_everyone
send_everyone-without w cs i c tm text a e fits works =
    let short : ltb (length (chat_line tm c.name text)) max_message_size ≡ true = ground arith in
    rw (e, send_everyone, short)
      (send_from-without w (chat_line tm c.name text) works i i 0 cs (omega arith) a)
