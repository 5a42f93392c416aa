-- ===== src/NotifiedChat/Broadcast.antt =====
-- Who gets a message in the chat of lab07/zad1b/server.c.
use operating_systems_agh_la.Base.{
  ℕ, zero, suc, ◌+◌, ◌<◌, ◌≡◌, refl, sym, ap, subst, ◌∙◌, inl, inr, true, false, Option, none, some,
  List, [], ◌∷◌, ◌++◌, map, length, get_elem?, set, ◌==◌, ltb, arith, Bool-cases, if◌then◌else◌,
}
use mathlib.Core.Option.{some-injective}
use operating_systems_agh_la.NotifiedChat.{
  Text, Client, Call, send, notify, close, delivered, World, Outcome, ok, ◌>>=◌, required, send_to,
  send_others, sprintf_message, left_message, chat_message, same_text, quit, from_client,
  by_priority, receive_msg_handler,
}

-- The queues of clients that have not quit, and those without the client at `i`.
abbrev pub open_queue : Option ℕ → List ℕ
open_queue none = []
open_queue (some q) = q ∷ []

abbrev pub open_queues : List Client → List ℕ
open_queues [] = []
open_queues (c ∷ cs) = open_queue c.queue ++ open_queues cs

abbrev pub others : ℕ → List Client → List ℕ
others i [] = []
others zero (c ∷ cs) = open_queues cs
others (suc i) (c ∷ cs) = open_queue c.queue ++ others i cs

others-set : (i : ℕ) (cs : List Client) (c : Client) → others i (set cs i c) ≡ others i cs
others-set i [] c = refl
others-set zero (x ∷ xs) c = refl
others-set (suc i) (x ∷ xs) c = ap (λ qs. open_queue x.queue ++ qs) (others-set i xs c)

abbrev pub to_all : Text → List ℕ → List Call
to_all text = map (λ q. send q text)

module _ (w : World) (text : Text) (works : (q : ℕ) → w.sends q text ≡ delivered) where
  send_to-open : (queue : Option ℕ) → send_to w text queue ≡ ok (to_all text (open_queue queue))
  send_to-open none = refl
  send_to-open (some q) = rw (works q, send_to) refl

  to_all-append :
      (queue : Option ℕ) (qs : List ℕ)
      → to_all text (open_queue queue) ++ to_all text qs ≡ to_all text (open_queue queue ++ qs)
  to_all-append none qs = refl
  to_all-append (some q) qs = refl

  send_others-later :
      (k i : ℕ) (cs : List Client)
      → k < i
      → send_others w k text i cs ≡ ok (to_all text (open_queues cs))
  unfolding send_others
  send_others-later k i [] lt = refl
  send_others-later k i (c ∷ cs) lt =
      let other : (i == k) ≡ false = ground arith in
      rw (other, send_to-open c.queue, send_others-later k (suc i) cs (omega arith))
        (ap ok (to_all-append c.queue (open_queues cs)))

  send_others-others :
      (m k i : ℕ) (cs : List Client)
      → k ≡ i + m
      → send_others w k text i cs ≡ ok (to_all text (others m cs))
  unfolding send_others
  send_others-others m k i [] e = refl
  send_others-others zero k i (c ∷ cs) e =
      let this : (i == k) ≡ true = ground arith in
      rw this (send_others-later k (suc i) cs (omega arith))
  send_others-others (suc m) k i (c ∷ cs) e =
      let other : (i == k) ≡ false = ground arith in
      rw (other, send_to-open c.queue, send_others-others m k (suc i) cs (omega arith))
        (ap ok (to_all-append c.queue (others m cs)))

-- What the others get, what becomes of the client, and the calls made for one text of a client.
abbrev pub message_of : (tm : Text) → Client → Text → Text
message_of tm c text =
    if same_text text quit then left_message c.name else chat_message tm c.name text

abbrev pub handled :
    (client_no : ℕ) → List Client → Client → (queue : ℕ) (tm text : Text) → List Client × List Call
handled client_no cs c queue tm text =
    if same_text text quit
    then (
      set cs client_no (record c { queue = none }),
      close queue ∷ to_all (left_message c.name) (others client_no cs),
    )
    else (
      cs,
      to_all (chat_message tm c.name text) (others client_no cs) ++ (notify queue c.value ∷ []),
    )

required-some :
    {A B : Type 0} (o : Option A) (x : A) (f : A → Outcome B)
    → o ≡ some x
    → (required o >>= f) ≡ f x
required-some none x f e = cc
required-some (some y) x f e = ap f (some-injective y x e)

sprintf_message-fits :
    (size : ℕ) (text : Text) → length text < size → sprintf_message size text ≡ ok text
sprintf_message-fits size text fits =
    let short : ltb (length text) size ≡ true = ground arith in rw (short, sprintf_message) refl

from_client-answer :
    (w : World) (client_no queue size : ℕ) (cs : List Client) (c : Client) (tm text : Text)
    → c.queue ≡ some queue
    → w.ctime ≡ some tm
    → length (message_of tm c text) < size
    → ((q : ℕ) → w.sends q (message_of tm c text) ≡ delivered)
    → w.notifies queue ≡ true
    → from_client w client_no size cs c queue text ≡ ok (handled client_no cs c queue tm text)
unfolding from_client
from_client-answer w client_no queue size cs c tm text opened timed fits works notified =
    elim (Bool-cases (same_text text quit)) [
      | inl leaves ↦
          let message = left_message c.name in
          let same : message_of tm c text ≡ message = rw leaves refl in
          let cs' = set cs client_no (record c { queue = none }) in
          let sent =
            send_others-others w message (λ q. ap (w.sends q) (sym same) ∙ works q) client_no
              client_no 0 cs' (omega arith) in
          let short = sprintf_message-fits size message (subst (λ m. length m < size) same fits) in
          rw (timed, leaves, short, sent, others-set client_no cs (record c { queue = none })) refl
      | inr stays ↦
          let message = chat_message tm c.name text in
          let same : message_of tm c text ≡ message = rw stays refl in
          let sent =
            send_others-others w message (λ q. ap (w.sends q) (sym same) ∙ works q) client_no
              client_no 0 cs (omega arith) in
          let short = sprintf_message-fits size message (subst (λ m. length m < size) same fits) in
          rw (timed, stays, short, sent, opened, notified) refl
    ]

-- A text of a client with a priority above 0 goes to every other client that has not quit, once and
-- in their order, with the time and the name, and the server is notified of the client's next one.
-- After "quit" the others are told instead, and the client's queue is closed. Assumes that the
-- message fits its array and that the calls work.
pub receive_msg_handler-answer :
    (w : World) (client_no queue size prio : ℕ) (cs : List Client) (c : Client) (tm text : Text)
    → get_elem? cs client_no ≡ some c
    → c.queue ≡ some queue
    → w.message_size queue ≡ some size
    → w.receives queue ≡ some (text, suc prio)
    → w.ctime ≡ some tm
    → length (message_of tm c text) < size
    → ((q : ℕ) → w.sends q (message_of tm c text) ≡ delivered)
    → w.notifies queue ≡ true
    → receive_msg_handler w client_no cs ≡ ok (handled client_no cs c queue tm text)
unfolding receive_msg_handler by_priority from_client
receive_msg_handler-answer w client_no queue size prio cs c tm text at opened sized received timed
      fits works notified =
    rw (at, receive_msg_handler)
      (required-some c.queue queue _ opened
        ∙ required-some (w.message_size queue) size _ sized
        ∙ required-some (w.receives queue) (text, suc prio) _ received
        ∙ from_client-answer w client_no queue size cs c tm text opened timed fits works notified)
