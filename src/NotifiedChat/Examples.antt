-- ===== src/NotifiedChat/Examples.antt =====
-- Runs of the handlers of lab07/zad1b/server.c.
use operating_systems_agh_la.Base.{◌≡◌, refl, true, none, some, [], ◌∷◌, arith}
use operating_systems_agh_la.NotifiedChat.{
  Client, send, notify, notify_server, close, delivered, World, ok, add_user_handler, send_others,
  from_client, by_priority, receive_msg_handler, quit, left_message, Text,
}
use operating_systems_agh_la.NotifiedChat.Table.{Reach, start, step, user, IsTable, Reach-IsTable}
use operating_systems_agh_la.NotifiedChat.Broadcast.{handled, receive_msg_handler-answer}

-- "ala" joins, on a queue with the descriptor 3; each queue holds `text` with priority 1.
abbrev world : Text → World
world text = record {
  server_message = some (97 ∷ 108 ∷ 97 ∷ []);
  opens = λ name. some 3;
  notifies = λ q. true;
  notifies_server = true;
  message_size = λ q. some 4096;
  receives = λ q. some (text, 1);
  sends = λ q t. delivered;
  ctime = some (49 ∷ 50 ∷ []);
}

abbrev ala : Client
ala = record { queue = some 3; name = 97 ∷ 108 ∷ 97 ∷ []; value = 0 }

abbrev bob : Client
bob = record { queue = some 4; name = 98 ∷ 111 ∷ 98 ∷ []; value = 1 }

abbrev gone_eve : Client
gone_eve = record { queue = none; name = 101 ∷ 118 ∷ 101 ∷ []; value = 2 }

joined : add_user_handler (world []) [] ≡ ok (ala ∷ [], notify 3 0 ∷ notify_server ∷ [])
unfolding add_user_handler
joined = refl

-- A sixth user gets no answer, and the server asks for no further notification.
refused :
    add_user_handler (world []) (ala ∷ bob ∷ gone_eve ∷ gone_eve ∷ gone_eve ∷ [])
    ≡ ok (ala ∷ bob ∷ gone_eve ∷ gone_eve ∷ gone_eve ∷ [], [])
unfolding add_user_handler
refused = refl

bob_quits :
    receive_msg_handler (world quit) 1 (ala ∷ bob ∷ gone_eve ∷ [])
    ≡ ok (
      ala ∷ record bob { queue = none } ∷ gone_eve ∷ [],
      close 4 ∷ send 3 (left_message bob.name) ∷ [],
    )
unfolding receive_msg_handler by_priority from_client send_others
bob_quits = refl

ala_reached : Reach (ala ∷ [])
ala_reached = step (user (world [])) [] (ala ∷ []) (notify 3 0 ∷ notify_server ∷ []) start joined

Reach-IsTable_example : IsTable (ala ∷ [])
Reach-IsTable_example = Reach-IsTable (ala ∷ []) ala_reached

receive_msg_handler-answer_example :
    receive_msg_handler (world (104 ∷ 105 ∷ [])) 0 (ala ∷ bob ∷ gone_eve ∷ [])
    ≡ ok (handled 0 (ala ∷ bob ∷ gone_eve ∷ []) ala 3 (49 ∷ 50 ∷ []) (104 ∷ 105 ∷ []))
receive_msg_handler-answer_example =
    receive_msg_handler-answer (world (104 ∷ 105 ∷ [])) 0 3 4096 0 (ala ∷ bob ∷ gone_eve ∷ []) ala
      (49 ∷ 50 ∷ []) (104 ∷ 105 ∷ []) refl refl refl refl refl (omega arith) (λ q. refl) refl
