-- ===== src/NotifiedChat.antt =====
-- The chat server lab07/zad1b/server.c, two signal handlers on POSIX message queues. A text is its
-- bytes before the terminating zero. Of `clients_list` the model keeps the first
-- `actual_clients_number` entries; a handler gives the calls that it makes, in their order.
pub mod Table
pub mod Broadcast
mod Examples
use operating_systems_agh_la.Base.{
  ℕ, zero, suc, ◌+◌, ◌-◌, Bool, true, false, Option, none, some, List, [], ◌∷◌, ◌++◌, length,
  get_elem?, set, ◌==◌, ◌&&◌, ltb, leb, if◌then◌else◌,
}

abbrev pub Text : Type 0
Text = List ℕ

-- MAX_CLIENTS
abbrev pub max_clients : ℕ
max_clients = 5

-- `none` is the descriptor -1; `value` is the one that comes with a notification.
pub record Client : Type 0 where
  pub queue : Option ℕ
  pub name : Text
  pub value : ℕ

pub data Call : Type 0 where
  send : (queue : ℕ) (text : Text) → Call
  notify : (queue value : ℕ) → Call
  notify_server : Call
  close : (queue : ℕ) → Call

-- What `mq_send` gives: a `bad_descriptor` is EBADF.
pub data Delivery : Type 0 where
  delivered bad_descriptor failed : Delivery

-- What the calls give during one run of a handler. `receives` is a text with its priority.
pub record World : Type 0 where
  pub server_message : Option Text
  pub opens : Text → Option ℕ
  pub notifies : ℕ → Bool
  pub notifies_server : Bool
  pub message_size : ℕ → Option ℕ
  pub receives : ℕ → Option (Text × ℕ)
  pub sends : ℕ → Text → Delivery
  pub ctime : Option Text

-- `exits`: ERROR_HANDLER; `out_of_bounds`: a write or read behind an array.
pub data Outcome (A : Type 0) : Type 0 where
  ok : A → Outcome A
  exits : Outcome A
  out_of_bounds : Outcome A

infixl 5 ◌>>=◌
abbrev pub ◌>>=◌ : {A B : Type 0} → Outcome A → (A → Outcome B) → Outcome B
ok x >>= f = f x
exits >>= f = exits
out_of_bounds >>= f = out_of_bounds

-- A call that fails ends the process.
abbrev pub required : {A : Type 0} → Option A → Outcome A
required none = exits
required (some x) = ok x

-- "/%s_queue"
abbrev pub client_q_name : Text → Text
client_q_name name = (47 ∷ []) ++ name ++ (95 ∷ 113 ∷ 117 ∷ 101 ∷ 117 ∷ 101 ∷ [])

-- `mq_notify` on the queue of a client
abbrev pub notify_client : World → Option ℕ → ℕ → Outcome (List Call)
notify_client w none value = exits
notify_client w (some q) value = if w.notifies q then ok (notify q value ∷ []) else exits

pub add_user_handler : World → List Client → Outcome (List Client × List Call)
add_user_handler w cs = if leb max_clients (length cs) then ok (cs, []) else (do
  name ← required w.server_message
  let queue = w.opens (client_q_name name)
  notified ← notify_client w queue (length cs)
  if w.notifies_server
      then ok (
        cs ++ (record { queue = queue; name = name; value = length cs } ∷ []),
        notified ++ (notify_server ∷ []),
      )
      else exits)

-- One `mq_send` of the loop; a queue that is closed gives EBADF, which is passed over.
abbrev pub send_to : World → Text → Option ℕ → Outcome (List Call)
send_to w text none = ok []
send_to w text (some q) = elim (w.sends q text) [
  | delivered ↦ ok (send q text ∷ [])
  | bad_descriptor ↦ ok []
  | failed ↦ exits
]

-- The loop over the other clients, from the client `i` on.
pub send_others : World → (client_no : ℕ) → Text → ℕ → List Client → Outcome (List Call)
send_others w client_no text i [] = ok []
send_others w client_no text i (c ∷ cs) =
    if i == client_no then send_others w client_no text (suc i) cs else (do
      calls ← send_to w text c.queue
      rest ← send_others w client_no text (suc i) cs
      ok (calls ++ rest))

-- "server:  %s has left\n"
abbrev pub left_message : Text → Text
left_message name =
    (115 ∷ 101 ∷ 114 ∷ 118 ∷ 101 ∷ 114 ∷ 58 ∷ 32 ∷ 32 ∷ [])
    ++ name
    ++ (32 ∷ 104 ∷ 97 ∷ 115 ∷ 32 ∷ 108 ∷ 101 ∷ 102 ∷ 116 ∷ 10 ∷ [])

-- "%s@%s:\t%s\n"
abbrev pub chat_message : (tm name text : Text) → Text
chat_message tm name text = tm ++ (64 ∷ []) ++ name ++ (58 ∷ 9 ∷ []) ++ text ++ (10 ∷ [])

abbrev pub same_text : Text → Text → Bool
same_text [] [] = true
same_text [] (y ∷ ys) = false
same_text (x ∷ xs) [] = false
same_text (x ∷ xs) (y ∷ ys) = (x == y) && same_text xs ys

abbrev pub quit : Text
quit = 113 ∷ 117 ∷ 105 ∷ 116 ∷ []

-- `sprintf` to `message`. Its size is `attr.mq_msgsize` and the length of what stands 101 bytes
-- behind the start of the name: a name has 100 bytes at most, zeros follow, and that length is 0.
abbrev pub sprintf_message : (size : ℕ) → Text → Outcome Text
sprintf_message size text = if ltb (length text) size then ok text else out_of_bounds

-- A message of the client `c` at `client_no` with a priority above 0.
pub from_client :
    World
    → (client_no size : ℕ) → List Client
    → Client
    → (queue : ℕ) → Text
    → Outcome (List Client × List Call)
unfolding send_others
from_client w client_no size cs c queue text = do
  tm ← required w.ctime
  if same_text text quit
      then (do
        message ← sprintf_message size (left_message c.name)
        let cs' = set cs client_no (record c { queue = none })
        sent ← send_others w client_no message 0 cs'
        ok (cs', close queue ∷ sent))
      else (do
        message ← sprintf_message size (chat_message tm c.name text)
        sent ← send_others w client_no message 0 cs
        notified ← notify_client w c.queue c.value
        ok (cs, sent ++ notified))

-- The branches on the priority.
pub by_priority :
    World
    → (client_no size : ℕ) → List Client
    → Client
    → (queue : ℕ) → Text
    → (prio : ℕ) → Outcome (List Client × List Call)
unfolding from_client
by_priority w client_no size cs c queue text zero = elim (w.sends queue text) [
  | delivered ↦ (do notified ← notify_client w c.queue c.value; ok (cs, send queue text ∷ notified))
  | _ ↦ exits
]
by_priority w client_no size cs c queue text (suc prio) =
    from_client w client_no size cs c queue text

pub receive_msg_handler : World → (client_no : ℕ) → List Client → Outcome (List Client × List Call)
unfolding by_priority
receive_msg_handler w client_no cs = elim (get_elem? cs client_no) [
  | none ↦ out_of_bounds
  | some c ↦ (do
    queue ← required c.queue
    size ← required (w.message_size queue)
    (text, prio) ← required (w.receives queue)
    by_priority w client_no size cs c queue text prio)
]
