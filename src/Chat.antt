-- ===== src/Chat.antt =====
-- The chat server lab07/zad1a/server.c. A text is its bytes before the terminating zero. Of
-- `clients` the model keeps the first `actual_clients_number` entries, the ones that are read.
pub mod Present
pub mod Recipients
mod Examples
use operating_systems_agh_la.Base.{
  ℕ, zero, suc, ◌+◌, ◌-◌, Bool, true, false, Option, none, some, List, [], ◌∷◌, ◌++◌, length,
  get_elem?, set, ◌==◌, ◌||◌, ◌&&◌, not, ltb, leb, if◌then◌else◌,
}

abbrev pub Text : Type 0
Text = List ℕ

abbrev pub max_message_size : ℕ
max_message_size = 1024

abbrev pub max_clients_num : ℕ
max_clients_num = 10

abbrev pub max_clients_name_length : ℕ
max_clients_name_length = 100

-- `present` is `state == CLIENT_PRESENT`.
pub record Client : Type 0 where
  pub id : ℕ
  pub queue : ℕ
  pub name : Text
  pub present : Bool

pub record Sent : Type 0 where
  pub queue : ℕ
  pub text : Text

-- `exits`: ERROR_HANDLER; `out_of_bounds`: a write or read behind an array.
pub data Outcome (A : Type 0) : Type 0 where
  ok : A → Outcome A
  exits : Outcome A
  out_of_bounds : Outcome A

infixl 5 ◌>>=◌
abbrev pub ◌>>=◌ : {A B : Type 0} → Outcome A → (A → Outcome B) → Outcome B
ok x >>= f = f x
exits >>= f = exits
out_of_bounds >>= f = out_of_bounds

-- `ftok` and `msgget` for the queue of a client, and whether `msgsnd` works.
pub record World : Type 0 where
  pub queue_of : ℕ → Option ℕ
  pub sends : ℕ → Text → Bool

pub add_client : World → List Client → (mtype : ℕ) → Text → Outcome (List Client)
add_client w cs mtype text =
    if ltb (length cs) max_clients_num && ltb (length text) max_clients_name_length
    then elim (w.queue_of mtype) [
      | none ↦ exits
      | some q ↦ ok (cs ++ (record { id = mtype; queue = q; name = text; present = true } ∷ []))
    ]
    else out_of_bounds

abbrev pub is_sender : Option ℕ → ℕ → Bool
is_sender none i = false
is_sender (some k) i = k == i

-- The loop of `send_everyone`, from the client `i` on.
pub send_from : World → (sender : Option ℕ) → Text → ℕ → List Client → Outcome (List Sent)
send_from w sender text i [] = ok []
send_from w sender text i (c ∷ cs) =
    if not (is_sender sender i) && c.present
    then (if w.sends c.queue text
        then (do
          rest ← send_from w sender text (suc i) cs
          ok (record { queue = c.queue; text = text } ∷ rest))
        else exits)
    else send_from w sender text (suc i) cs

-- "%s@%s:\t%s\n\n" with the time, the sender's name and the text
abbrev pub chat_line : (tm name text : Text) → Text
chat_line tm name text = tm ++ (64 ∷ []) ++ name ++ (58 ∷ 9 ∷ []) ++ text ++ (10 ∷ 10 ∷ [])

-- The text is written to an array of `max_message_size` bytes. The sender `none` is the server.
pub send_everyone :
    World → List Client → Text → (sender : Option ℕ) → (tm : Text) → Outcome (List Sent)
unfolding send_from
send_everyone w cs text none tm =
    if ltb (length text) max_message_size then send_from w none text 0 cs else out_of_bounds
send_everyone w cs text (some i) tm = elim (get_elem? cs i) [
  | none ↦ out_of_bounds
  | some c ↦
      if ltb (length (chat_line tm c.name text)) max_message_size
      then send_from w (some i) (chat_line tm c.name text) 0 cs
      else out_of_bounds
]

-- "server:  %s left\n\n"
abbrev pub left_info : Text → Text
left_info name =
    (115 ∷ 101 ∷ 114 ∷ 118 ∷ 101 ∷ 114 ∷ 58 ∷ 32 ∷ 32 ∷ [])
    ++ name
    ++ (32 ∷ 108 ∷ 101 ∷ 102 ∷ 116 ∷ 10 ∷ 10 ∷ [])

-- "server:  %s joined the chat\n\n"
abbrev pub joined_info : Text → Text
joined_info name =
    (115 ∷ 101 ∷ 114 ∷ 118 ∷ 101 ∷ 114 ∷ 58 ∷ 32 ∷ 32 ∷ [])
    ++ name
    ++ (32 ∷ 106 ∷ 111 ∷ 105 ∷ 110 ∷ 101 ∷ 100 ∷ 32 ∷ 116 ∷ 104 ∷ 101 ∷ 32 ∷ 99 ∷ 104 ∷ 97 ∷ 116
        ∷ 10 ∷ 10 ∷ [])

-- `strlen("server:   left\n\n") + strlen(clients[i].name + 1)`, the size of `info`. Behind
-- an empty name stand the zeros of the static array, which an entry keeps, being written once.
abbrev pub left_room : Text → ℕ
left_room name = 16 + (length name - 1)

-- What `time` and `msgrcv` give for one client: EAGAIN or ENOMSG is `nothing`, EINVAL is `gone`.
pub data Poll : Type 0 where
  failed : Poll
  nothing : Poll
  gone : Poll
  got : (tm text : Text) → Poll

abbrev pub same_text : Text → Text → Bool
same_text [] [] = true
same_text [] (y ∷ ys) = false
same_text (x ∷ xs) [] = false
same_text (x ∷ xs) (y ∷ ys) = (x == y) && same_text xs ys

-- END_CHAT, "quit"
abbrev pub end_chat : Text
end_chat = 113 ∷ 117 ∷ 105 ∷ 116 ∷ []

-- The branches of the main loop for the client `c` at `i`.
pub received : World → List Client → ℕ → Client → Poll → Outcome (List Client × List Sent)
unfolding send_everyone
received w cs i c failed = exits
received w cs i c nothing = ok (cs, [])
received w cs i c gone =
    let cs' = set cs i (record c { present = false }) in
    if leb (length (left_info c.name) + 1) (left_room c.name)
    then (do sent ← send_everyone w cs' (left_info c.name) none []; ok (cs', sent))
    else out_of_bounds
received w cs i c (got tm text) =
    if same_text text end_chat
    then ok (cs, [])
    else do sent ← send_everyone w cs text (some i) tm; ok (cs, sent)

pub read_client : World → (ℕ → Poll) → ℕ → List Client → Outcome (List Client × List Sent)
unfolding received
read_client w inbox i cs = elim (get_elem? cs i) [
  | none ↦ out_of_bounds
  | some c ↦ if c.present then received w cs i c (inbox i) else ok (cs, [])
]

-- The loop over the clients, with the rounds that are left.
pub read_all : World → (ℕ → Poll) → ℕ → ℕ → List Client → Outcome (List Client × List Sent)
unfolding read_client
read_all w inbox zero i cs = ok (cs, [])
read_all w inbox (suc n) i cs = do
  (cs', sent) ← read_client w inbox i cs
  (cs'', more) ← read_all w inbox n (suc i) cs'
  ok (cs'', sent ++ more)

-- What `msgrcv` gives on the queue of the server: E2BIG is `too_long`.
pub data Registration : Type 0 where
  nobody : Registration
  too_long : Registration
  broken : Registration
  joins : (mtype : ℕ) → Text → Registration

pub register : World → List Client → Registration → Outcome (List Client × List Sent)
unfolding add_client send_everyone
register w cs nobody = ok (cs, [])
register w cs too_long = ok (cs, [])
register w cs broken = exits
register w cs (joins mtype text) = do
  cs' ← add_client w cs mtype text
  sent ← send_everyone w cs' (joined_info text) none []
  ok (cs', sent)

-- One round of the main loop.
pub round : World → Registration → (ℕ → Poll) → List Client → Outcome (List Client × List Sent)
unfolding register read_all
round w reg inbox cs = do
  (cs', sent) ← register w cs reg
  (cs'', more) ← read_all w inbox (length cs') 0 cs'
  ok (cs'', sent ++ more)
