-- ===== src/StreamServer.antt =====
-- The stream server lab10/zad2/server.c. A thread per client keeps its `client_t` on its stack, in
-- a list that starts at `head_client`. A text is its bytes before the terminating zero.
pub mod Links
pub mod Unlink
pub mod Requests
mod Examples
use operating_systems_agh_la.Base.{
  ℕ, zero, suc, ◌+◌, Bool, true, false, Option, none, some, List, [], ◌∷◌, ◌++◌, length, ◌==◌, ◌||◌,
  ltb, leb, if◌then◌else◌,
}
use operating_systems_agh_la.Base.Int.{ℤ, pos, negsuc}
use operating_systems_agh_la.Base.Maps.{update}

abbrev pub Ptr : Type 0
Ptr = ℕ

abbrev pub null : Ptr
null = 0

abbrev pub Text : Type 0
Text = List ℕ

-- MAX_CLIENTS
abbrev pub max_clients : ℕ
max_clients = 10

-- the bound of `trials_conuter`
abbrev pub max_trials : ℕ
max_trials = 2000

-- `client_t`
pub record Node : Type 0 where
  pub name : Text
  pub socket : ℕ
  pub next : Ptr

-- The fields of `client_info_t` behind the flag, in their order; `load_avg` is the bits of a float.
pub record ClientInfo : Type 0 where
  pub name : Text
  pub proc_count : ℕ
  pub load_avg : ℕ
  pub mem_used : ℕ
  pub mem_free : ℕ

-- The static variables, and the `client_t` of the threads that run. The mutexes are locked or not.
pub record State : Type 0 where
  pub nodes : Ptr → Option Node
  pub head : Ptr
  pub list_locked : Bool
  pub producer_locked : Bool
  pub consumer_locked : Bool
  pub shared_info : ClientInfo

-- `exits`: ERROR_HANDLER; `fault`: a read through NULL or of a thread that has ended; `blocks`: a
-- `lock` of a mutex that is locked, with what has been done before.
pub data Outcome (A : Type 0) : Type 0 where
  ok : A → Outcome A
  exits : Outcome A
  fault : Outcome A
  blocks : Outcome A
  out_of_fuel : Outcome A

infixl 5 ◌>>=◌
abbrev pub ◌>>=◌ : {A B : Type 0} → Outcome A → (A → Outcome B) → Outcome B
ok x >>= f = f x
exits >>= f = exits
fault >>= f = fault
blocks >>= f = blocks
out_of_fuel >>= f = out_of_fuel

-- What a reply says of another client; the name in it is not initialised.
pub record Numbers : Type 0 where
  pub proc_count : ℕ
  pub load_avg : ℕ
  pub mem_used : ℕ
  pub mem_free : ℕ

-- `client_info_t`: without an answer only its flag is set.
pub data Payload : Type 0 where
  names : List Text → Payload
  ask_info : Payload
  info : Option Numbers → Payload

pub record Sent : Type 0 where
  pub socket : ℕ
  pub payload : Payload

abbrev pub to : ℕ → Payload → Sent
to socket payload = record { socket = socket; payload = payload }

-- Which messages `send` accepts, and how the other threads leave the mutex and `shared_info` at
-- the polls for an answer: one entry a poll, with what is shared when it is not locked.
pub record World : Type 0 where
  pub accepts : Sent → Bool
  pub polls : List (Option ClientInfo)

abbrev pub send : World → Sent → Outcome Sent
send w m = if w.accepts m then ok m else exits

-- `*p`
abbrev pub read_node : State → Ptr → Outcome Node
read_node s p = if p == null then fault else elim (s.nodes p) [ none ↦ fault | some c ↦ ok c ]

-- The loop of `get_client_number`; `none` is -1.
pub number_from : ℕ → State → (client tmp : Ptr) → (i : ℕ) → Outcome (Option ℕ)
number_from zero s client tmp i = out_of_fuel
number_from (suc n) s client tmp i =
    if (tmp == client) || (tmp == null)
    then ok (if tmp == null then none else some i)
    else (do c ← read_node s tmp; number_from n s client c.next (suc i))

pub get_client_number : ℕ → State → Ptr → Outcome (Option ℕ)
unfolding number_from
get_client_number n s client = number_from n s client s.head 0

-- The loop of `get_actual_clients_quantity`.
pub quantity_from : ℕ → State → (tmp : Ptr) → (result : ℕ) → Outcome ℕ
quantity_from zero s tmp result = out_of_fuel
quantity_from (suc n) s tmp result =
    if tmp == null
    then ok result
    else (do c ← read_node s tmp; quantity_from n s c.next (suc result))

pub get_actual_clients_quantity : ℕ → State → Outcome ℕ
unfolding quantity_from
get_actual_clients_quantity n s = quantity_from n s s.head 0

-- The loop of `send_clients_list`: the entries of `response.list` that it writes, from `i` on.
pub names_from : ℕ → State → (tmp : Ptr) → (i : ℕ) → Outcome (List Text)
names_from zero s tmp i = out_of_fuel
names_from (suc n) s tmp i =
    if (tmp == null) || leb max_clients i
    then ok []
    else (do c ← read_node s tmp; rest ← names_from n s c.next (suc i); ok (c.name ∷ rest))

pub send_clients_list : ℕ → World → State → (sockfd : ℕ) → Outcome (List Sent)
unfolding names_from
send_clients_list n w s sockfd = do
  list ← names_from n s s.head 0
  sent ← send w (to sockfd (names list))
  ok (sent ∷ [])

-- The start of `thread_run` in the thread whose `client` is at `me`: whether it goes on. A client
-- too many has its thread cancelled, which ends at its first `recv`.
pub start_thread : ℕ → (me : Ptr) → (socket : ℕ) → (stale : Text) → State → Outcome (State × Bool)
unfolding get_actual_clients_quantity
start_thread n me socket stale s = do
  quantity ← get_actual_clients_quantity n s
  if leb max_clients quantity
      then ok (record s { nodes = update s.nodes me none; head = me; list_locked = false }, false)
      else ok (
        record s {
          nodes =
              update s.nodes me (some (record { name = stale; socket = socket; next = s.head }));
          head = me;
        },
        true,
      )

-- The loop that looks for the one before `client`, from `prev` on.
pub previous_from : ℕ → State → (client prev : Ptr) → Outcome Ptr
previous_from zero s client prev = out_of_fuel
previous_from (suc n) s client prev = do
  c ← read_node s prev
  if (c.next == client) || (c.next == null) then ok prev else previous_from n s client c.next

-- What UNREGISTER does to the list.
pub unlink : ℕ → State → (client : Ptr) → Outcome State
unfolding previous_from
unlink n s client = do
  c ← read_node s client
  if s.head == client then ok (record s { head = c.next }) else (do
    prev ← previous_from n s client s.head
    before ← read_node s prev
    if before.next == null
        then ok s
        else ok (record s { nodes = update s.nodes prev (some (record before { next = c.next })) }))

-- The loop of CLIENT_INFO, with the rounds left.
pub nth_client : ℕ → State → (tmp : Ptr) → Outcome Ptr
nth_client zero s tmp = ok tmp
nth_client (suc n) s tmp =
    if tmp == null then ok tmp else (do c ← read_node s tmp; nth_client n s c.next)

abbrev pub rounds_of : ℤ → ℕ
rounds_of (pos n) = n
rounds_of (negsuc n) = 0

-- The loop that polls the mutex, with the trials left.
pub wait_info : ℕ → List (Option ClientInfo) → Option ClientInfo
wait_info zero ps = none
wait_info (suc n) [] = none
wait_info (suc n) (none ∷ ps) = wait_info n ps
wait_info (suc n) (some shared ∷ ps) = some shared

-- `pthread_mutex_lock`
abbrev pub unlocked : Bool → Outcome Unit
unlocked false = ok tt
unlocked true = blocks

-- `action_t`; `other` is any number that is no constant of it.
pub data Action : Type 0 where
  my_name_is list_clients client_info unregister info_response other : Action

pub record Request : Type 0 where
  pub name : Text
  pub client_no : ℤ
  pub action : Action
  pub info : ClientInfo

-- The state after a request, what is sent, and whether the thread goes on.
abbrev pub Handled : Type 0
Handled = State × (List Sent × Bool)

-- A thread that has polled leaves the mutex locked either way; an answer is what is shared then.
abbrev pub polled : State → Option ClientInfo → State
polled s none = record s { producer_locked = false; consumer_locked = true }
polled s (some shared) = record s {
  producer_locked = false;
  consumer_locked = true;
  shared_info = shared;
}

-- The fields of `shared_info` that are copied into the reply.
abbrev pub copied_info : Option ClientInfo → Option Numbers
copied_info none = none
copied_info (some i) = some (record {
  proc_count = i.proc_count;
  load_avg = i.load_avg;
  mem_used = i.mem_used;
  mem_free = i.mem_free;
})

module _ (n : ℕ) (w : World) (me : Ptr) where
  pub name_given : State → Request → Outcome Handled
  unfolding send_clients_list
  name_given s r = do
    c ← read_node s me
    let s1 = record s { nodes = update s.nodes me (some (record c { name = r.name })) }
    sent ← send_clients_list n w s1 c.socket
    ok (record s1 { list_locked = false }, (sent, true))

  -- With the end of the thread its `client` is gone.
  pub unregistered : State → Outcome Handled
  unfolding unlink
  unregistered s = do
    _ ← unlocked s.list_locked
    s1 ← unlink n s me
    ok (record s1 { nodes = update s1.nodes me none }, ([], false))

  pub list_sent : State → Outcome Handled
  unfolding send_clients_list
  list_sent s = do
    c ← read_node s me
    _ ← unlocked s.list_locked
    sent ← send_clients_list n w s c.socket
    ok (s, (sent, true))

  pub info_fetched : State → ℤ → Outcome Handled
  unfolding nth_client wait_info
  info_fetched s client_no = do
    c ← read_node s me
    _ ← unlocked s.list_locked
    tmp ← nth_client (rounds_of client_no) s s.head
    asked ← read_node s tmp
    question ← send w (to asked.socket ask_info)
    let answer = wait_info max_trials w.polls
    reply ← send w (to c.socket (info (copied_info answer)))
    ok (polled s answer, (question ∷ reply ∷ [], true))

  pub info_given : State → ClientInfo → Outcome Handled
  info_given s i = do
    _ ← unlocked s.producer_locked
    ok (record s { producer_locked = true; shared_info = i; consumer_locked = false }, ([], true))

  pub by_action : State → Request → Action → Outcome Handled
  unfolding name_given unregistered list_sent info_fetched info_given
  by_action s r my_name_is = name_given s r
  by_action s r unregister = unregistered s
  by_action s r list_clients = list_sent s
  by_action s r client_info = info_fetched s r.client_no
  by_action s r info_response = info_given s r.info
  by_action s r other = ok (s, ([], true))

  -- One round of the loop of `thread_run`, after `recv`. It prints the number of the client.
  pub handle : State → Request → Outcome Handled
  unfolding by_action get_client_number
  handle s r = do _ ← get_client_number n s me; by_action s r r.action
