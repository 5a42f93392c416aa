-- ===== src/InfoServer/Requests.antt =====
-- One round of the main loop of lab10/zad1/server.c: what a request does and what it sends. A
-- datagram that `sendto` refuses, and an error of `recv` other than "try again", end the process.
use operating_systems_agh_la.Base.{
  ℕ, zero, suc, ◌≡◌, Bool, true, false, Option, none, some, List, [], ◌∷◌, if◌then◌else◌, get_elem?,
}
use operating_systems_agh_la.Base.Int.{ℤ, pos, negsuc}
use operating_systems_agh_la.InfoServer.Table.{
  Name, Bytes, Client, Clients, Outcome, ok, out_of_bounds, exit, ◌>>=◌, Sender, add_client,
  delete_client, copy_clients,
}
pub mod Effects

-- `action_t`; `other` is any number that is no constant of it.
pub data Action : Type 0 where
  add_request : Action
  list_request : Action
  info_request : Action
  unregister_request : Action
  other : Action

pub record Request : Type 0 where
  pub name : Name
  pub client_no : ℤ
  pub action : Action

-- `client_info_t`: the flag `is_info_successfull` and the bytes of the other fields, which are
-- only passed on; `none` where they are uninitialised.
pub record ClientInfo : Type 0 where
  pub is_successful : Bool
  pub body : Option Bytes

pub data Payload : Type 0 where
  names : List Name → Payload
  ask_info : Payload
  info : ClientInfo → Payload

pub record Datagram : Type 0 where
  pub local : Bool
  pub address : Bytes
  pub size : ℕ
  pub payload : Payload

-- What one `recv` with MSG_DONTWAIT returns.
pub data Poll : Type 0 where
  again : Poll
  failed : Poll
  got : ClientInfo → Poll

-- The world outside: which datagrams `sendto` accepts, and what the polls for an answer return,
-- nothing where the list ends.
pub record World : Type 0 where
  pub accepts : Datagram → Bool
  pub polls : List Poll

-- the bound of `trials_conuter`
abbrev pub max_trials : ℕ
max_trials = 2000

abbrev pub to_sender : Sender → Payload → Datagram
to_sender s p = record { local = s.local; address = s.address; size = s.size; payload = p }

abbrev pub to_client : Client → Payload → Datagram
to_client c p = record {
  local = c.is_local;
  address = if c.is_local then c.unix_address else c.inet_address;
  size = c.address_size;
  payload = p;
}

unfoldable pub send : World → Datagram → Outcome Datagram
send w d = if w.accepts d then ok d else exit

-- The loop that waits for the answer of the other client, with the trials left.
unfoldable pub wait_info : ℕ → List Poll → Outcome (Option ClientInfo)
wait_info zero ps = ok none
wait_info (suc n) [] = ok none
wait_info (suc n) (again ∷ ps) = wait_info n ps
wait_info (suc n) (failed ∷ ps) = exit
wait_info (suc n) (got i ∷ ps) = ok (some i)

-- Without an answer only the flag of `info` is set.
abbrev pub answer : Option ClientInfo → ClientInfo
answer none = record { is_successful = false; body = none }
answer (some i) = i

-- `clients[client_no]`, which the server does not check
abbrev pub client_at : Clients → ℤ → Option Client
client_at cs (pos n) = get_elem? cs n
client_at cs (negsuc n) = none

-- The branch for CLIENT_INFO.
unfoldable pub forward_info : World → Clients → ℤ → Sender → Outcome (Clients × List Datagram)
unfolding send wait_info
forward_info w cs index s = elim (client_at cs index) [
  | none ↦ out_of_bounds
  | some c ↦ (do
    asked ← send w (to_client c ask_info)
    found ← wait_info max_trials w.polls
    reply ← send w (to_sender s (info (answer found)))
    ok (cs, asked ∷ reply ∷ []))
]

-- `send_clients_list`
unfoldable pub send_clients_list : World → Clients → Sender → Outcome (Clients × List Datagram)
unfolding send copy_clients
send_clients_list w cs s = do
  reply ← send w (to_sender s (names (copy_clients cs)))
  ok (cs, reply ∷ [])

-- The branches of the main loop: the table after a request, and the datagrams sent.
unfoldable pub handle :
    World → Clients → Action → Name → ℤ → Sender → Outcome (Clients × List Datagram)
unfolding send_clients_list forward_info add_client delete_client
handle w cs add_request name index s = do cs' ← add_client cs name s; send_clients_list w cs' s
handle w cs unregister_request name index s = do cs' ← delete_client cs name; ok (cs', [])
handle w cs list_request name index s = send_clients_list w cs s
handle w cs info_request name index s = forward_info w cs index s
handle w cs other name index s = ok (cs, [])

unfoldable pub serve : World → Clients → Request → Sender → Outcome (Clients × List Datagram)
unfolding handle
serve w cs r s = handle w cs r.action r.name r.client_no s
