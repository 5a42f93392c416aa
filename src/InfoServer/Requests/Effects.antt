-- ===== src/InfoServer/Requests/Effects.antt =====
-- What the requests of lab10/zad1/server.c do to the table, and what is sent back.
use operating_systems_agh_la.Base.{
  ℕ, zero, suc, ◌<◌, ◌≤◌, ◌≡◌, refl, ◌≢◌, true, Option, none, some, List, [], ◌∷◌, ◌++◌, map,
  length,
}
use operating_systems_agh_la.Base.Int.{ℤ}
use operating_systems_agh_la.InfoServer.Table.{
  Name, client_name_length, Client, Clients, Outcome, ok, out_of_bounds, ◌>>=◌, is_used, Sender,
}
use operating_systems_agh_la.InfoServer.Clients.{
  Contact, contact_of, registered, Compact, Holds, holds, contains, erase, add_client-registered,
  delete_client-registered,
}
use operating_systems_agh_la.InfoServer.Requests.{
  Action, add_request, list_request, info_request, unregister_request, other, Request, ClientInfo,
  names, ask_info, info, Datagram, Poll, again, failed, got, World, max_trials, to_sender,
  to_client, send, wait_info, answer, client_at, forward_info, handle, send_clients_list, serve,
}

-- The first answer among the first `n` polls.
abbrev pub first_answer : ℕ → List Poll → Option ClientInfo
first_answer zero ps = none
first_answer (suc n) [] = none
first_answer (suc n) (got i ∷ ps) = some i
first_answer (suc n) (p ∷ ps) = first_answer n ps

abbrev pub NoError : List Poll → Type 0
NoError [] = Unit
NoError (p ∷ ps) = (p ≢ failed) × NoError ps

wait_info-first_answer :
    (n : ℕ) (ps : List Poll) → NoError ps → wait_info n ps ≡ ok (first_answer n ps)
unfolding wait_info
wait_info-first_answer zero ps none_failed = refl
wait_info-first_answer (suc n) [] none_failed = refl
wait_info-first_answer (suc n) (again ∷ ps) none_failed = wait_info-first_answer n ps none_failed.1
wait_info-first_answer (suc n) (failed ∷ ps) none_failed = absurd (none_failed.0 refl)
wait_info-first_answer (suc n) (got i ∷ ps) none_failed = refl

-- A request that asks for the data of a client ends within 2000 polls. The client is asked first,
-- and the one who asked gets the first answer that came, or the flag 0 when none came.
pub forward_info-reply :
    (w : World) (cs : Clients) (index : ℤ) (s : Sender) (c : Client)
    → client_at cs index ≡ some c
    → ((d : Datagram) → w.accepts d ≡ true)
    → NoError w.polls
    → forward_info w cs index s
      ≡ ok (
        cs,
        to_client c ask_info ∷ to_sender s (info (answer (first_answer max_trials w.polls))) ∷ [],
      )
unfolding forward_info send
forward_info-reply w cs index s c at accepted none_failed = rw (
  at,
  forward_info,
  accepted (to_client c ask_info),
  wait_info-first_answer max_trials w.polls none_failed,
  accepted (to_sender s (info (answer (first_answer max_trials w.polls)))),
)

-- A `client_no` that is no index of the table is used all the same.
pub serve-out_of_bounds :
    (w : World) (cs : Clients) (r : Request) (s : Sender)
    → r.action ≡ info_request
    → client_at cs r.client_no ≡ none
    → serve w cs r s ≡ out_of_bounds
unfolding serve handle forward_info
serve-out_of_bounds w cs r s is_info outside = rw is_info (rw (outside, handle, forward_info))

-- What a request leaves and sends. A registration puts the client behind the others, with its
-- address, and it gets the names of all entries; an unregistration drops the first entry with the
-- name, and the others keep their addresses; the list
-- of names goes to the one who asks for it; what is not recognised changes nothing.
abbrev pub Served : Clients → Action → Name → Sender → Outcome (Clients × List Datagram) → Type 0
Served cs add_request name s r =
    (cs' : Clients) × (r ≡ ok (cs', to_sender s (names (map (λ c. c.name) cs')) ∷ []))
    × Compact cs'
    × (registered cs' ≡ registered cs ++ contact_of name s ∷ [])
Served cs unregister_request name s r =
    (cs' : Clients) × (r ≡ ok (cs', []))
    × Compact cs'
    × (registered cs' ≡ erase name (registered cs))
Served cs list_request name s r = r ≡ ok (cs, to_sender s (names (map (λ c. c.name) cs)) ∷ [])
Served cs info_request name s r = Unit
Served cs other name s r = r ≡ ok (cs, [])

-- What a request asks of the table.
abbrev pub IsServable : Clients → Action → Name → Sender → Type 0
IsServable cs add_request name s =
    (is_used name ≡ true)
    × (length name < client_name_length)
    × (length (registered cs) < length cs)
    × (s.size ≤ length s.address)
IsServable cs unregister_request name s =
    (is_used name ≡ true) × (contains name (registered cs) ≡ true)
IsServable cs _ name s = Unit

reply_to_add :
    (w : World) (s : Sender) {n : ℕ} {ns : List Contact} {o : Outcome Clients}
    → ((d : Datagram) → w.accepts d ≡ true)
    → Holds n ns o
    → (cs' : Clients) × ((o >>= λ cs. send_clients_list w cs s)
        ≡ ok (cs', to_sender s (names (map (λ c. c.name) cs')) ∷ []))
      × Compact cs'
      × (registered cs' ≡ ns)
unfolding send_clients_list
reply_to_add w s accepted (holds {cs} size is same) =
    (cs, rw (accepted (to_sender s (names (map (λ c. c.name) cs)))), is, same)

after_delete :
    {n : ℕ} {ns : List Contact} {o : Outcome Clients}
    → Holds n ns o
    → (cs' : Clients) × (◌>>=◌ {B = Clients × List Datagram} o (λ cs. ok (cs, [])) ≡ ok (cs', []))
      × Compact cs'
      × (registered cs' ≡ ns)
after_delete (holds {cs} size is same) = (cs, refl, is, same)

-- A request to register on a table with room, or to unregister a registered name, a request for
-- the list and one that is not recognised are served as `Served` says, when `sendto` works, and for
-- a name to register that is shorter than `client_name_length` and comes with its whole address.
pub serve-Served :
    (w : World) (cs : Clients) (a : Action) (name : Name) (index : ℤ) (s : Sender)
    → ((d : Datagram) → w.accepts d ≡ true)
    → Compact cs
    → IsServable cs a name s
    → Served cs a name s (serve w cs (record { name = name; client_no = index; action = a }) s)
unfolding serve handle send_clients_list
serve-Served w cs add_request name index s accepted is ready =
    reply_to_add w s accepted (add_client-registered name s ready.3 cs is ready.0 ready.1 ready.2)
serve-Served w cs unregister_request name index s accepted is ready =
    after_delete (delete_client-registered name ready.0 cs is ready.1)
serve-Served w cs list_request name index s accepted is ready =
    rw (accepted (to_sender s (names (map (λ c. c.name) cs))))
serve-Served w cs info_request name index s accepted is ready = tt
serve-Served w cs other name index s accepted is ready = refl
