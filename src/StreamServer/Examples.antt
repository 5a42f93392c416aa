-- ===== src/StreamServer/Examples.antt =====
-- Requests to lab10/zad2/server.c.
use operating_systems_agh_la.Base.{
  ℕ, ◌-◌, ◌≡◌, refl, true, false, Option, none, some, [], ◌∷◌, ◌==◌, leb, arith, if◌then◌else◌,
}
use operating_systems_agh_la.Base.Int.{pos}
use operating_systems_agh_la.Base.Maps.{update}
use operating_systems_agh_la.StreamServer.{
  Ptr, Node, State, ok, fault, blocks, World, to, names, ask_info, info, Request, unregister,
  list_clients, client_info, handle, by_action, list_sent, info_given, start_thread,
  get_actual_clients_quantity, quantity_from, get_client_number, number_from, send_clients_list,
  names_from, ClientInfo,
}
use operating_systems_agh_la.StreamServer.Links.{Row, IsList}
use operating_systems_agh_la.StreamServer.Requests.{
  unregister-IsList, client_info-asked, client_info-fault,
}

abbrev row : Ptr → ℕ → ℕ → Row
row at letter socket = record { at = at; name = letter ∷ []; socket = socket }

abbrev node : ℕ → ℕ → Ptr → Node
node letter socket next = record { name = letter ∷ []; socket = socket; next = next }

abbrev no_nodes : Ptr → Option Node
no_nodes p = none

abbrev numbers : ℕ → ClientInfo
numbers k = record { name = 99 ∷ []; proc_count = k; load_avg = k; mem_used = k; mem_free = k }

-- Three clients: a at 30, b at 20 and c at 10.
abbrev three : State
three = record {
  nodes =
      update (update (update no_nodes 10 (some (node 99 4 0))) 20 (some (node 98 5 10))) 30
        (some (node 97 6 20));
  head = 30;
  list_locked = false;
  producer_locked = false;
  consumer_locked = true;
  shared_info = numbers 0;
}

three-IsList : IsList three (row 30 97 6 ∷ row 20 98 5 ∷ row 10 99 4 ∷ [])
three-IsList = record {
  from_head = refl;
  linked = (omega arith, refl, (omega arith, refl, (omega arith, refl, tt)));
  distinct = ((omega arith, (omega arith, tt)), ((omega arith, tt), (tt, tt)));
}

abbrev world : World
world = record { accepts = λ m. true; polls = none ∷ some (numbers 7) ∷ [] }

abbrev request : Request
request = record { name = 98 ∷ []; client_no = pos 2; action = client_info; info = numbers 0 }

-- A thread whose client has not given its name yet holds up its own list.
waits_for_itself :
    handle 4 world 20
      (record three { list_locked = true })
      (record request { action = list_clients })
    ≡ blocks
unfolding handle by_action list_sent get_client_number number_from
waits_for_itself = refl

-- Ten clients at 1 to 10, and the state after one more has come.
abbrev ten : State
ten = record three {
  nodes = λ p. if p == 0 then none else if leb p 10 then some (node p p (p - 1)) else none;
  head = 10;
}

eleventh :
    start_thread 11 11 9 [] ten
    ≡ ok (record ten { nodes = update ten.nodes 11 none; head = 11; list_locked = false }, false)
unfolding start_thread get_actual_clients_quantity quantity_from
eleventh = refl

-- The list then starts at a client whose thread has ended.
lost_list :
    get_client_number 12 (record ten { nodes = update ten.nodes 11 none; head = 11 }) 5 ≡ fault
unfolding get_client_number number_from
lost_list = refl

-- An answer that comes when nobody waits unlocks the mutex for the next one who asks.
late_answer :
    info_given 4 world 20 three (numbers 8)
    ≡ ok (
      record three { producer_locked = true; consumer_locked = false; shared_info = numbers 8 },
      ([], true),
    )
unfolding info_given
late_answer = refl

unregister-IsList_example :
    (s' : State) × ((handle 4 world 20 three (record request { action = unregister })
        ≡ ok (s', ([], false)))
      × IsList s' (row 30 97 6 ∷ row 10 99 4 ∷ [])
      × (s'.nodes 20 ≡ none))
unregister-IsList_example =
    unregister-IsList 4 world three (row 30 97 6 ∷ []) (row 20 98 5) (row 10 99 4 ∷ []) three-IsList
      (omega arith) refl (record request { action = unregister }) refl

names_listed :
    list_sent 4 world 20 three
    ≡ ok (three, (to 5 (names ((97 ∷ []) ∷ (98 ∷ []) ∷ (99 ∷ []) ∷ [])) ∷ [], true))
unfolding list_sent send_clients_list names_from
names_listed = refl

client_info-asked_example :
    handle 4 world 20 three request
    ≡ ok (
      record three { shared_info = numbers 7 },
      (
        to 4 ask_info
            ∷ to 5
                (info (some (record { proc_count = 7; load_avg = 7; mem_used = 7; mem_free = 7 })))
            ∷ [],
        true,
      ),
    )
client_info-asked_example =
    client_info-asked 4 world three (row 30 97 6 ∷ []) (row 20 98 5) (row 10 99 4 ∷ []) three-IsList
      (omega arith) refl (λ m. refl) request 2 (row 10 99 4) [] refl refl refl

client_info-fault_example : handle 4 world 20 three (record request { client_no = pos 3 }) ≡ fault
client_info-fault_example =
    client_info-fault 4 world three (row 30 97 6 ∷ []) (row 20 98 5) (row 10 99 4 ∷ []) three-IsList
      (omega arith) refl (record request { client_no = pos 3 }) 3 refl refl (omega arith)
