-- ===== src/InfoServer/Examples.antt =====
-- The datagram server at work, and its theorems at a concrete table.
use operating_systems_agh_la.Base.{◌≡◌, refl, true, some, [], ◌∷◌, arith}
use operating_systems_agh_la.Base.Int.{pos}
use operating_systems_agh_la.InfoServer.Table.{Name, Client, Clients, ok, Sender, delete_client}
use operating_systems_agh_la.InfoServer.Clients.{contact, Holds, erase, delete_client-registered}
use operating_systems_agh_la.InfoServer.Requests.{
  add_request, ask_info, info, ClientInfo, World, again, got, to_sender, to_client, forward_info,
  serve,
}
use operating_systems_agh_la.InfoServer.Requests.Effects.{Served, forward_info-reply, serve-Served}

abbrev entry : Name → Client
entry n = record {
  name = n;
  is_local = true;
  unix_address = 47 ∷ [];
  inet_address = [];
  address_size = 1;
}

-- two clients, "a" and "b", and a free entry
abbrev table : Clients
table = entry (97 ∷ []) ∷ entry (98 ∷ []) ∷ entry [] ∷ []

abbrev full : Clients
full = entry (97 ∷ []) ∷ entry (98 ∷ []) ∷ []

abbrev sender : Sender
sender = record { local = true; address = 48 ∷ []; size = 1 }

abbrev answered : ClientInfo
answered = record { is_successful = true; body = some (7 ∷ []) }

abbrev world : World
world = record { accepts = λ _. true; polls = again ∷ got answered ∷ [] }

delete_client-registered_example :
    Holds 3 (contact (entry (98 ∷ [])) ∷ []) (delete_client table (97 ∷ []))
unfolding erase
delete_client-registered_example =
    delete_client-registered (97 ∷ []) refl table (omega arith, (omega arith, tt)) refl

forward_info-reply_example :
    forward_info world table (pos 1) sender
    ≡ ok (table, to_client (entry (98 ∷ [])) ask_info ∷ to_sender sender (info answered) ∷ [])
forward_info-reply_example =
    forward_info-reply world table (pos 1) sender (entry (98 ∷ [])) refl (λ d. refl)
      ((λ e. cc), ((λ e. cc), tt))

serve-Served_example :
    Served table add_request (99 ∷ []) sender (
      serve world table (record { name = 99 ∷ []; client_no = pos 0; action = add_request }) sender)
serve-Served_example =
    serve-Served world table add_request (99 ∷ []) (pos 0) sender (λ d. refl)
      (omega arith, (omega arith, tt)) (refl, omega arith, omega arith, omega arith)
