-- ===== src/StreamServer/Requests.antt =====
-- lab10/zad2/server.c: what the requests of a client in the list do.
use operating_systems_agh_la.Base.{
  ℕ, zero, suc, ◌+◌, ◌<◌, ◌≤◌, ◌≡◌, ◌≢◌, refl, sym, ap, subst, ◌∙◌, true, false, Option, none, some,
  List, [], ◌∷◌, ◌++◌, map, take, drop, length, length-append, ◌==◌, arith,
}
use operating_systems_agh_la.Base.Int.{pos}
use operating_systems_agh_la.Base.Maps.{update}
use operating_systems_agh_la.Base.Slices.{drop_past}
use operating_systems_agh_la.StreamServer.{
  Ptr, null, Node, State, Outcome, ok, fault, ◌>>=◌, World, Sent, to, names, ask_info, info, send,
  read_node, get_client_number, number_from, names_from, send_clients_list, unlink, nth_client,
  wait_info, max_trials, max_clients, unlocked, Handled, Action, unregister, list_clients,
  client_info, ClientInfo, Numbers, copied_info, Request, polled, handle, by_action, unregistered,
  list_sent, info_fetched, rounds_of,
}
use operating_systems_agh_la.StreamServer.Links.{
  Row, first, node_of, Linked, Elsewhere, Distinct, IsList, read_node-some, number_from-found,
  names_from-take, nth_client-first,
}
use operating_systems_agh_la.StreamServer.Unlink.{Linked-update, Linked-at, unlink-IsListWithout}

-- The first answer that is shared at one of these polls.
abbrev pub first_shared : List (Option ClientInfo) → Option ClientInfo
first_shared [] = none
first_shared (none ∷ ps) = first_shared ps
first_shared (some i ∷ ps) = some i

-- The numbers of an answer.
abbrev pub told : Option ClientInfo → Option Numbers
told none = none
told (some i) = some (record {
  proc_count = i.proc_count;
  load_avg = i.load_avg;
  mem_used = i.mem_used;
  mem_free = i.mem_free;
})

abbrev pub or_else : Option ClientInfo → ClientInfo → ClientInfo
or_else none old = old
or_else (some i) old = i

wait_info-first_shared :
    (n : ℕ) (ps : List (Option ClientInfo)) → wait_info n ps ≡ first_shared (take n ps)
unfolding wait_info
wait_info-first_shared zero ps = refl
wait_info-first_shared (suc n) [] = refl
wait_info-first_shared (suc n) (none ∷ ps) = wait_info-first_shared n ps
wait_info-first_shared (suc n) (some i ∷ ps) = refl

-- The state and the messages after a question and an answer.
abbrev fetched : State → (from socket : ℕ) → Option ClientInfo → Outcome Handled
fetched s from socket o = ok (
  record s {
    producer_locked = false;
    consumer_locked = true;
    shared_info = or_else o s.shared_info;
  },
  (to from ask_info ∷ to socket (info (told o)) ∷ [], true),
)

fetched_lem :
    (s : State) (from socket : ℕ) (o : Option ClientInfo)
    → ok (polled s o, (to from ask_info ∷ to socket (info (copied_info o)) ∷ [], true))
      ≡ fetched s from socket o
fetched_lem s from socket none = refl
fetched_lem s from socket (some i) = refl

bind-ok : {A B : Type 0} (o : Outcome A) (x : A) (f : A → Outcome B) → o ≡ ok x → (o >>= f) ≡ f x
bind-ok o x f e = ap (λ o'. o' >>= f) e

Linked-drop :
    (nodes : Ptr → Option Node) (i : ℕ) (rows : List Row)
    → Linked nodes rows
    → Linked nodes (drop i rows)
Linked-drop nodes zero rows l = l
Linked-drop nodes (suc i) [] l = tt
Linked-drop nodes (suc i) (r ∷ rs) l = Linked-drop nodes i rs l.2

module _ (n : ℕ) (w : World) (s : State) (front : List Row) (me : Row) (back : List Row)
    (is : IsList s (front ++ (me ∷ back))) (fuel : length (front ++ (me ∷ back)) < n) where
  abbrev rows : List Row
  rows = front ++ (me ∷ back)

  number_lem : get_client_number n s me.at ≡ ok (some (0 + length front))
  unfolding get_client_number
  number_lem =
      ap (λ p. number_from n s me.at p 0) is.from_head
      ∙ number_from-found s n 0 front me back (omega (arith, length-append front (me ∷ back)))
          is.linked (away front is.distinct)
    where
      away : (front : List Row) → Distinct (front ++ (me ∷ back)) → Elsewhere me.at front
      away [] d = tt
      away (r ∷ rs) d = (apart rs d.0, away rs d.1)
        where
          apart : (rs : List Row) → Elsewhere r.at (rs ++ (me ∷ back)) → r.at ≢ me.at
          apart [] e = λ same. e.0 (sym same)
          apart (x ∷ xs) e = apart xs e.1

  me_read : read_node s me.at ≡ ok (node_of me (first back))
  me_read =
      let at = Linked-at s.nodes front me back is.linked in
      read_node-some s me.at (node_of me (first back)) at.0 at.1

  -- The request behind the number that is printed.
  handle-by_action :
      (r : Request) (a : Action) → r.action ≡ a → handle n w me.at s r ≡ by_action n w me.at s r a
  unfolding handle
  handle-by_action r a e = rw number_lem (ap (by_action n w me.at s r) e)

  module _ (free : s.list_locked ≡ false) where
    -- UNREGISTER takes the client out of the list, sends nothing, and the thread ends.
    pub unregister-IsList :
        (r : Request)
        → r.action ≡ unregister
        → (s' : State) × ((handle n w me.at s r ≡ ok (s', ([], false)))
            × IsList s' (front ++ back)
            × (s'.nodes me.at ≡ none))
    unfolding by_action unregistered
    unregister-IsList r e =
        let (s1, done, (is1, away, _)) =
          unlink-IsListWithout n s front me back (omega (arith, length-append front (me ∷ back)))
            is in
        let gone = record s1 { nodes = update s1.nodes me.at none } in
        let this : (me.at == me.at) ≡ true = ground arith in
        (
          gone,
          (
            handle-by_action r unregister e
                ∙ bind-ok (unlocked s.list_locked) tt _ (ap unlocked free)
                ∙ bind-ok (unlink n s me.at) s1 _ done,
            record {
              from_head = is1.from_head;
              linked = Linked-update s1.nodes me.at none (front ++ back) away is1.linked;
              distinct = is1.distinct;
            },
            rw (this, update) refl,
          ),
        )

    module _ (accepts : (m : Sent) → w.accepts m ≡ true) where
      sent : (m : Sent) → send w m ≡ ok m
      sent m = rw (accepts m, send) refl

      -- LIST_CLIENTS sends the names of the first clients of the list, and changes nothing.
      pub list_clients-take :
          (r : Request)
          → r.action ≡ list_clients
          → handle n w me.at s r
            ≡ ok (s, (to me.socket (names (map (λ c. c.name) (take max_clients rows))) ∷ [], true))
      unfolding by_action list_sent send_clients_list
      list_clients-take r e =
          let listed =
            ap (λ p. names_from n s p 0) is.from_head
            ∙ names_from-take s n 0 rows fuel (omega arith) is.linked in
          let list = map (λ c. c.name) (take max_clients rows) in
          handle-by_action r list_clients e
          ∙ bind-ok (read_node s me.at) (node_of me (first back)) _ me_read
          ∙ bind-ok (unlocked s.list_locked) tt _ (ap unlocked free)
          ∙ bind-ok (send_clients_list n w s me.socket) (to me.socket (names list) ∷ []) _ (
              bind-ok (names_from n s s.head 0) list _ listed
              ∙ bind-ok (send w (to me.socket (names list))) (to me.socket (names list)) _
                  (sent (to me.socket (names list))))

      -- CLIENT_INFO asks the client at that place of the list, and sends the numbers of the first
      -- answer that is shared within the trials, if there is one; `shared_info` is that answer.
      pub client_info-asked :
          (r : Request) (i : ℕ) (asked : Row) (later : List Row)
          → r.action ≡ client_info
          → r.client_no ≡ pos i
          → drop i rows ≡ asked ∷ later
          → handle n w me.at s r
            ≡ ok (
              record s {
                producer_locked = false;
                consumer_locked = true;
                shared_info = or_else (first_shared (take max_trials w.polls)) s.shared_info;
              },
              (
                to asked.socket ask_info
                    ∷ to me.socket (info (told (first_shared (take max_trials w.polls))))
                    ∷ [],
                true,
              ),
            )
      unfolding by_action info_fetched
      client_info-asked r i asked later e e' there =
          let found =
            ap (λ c. nth_client (rounds_of c) s s.head) e'
            ∙ ap (nth_client i s) is.from_head
            ∙ nth_client-first s i rows is.linked
            ∙ ap (λ rs. ok (first rs)) there in
          let l = subst (Linked s.nodes) there (Linked-drop s.nodes i rows is.linked) in
          let answer = wait_info max_trials w.polls in
          handle-by_action r client_info e
          ∙ bind-ok (read_node s me.at) (node_of me (first back)) _ me_read
          ∙ bind-ok (unlocked s.list_locked) tt _ (ap unlocked free)
          ∙ bind-ok (nth_client (rounds_of r.client_no) s s.head) asked.at _ found
          ∙ bind-ok (read_node s asked.at) (node_of asked (first later)) _
              (read_node-some s asked.at (node_of asked (first later)) l.0 l.1)
          ∙ bind-ok (send w (to asked.socket ask_info)) (to asked.socket ask_info) _
              (sent (to asked.socket ask_info))
          ∙ bind-ok (send w (to me.socket (info (copied_info answer))))
              (to me.socket (info (copied_info answer))) _
              (sent (to me.socket (info (copied_info answer))))
          ∙ fetched_lem s asked.socket me.socket answer
          ∙ ap (fetched s asked.socket me.socket) (wait_info-first_shared max_trials w.polls)

    -- CLIENT_INFO for a place behind the list reads through NULL.
    pub client_info-fault :
        (r : Request) (i : ℕ)
        → r.action ≡ client_info
        → r.client_no ≡ pos i
        → length rows ≤ i
        → handle n w me.at s r ≡ fault
    unfolding by_action info_fetched
    client_info-fault r i e e' behind =
        let found =
          ap (λ c. nth_client (rounds_of c) s s.head) e'
          ∙ ap (nth_client i s) is.from_head
          ∙ nth_client-first s i rows is.linked
          ∙ ap (λ rs. ok (first rs)) (drop_past i rows behind) in
        handle-by_action r client_info e
        ∙ bind-ok (read_node s me.at) (node_of me (first back)) _ me_read
        ∙ bind-ok (unlocked s.list_locked) tt _ (ap unlocked free)
        ∙ bind-ok (nth_client (rounds_of r.client_no) s s.head) null _ found
