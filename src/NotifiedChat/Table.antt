-- ===== src/NotifiedChat/Table.antt =====
-- The clients of lab07/zad1b/server.c through any sequence of runs of its handlers.
use operating_systems_agh_la.Base.{
  ℕ, zero, suc, ◌+◌, ◌≤◌, ◌≡◌, refl, sym, ap, ◌∙◌, Bool, true, false, Option, none, some, List, [],
  ◌∷◌, ◌++◌, length, length-append, length-set, get_elem?, set, arith, leb, subst, if◌then◌else◌,
}
use mathlib.Core.Option.{some-injective}
use operating_systems_agh_la.NotifiedChat.{
  Text, Client, Call, send, World, Delivery, delivered, bad_descriptor, failed, Outcome, ok, exits,
  out_of_bounds, ◌>>=◌, required, notify_client, add_user_handler, send_others, sprintf_message,
  left_message, chat_message, same_text, quit, from_client, by_priority, receive_msg_handler,
  max_clients, client_q_name,
}

-- A run of a handler, with what the calls give during it.
pub data Event : Type 0 where
  user : World → Event
  message : World → (client_no : ℕ) → Event

abbrev pub handle : Event → List Client → Outcome (List Client × List Call)
handle (user w) cs = add_user_handler w cs
handle (message w client_no) cs = receive_msg_handler w client_no cs

-- The clients that the server can come to.
pub data Reach : List Client → Type 0 where
  start : Reach []
  step :
      (e : Event) (cs cs' : List Client) (calls : List Call)
      → Reach cs
      → handle e cs ≡ ok (cs', calls)
      → Reach cs'

-- Every client's value is its place in the table, from `i` on.
abbrev pub Numbered : ℕ → List Client → Type 0
Numbered i [] = Unit
Numbered i (c ∷ cs) = (c.value ≡ i) × Numbered (suc i) cs

abbrev pub IsTable : List Client → Type 0
IsTable cs = Numbered 0 cs × (length cs ≤ max_clients)

-- If the handler ends, what it leaves satisfies `P`.
abbrev pub Leaves : {A : Type 0} → (A → Type 0) → Outcome A → Type 0
Leaves P (ok x) = P x
Leaves P exits = Unit
Leaves P out_of_bounds = Unit

pub Leaves-bind :
    {A B : Type 0} (P : A → Type 0) (Q : B → Type 0) (o : Outcome A) (f : A → Outcome B)
    → Leaves P o
    → ((x : A) → P x → Leaves Q (f x))
    → Leaves Q (o >>= f)
Leaves-bind P Q (ok x) f l rest = rest x l
Leaves-bind P Q exits f l rest = tt
Leaves-bind P Q out_of_bounds f l rest = tt

-- whatever comes first
Leaves-then :
    {A B : Type 0} (Q : B → Type 0) (o : Outcome A) (f : A → Outcome B)
    → ((x : A) → Leaves Q (f x))
    → Leaves Q (o >>= f)
Leaves-then Q (ok x) f rest = rest x
Leaves-then Q exits f rest = tt
Leaves-then Q out_of_bounds f rest = tt

Leaves-if :
    {A : Type 0} (P : A → Type 0) (b : Bool) (x y : Outcome A)
    → (b ≡ true → Leaves P x)
    → (b ≡ false → Leaves P y)
    → Leaves P (if b then x else y)
Leaves-if P true x y f g = f refl
Leaves-if P false x y f g = g refl

Leaves-option :
    {A B : Type 0} (P : B → Type 0) (o : Option A) (f : A → Outcome B)
    → ((a : A) → o ≡ some a → Leaves P (f a))
    → Leaves P (elim o [ none ↦ out_of_bounds | some a ↦ f a ])
Leaves-option P none f g = tt
Leaves-option P (some a) f g = g a refl

Leaves-ok : {A : Type 0} (P : A → Type 0) (o : Outcome A) (x : A) → Leaves P o → o ≡ ok x → P x
Leaves-ok P o x l e = subst (Leaves P) e l

Numbered-append :
    (i : ℕ) (cs : List Client) (c : Client)
    → Numbered i cs
    → c.value ≡ i + length cs
    → Numbered i (cs ++ (c ∷ []))
Numbered-append i [] c n e = (omega arith, tt)
Numbered-append i (x ∷ xs) c n e = (n.0, Numbered-append (suc i) xs c n.1 (omega arith))

Numbered-set :
    (i k : ℕ) (cs : List Client) (c c' : Client)
    → Numbered i cs
    → get_elem? cs k ≡ some c
    → c'.value ≡ c.value
    → Numbered i (set cs k c')
Numbered-set i k [] c c' n e same = tt
Numbered-set i zero (x ∷ xs) c c' n e same =
    let this : x ≡ c = some-injective x c e in (same ∙ ap (λ v. v.value) (sym this) ∙ n.0, n.1)
Numbered-set i (suc k) (x ∷ xs) c c' n e same = (n.0, Numbered-set (suc i) k xs c c' n.1 e same)

abbrev IsTableAfter : List Client × List Call → Type 0
IsTableAfter (cs, calls) = IsTable cs

add_user_handler-IsTable :
    (w : World) (cs : List Client) → IsTable cs → Leaves IsTableAfter (add_user_handler w cs)
unfolding add_user_handler
add_user_handler-IsTable w cs is =
    Leaves-if IsTableAfter (leb max_clients (length cs)) _ _ (λ full. is)
      (λ room. Leaves-then IsTableAfter (required w.server_message) _ λ name.
        Leaves-then IsTableAfter (notify_client w (w.opens (client_q_name name)) (length cs)) _
          λ notified.
            let c : Client = record {
              queue = w.opens (client_q_name name);
              name = name;
              value = length cs;
            } in
            Leaves-if IsTableAfter w.notifies_server _ _
              (λ again. (
                Numbered-append 0 cs c is.0 (omega arith),
                ground (arith, length-append cs (c ∷ [])),
              ))
              (λ never. tt))

from_client-IsTable :
    (w : World) (client_no size : ℕ) (cs : List Client) (c : Client) (queue : ℕ) (text : Text)
    → IsTable cs
    → get_elem? cs client_no ≡ some c
    → Leaves IsTableAfter (from_client w client_no size cs c queue text)
unfolding from_client
from_client-IsTable w client_no size cs c queue text is e =
    Leaves-then IsTableAfter (required w.ctime) _ λ tm.
      Leaves-if IsTableAfter (same_text text quit) _ _
        (λ leaves.
          Leaves-then IsTableAfter (sprintf_message size (left_message c.name)) _ λ message.
            let cs' = set cs client_no (record c { queue = none }) in
            Leaves-then IsTableAfter (send_others w client_no message 0 cs') _ λ sent. (
              Numbered-set 0 client_no cs c (record c { queue = none }) is.0 e refl,
              omega (arith, is.1, length-set cs client_no (record c { queue = none })),
            ))
        (λ stays.
          Leaves-then IsTableAfter (sprintf_message size (chat_message tm c.name text)) _ λ message.
            Leaves-then IsTableAfter (send_others w client_no message 0 cs) _
              λ sent. Leaves-then IsTableAfter (notify_client w c.queue c.value) _ λ notified. is)

by_priority-IsTable :
    (w : World) (client_no size : ℕ) (cs : List Client) (c : Client) (queue : ℕ) (text : Text)
    (prio : ℕ)
    → IsTable cs
    → get_elem? cs client_no ≡ some c
    → Leaves IsTableAfter (by_priority w client_no size cs c queue text prio)
unfolding by_priority
by_priority-IsTable w client_no size cs c queue text zero is e = go (w.sends queue text)
  where
    go :
        (d : Delivery)
        → Leaves IsTableAfter (elim d [
          | delivered ↦ (do
            notified ← notify_client w c.queue c.value
            ok (cs, send queue text ∷ notified))
          | _ ↦ exits
        ])
    go delivered = Leaves-then IsTableAfter (notify_client w c.queue c.value) _ λ notified. is
    go bad_descriptor = tt
    go failed = tt
by_priority-IsTable w client_no size cs c queue text (suc prio) is e =
    from_client-IsTable w client_no size cs c queue text is e

receive_msg_handler-IsTable :
    (w : World) (client_no : ℕ) (cs : List Client)
    → IsTable cs
    → Leaves IsTableAfter (receive_msg_handler w client_no cs)
unfolding receive_msg_handler
receive_msg_handler-IsTable w client_no cs is =
    Leaves-option IsTableAfter (get_elem? cs client_no) _ λ c e.
      Leaves-then IsTableAfter (required c.queue) _ λ queue.
        Leaves-then IsTableAfter (required (w.message_size queue)) _ λ size.
          Leaves-then IsTableAfter (required (w.receives queue)) _
            λ (text, prio). by_priority-IsTable w client_no size cs c queue text prio is e

handle-IsTable : (e : Event) (cs : List Client) → IsTable cs → Leaves IsTableAfter (handle e cs)
handle-IsTable (user w) cs is = add_user_handler-IsTable w cs is
handle-IsTable (message w client_no) cs is = receive_msg_handler-IsTable w client_no cs is

-- In whatever order the handlers run, there are at most `max_clients` clients, and each client's
-- notification comes with its place in the table.
pub Reach-IsTable : (cs : List Client) → Reach cs → IsTable cs
Reach-IsTable _ start = (tt, omega arith)
Reach-IsTable _ (step e cs cs' calls r ends) =
    Leaves-ok IsTableAfter (handle e cs) (cs', calls) (handle-IsTable e cs (Reach-IsTable cs r))
      ends
