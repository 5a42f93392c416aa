-- ===== src/Chat/Present.antt =====
-- Who is in the chat of lab07/zad1a/server.c.
use operating_systems_agh_la.Base.{
  ℕ, zero, suc, ◌+◌, ◌<◌, ◌≤◌, ◌≡◌, refl, sym, ap, ◌∙◌, ◌≢◌, inl, inr, Bool, true, false, Option,
  none, some, List, [], ◌∷◌, ◌++◌, length, length-append, get_elem?, arith, leb, ltb, Bool-cases,
  ◌&&◌, ◌==◌, subst, if◌then◌else◌,
}
use mathlib.Core.Option.{some-injective}
use operating_systems_agh_la.Base.Slices.{append_nil}
use operating_systems_agh_la.Chat.{
  Text, Client, Sent, Outcome, ok, exits, out_of_bounds, ◌>>=◌, World, Poll, failed, nothing, gone,
  got, received, read_client, read_all, left_info, left_room, Registration, nobody, too_long,
  broken, joins, add_client, register, round, send_everyone, max_clients_num,
  max_clients_name_length, joined_info, same_text, end_chat,
}

-- If the code ends, what it leaves satisfies `P`.
abbrev pub Leaves : {A : Type 0} → (A → Type 0) → Outcome A → Type 0
Leaves P (ok x) = P x
Leaves P exits = Unit
Leaves P out_of_bounds = Unit

pub Leaves-bind :
    {A B : Type 0} (P : A → Type 0) (Q : B → Type 0) (o : Outcome A) (f : A → Outcome B)
    → Leaves P o
    → ((x : A) → P x → Leaves Q (f x))
    → Leaves Q (o >>= f)
Leaves-bind P Q (ok x) f l rest = rest x l
Leaves-bind P Q exits f l rest = tt
Leaves-bind P Q out_of_bounds f l rest = tt

Leaves-if :
    {A : Type 0} (P : A → Type 0) (b : Bool) (x y : Outcome A)
    → (b ≡ true → Leaves P x)
    → (b ≡ false → Leaves P y)
    → Leaves P (if b then x else y)
Leaves-if P true x y f g = f refl
Leaves-if P false x y f g = g refl

Leaves-option :
    {A B : Type 0} (P : B → Type 0) (o : Option A) (x : Outcome B) (f : A → Outcome B)
    → Leaves P x
    → ((a : A) → o ≡ some a → Leaves P (f a))
    → Leaves P (elim o [ none ↦ x | some a ↦ f a ])
Leaves-option P none x f l g = l
Leaves-option P (some a) x f l g = g a refl

anything : {A : Type 0} (o : Outcome A) → Leaves (λ _. Unit) o
anything (ok x) = tt
anything exits = tt
anything out_of_bounds = tt

left_info-long : (name : Text) → leb (length (left_info name) + 1) (left_room name) ≡ false
left_info-long name = ground (arith, length-append name (32 ∷ 108 ∷ 101 ∷ 102 ∷ 116 ∷ 10 ∷ 10 ∷ []))

-- The clients stay, and the poll was not one of a queue that is gone.
abbrev Stays : List Client → Poll → List Client × List Sent → Type 0
Stays cs p (cs', sent) = (cs' ≡ cs) × (p ≢ gone)

received-Stays :
    (w : World) (cs : List Client) (i : ℕ) (c : Client) (p : Poll)
    → Leaves (Stays cs p) (received w cs i c p)
unfolding received
received-Stays w cs i c failed = tt
received-Stays w cs i c nothing = (refl, λ e. cc)
received-Stays w cs i c gone = rw (left_info-long c.name) tt
received-Stays w cs i c (got tm text) = elim (Bool-cases (same_text text end_chat)) [
  | inl quit ↦ rw quit (refl, λ e. cc)
  | inr chat ↦ rw chat (
      Leaves-bind (λ _. Unit) (Stays cs (got tm text)) (send_everyone w cs text (some i) tm)
        (λ sent. ok (cs, sent)) (anything (send_everyone w cs text (some i) tm))
        λ sent _. (refl, λ e. cc))
]

abbrev pub AllPresent : List Client → Type 0
AllPresent [] = Unit
AllPresent (c ∷ cs) = (c.present ≡ true) × AllPresent cs

pub AllPresent-get :
    (cs : List Client) (i : ℕ) (c : Client)
    → AllPresent cs
    → get_elem? cs i ≡ some c
    → c.present ≡ true
AllPresent-get [] i c a e = cc
AllPresent-get (x ∷ xs) zero c a e = ap (λ v. v.present) (sym (some-injective x c e)) ∙ a.0
AllPresent-get (x ∷ xs) (suc i) c a e = AllPresent-get xs i c a.1 e

AllPresent-append :
    (cs : List Client) (c : Client) → AllPresent cs → c.present ≡ true → AllPresent (cs ++ (c ∷ []))
AllPresent-append [] c a e = (e, tt)
AllPresent-append (x ∷ xs) c a e = (a.0, AllPresent-append xs c a.1 e)

read_client-Stays :
    (w : World) (inbox : ℕ → Poll) (i : ℕ) (cs : List Client)
    → AllPresent cs
    → Leaves (Stays cs (inbox i)) (read_client w inbox i cs)
unfolding read_client
read_client-Stays w inbox i cs a =
    Leaves-option (Stays cs (inbox i)) (get_elem? cs i) out_of_bounds
      (λ c. if c.present then received w cs i c (inbox i) else ok (cs, [])) tt
      λ c e. rw (AllPresent-get cs i c a e) (received-Stays w cs i c (inbox i))

read_all-Stays :
    (w : World) (inbox : ℕ → Poll) (n i : ℕ) (cs : List Client)
    → AllPresent cs
    → Leaves
        (λ (cs', sent). (cs' ≡ cs) × ((k : ℕ) → i ≤ k → k < i + n → inbox k ≢ gone))
        (read_all w inbox n i cs)
unfolding read_all
read_all-Stays w inbox zero i cs a = (refl, λ k lo hi. absurd (omega arith))
read_all-Stays w inbox (suc n) i cs a =
    Leaves-bind (Stays cs (inbox i)) _ (read_client w inbox i cs) _
      (read_client-Stays w inbox i cs a)
      λ (cs', sent) (same, here). rw same (
        Leaves-bind
          (λ (cs'', more). (cs'' ≡ cs) × ((k : ℕ) → suc i ≤ k → k < suc i + n → inbox k ≢ gone)) _
          (read_all w inbox n (suc i) cs) _ (read_all-Stays w inbox n (suc i) cs a)
          λ (cs'', more) (same', others). (same', λ k lo hi. from k lo hi here others))
  where
    from :
        (k : ℕ)
        → i ≤ k
        → k < i + suc n
        → inbox i ≢ gone
        → ((k : ℕ) → suc i ≤ k → k < suc i + n → inbox k ≢ gone)
        → inbox k ≢ gone
    from k lo hi here others = elim (Bool-cases (k == i)) [
      | inl e ↦ let same : i ≡ k = ground arith in subst (λ v. inbox v ≢ gone) same here
      | inr e ↦ others k (ground arith) (omega arith)
    ]

-- The table has room for its clients, and all of them are present.
abbrev pub IsChat : List Client → Type 0
IsChat cs = AllPresent cs × (length cs ≤ max_clients_num)

-- The client that a registration brings.
abbrev pub new_client : (mtype : ℕ) → Text → Option ℕ → List Client
new_client mtype text none = []
new_client mtype text (some q) = record { id = mtype; queue = q; name = text; present = true } ∷ []

abbrev pub new_clients : World → Registration → List Client
new_clients w (joins mtype text) = new_client mtype text (w.queue_of mtype)
new_clients w _ = []

add_client-IsChat :
    (w : World) (cs : List Client) (mtype : ℕ) (text : Text)
    → IsChat cs
    → Leaves
        (λ cs'. IsChat cs' × (cs' ≡ cs ++ new_client mtype text (w.queue_of mtype)))
        (add_client w cs mtype text)
unfolding add_client
add_client-IsChat w cs mtype text is =
    Leaves-if _ (ltb (length cs) max_clients_num && ltb (length text) max_clients_name_length) _ _
      (λ room. Leaves-option _ (w.queue_of mtype) exits _ tt λ q e. (
        (
          AllPresent-append cs (record { id = mtype; queue = q; name = text; present = true }) is.0
              refl,
          ground (
            arith,
            length-append cs (record { id = mtype; queue = q; name = text; present = true } ∷ []),
          ),
        ),
        ap (λ o. cs ++ new_client mtype text o) (sym e),
      ))
      (λ _. tt)

register-IsChat :
    (w : World) (cs : List Client) (reg : Registration)
    → IsChat cs
    → Leaves (λ (cs', sent). IsChat cs' × (cs' ≡ cs ++ new_clients w reg)) (register w cs reg)
unfolding register
register-IsChat w cs nobody is = (is, sym (append_nil cs))
register-IsChat w cs too_long is = (is, sym (append_nil cs))
register-IsChat w cs broken is = tt
register-IsChat w cs (joins mtype text) is =
    Leaves-bind (λ cs'. IsChat cs' × (cs' ≡ cs ++ new_client mtype text (w.queue_of mtype))) _
      (add_client w cs mtype text) _ (add_client-IsChat w cs mtype text is)
      λ cs' kept.
        Leaves-bind (λ _. Unit) _ (send_everyone w cs' (joined_info text) none []) _
          (anything (send_everyone w cs' (joined_info text) none [])) λ sent _. kept

-- A round of the main loop that comes to its end leaves the clients as they were, and the one that
-- registers behind them, if there is one with a queue; all of them are present, at most
-- `max_clients_num`, and no client's queue was found gone.
pub round-IsChat :
    (w : World) (reg : Registration) (inbox : ℕ → Poll) (cs : List Client)
    → IsChat cs
    → Leaves
        (λ (cs', sent).
          IsChat cs'
          × (cs' ≡ cs ++ new_clients w reg)
          × ((k : ℕ) → k < length cs' → inbox k ≢ gone))
        (round w reg inbox cs)
unfolding round
round-IsChat w reg inbox cs is =
    Leaves-bind (λ (cs', sent). IsChat cs' × (cs' ≡ cs ++ new_clients w reg)) _ (register w cs reg)
      _ (register-IsChat w cs reg is)
      λ (cs', sent) (is', more).
        Leaves-bind
          (λ (cs'', _). (cs'' ≡ cs') × ((k : ℕ) → 0 ≤ k → k < 0 + length cs' → inbox k ≢ gone)) _
          (read_all w inbox (length cs') 0 cs') _ (read_all-Stays w inbox (length cs') 0 cs' is'.0)
          λ (cs'', rest) (same, polls).
            rw same (is', more, λ k lt. polls k (omega arith) (omega arith))
