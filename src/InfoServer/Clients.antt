-- ===== src/InfoServer/Clients.antt =====
-- What the table of clients of lab10/zad1/server.c stands for: the registered clients, in order.
use operating_systems_agh_la.Base.{
  ℕ, zero, suc, ◌<◌, ◌≤◌, ◌≡◌, refl, ◌∙◌, inl, inr, ap, Bool, true, false, List, [], ◌∷◌, ◌++◌,
  arith, Bool-cases, if◌then◌else◌, length, length-append, take, drop, ltb,
}
use operating_systems_agh_la.InfoServer.Table.{
  Name, Bytes, Client, Clients, memcpy, client_name_length, Outcome, ok, out_of_bounds, ◌>>=◌,
  same_name, is_used, Sender, fill_client, add_client, copy_client, shift_clients, delete_client,
}

-- A client: its name, over which socket it is reached, and the bytes of its address.
pub record Contact : Type 0 where
  pub name : Name
  pub is_local : Bool
  pub address : Bytes

abbrev pub stored_address : Client → Bytes
stored_address c = if c.is_local then c.unix_address else c.inet_address

abbrev pub contact : Client → Contact
contact c = record {
  name = c.name;
  is_local = c.is_local;
  address = take c.address_size (stored_address c);
}

abbrev pub contact_of : Name → Sender → Contact
contact_of name s = record { name = name; is_local = s.local; address = take s.size s.address }

-- The entry has all bytes of its address.
abbrev pub IsWhole : Client → Type 0
IsWhole c = c.address_size ≤ length (stored_address c)

-- The clients up to the first free entry.
abbrev pub registered : Clients → List Contact
registered [] = []
registered (c ∷ cs) = if is_used c.name then contact c ∷ registered cs else []

abbrev pub AllFree : Clients → Type 0
AllFree [] = Unit
AllFree (c ∷ cs) = (is_used c.name ≡ false) × AllFree cs

-- No entry behind a free one is used, and the used ones have all bytes of their addresses.
abbrev pub Compact : Clients → Type 0
Compact [] = Unit
Compact (c ∷ cs) = if is_used c.name then IsWhole c × Compact cs else AllFree cs

-- The table after a successful operation.
pub data Holds (n : ℕ) (contacts : List Contact) : Outcome Clients → Type 0 where
  holds :
      {cs : Clients}
      → length cs ≡ n
      → Compact cs
      → registered cs ≡ contacts
      → Holds n contacts (ok cs)

Holds-cons :
    {n : ℕ} {contacts : List Contact} {o : Outcome Clients} (c : Client)
    → is_used c.name ≡ true
    → IsWhole c
    → Holds n contacts o
    → Holds (suc n) (contact c ∷ contacts) (o >>= λ cs. ok (c ∷ cs))
Holds-cons c used whole (holds size compact same) =
    holds (ap suc size) (rw used (whole, compact)) (rw (used, same))

AllFree-Compact : (cs : Clients) → AllFree cs → Compact cs
AllFree-Compact [] free = tt
AllFree-Compact (c ∷ cs) free = rw free.0 free.1

AllFree-registered : (cs : Clients) → AllFree cs → registered cs ≡ []
AllFree-registered [] free = refl
AllFree-registered (c ∷ cs) free = rw free.0

registered_one :
    (c : Client) (cs : Clients)
    → is_used c.name ≡ true
    → registered cs ≡ []
    → registered (c ∷ cs) ≡ contact c ∷ []
registered_one c cs used alone = rw (used, alone) refl

take-memcpy : (n : ℕ) (dest src : Bytes) → n ≤ length src → take n (memcpy dest src n) ≡ take n src
take-memcpy n dest src le = slice-append_whole n src (drop n dest) le
  where
    slice-append_whole :
        (n : ℕ) (xs ys : Bytes) → n ≤ length xs → take n (take n xs ++ ys) ≡ take n xs
    slice-append_whole zero xs ys le = refl
    slice-append_whole (suc n) [] ys le = absurd (omega arith)
    slice-append_whole (suc n) (x ∷ xs) ys le =
        ap (λ zs. x ∷ zs) (slice-append_whole n xs ys (omega arith))

length-memcpy_le : (n : ℕ) (dest src : Bytes) → n ≤ length src → n ≤ length (memcpy dest src n)
length-memcpy_le zero dest src le = omega arith
length-memcpy_le (suc n) dest [] le = absurd (omega arith)
length-memcpy_le (suc n) dest (x ∷ xs) le =
    omega (arith, length-append (take n xs) (drop (suc n) dest), shorter n xs (omega arith))
  where
    shorter : (n : ℕ) (xs : Bytes) → n ≤ length xs → length (take n xs) ≡ n
    shorter zero xs le = refl
    shorter (suc n) [] le = absurd (omega arith)
    shorter (suc n) (x ∷ xs) le = omega (arith, shorter n xs (omega arith))

contact-fill_client :
    (c : Client) (name : Name) (s : Sender)
    → s.size ≤ length s.address
    → (contact (fill_client c name s) ≡ contact_of name s) × IsWhole (fill_client c name s)
unfolding fill_client
contact-fill_client c name s whole = elim (Bool-cases s.local) [
  | inl local ↦
      let copied = take-memcpy s.size c.unix_address s.address whole in
      rw (local, copied) (refl, length-memcpy_le s.size c.unix_address s.address whole)
  | inr inet ↦
      let copied = take-memcpy s.size c.inet_address s.address whole in
      rw (inet, copied) (refl, length-memcpy_le s.size c.inet_address s.address whole)
]

contact-copy_client :
    (c next : Client)
    → IsWhole next
    → (contact (copy_client c next) ≡ contact next) × IsWhole (copy_client c next)
unfolding copy_client
contact-copy_client c next whole = elim (Bool-cases next.is_local) [
  | inl local ↦
      let all = rw local at whole in
      let copied = take-memcpy next.address_size c.unix_address next.unix_address all in
      rw (local, copied)
        (refl, length-memcpy_le next.address_size c.unix_address next.unix_address all)
  | inr inet ↦
      let all = rw inet at whole in
      let copied = take-memcpy next.address_size c.inet_address next.inet_address all in
      rw (inet, copied)
        (refl, length-memcpy_le next.address_size c.inet_address next.inet_address all)
]

name-fill_client : (c : Client) (name : Name) (s : Sender) → (fill_client c name s).name ≡ name
unfolding fill_client
name-fill_client c name s = ground arith

name-copy_client : (c next : Client) → (copy_client c next).name ≡ next.name
unfolding copy_client
name-copy_client c next = ground arith

module _ (name : Name) (s : Sender) (whole : s.size ≤ length s.address) where
  -- On a table that is not full `add_client` registers the client behind the others, with its
  -- address; the table stays compact and keeps its size.
  pub add_client-registered :
      (cs : Clients)
      → Compact cs
      → is_used name ≡ true
      → length name < client_name_length
      → length (registered cs) < length cs
      → Holds (length cs) (registered cs ++ contact_of name s ∷ []) (add_client cs name s)
  unfolding add_client
  add_client-registered [] is used short room = absurd (omega arith)
  add_client-registered (c ∷ cs) is used short room = elim (Bool-cases (is_used c.name)) [
    | inl taken ↦ rw taken (
        Holds-cons c taken (rw taken at is).0 (
          add_client-registered cs (rw taken at is).1 used short (
            let more : suc (length (registered cs)) < suc (length cs) = rw taken at room in
            omega arith)))
    | inr free ↦
        let fits : ltb (length name) client_name_length ≡ true = ground arith in
        let filled = contact-fill_client c name s whole in
        rw (free, fits)
          (holds refl
            (rw (name-fill_client c name s, used) (filled.1, AllFree-Compact cs (rw free at is)))
            (registered_one (fill_client c name s) cs
                (ap is_used (name-fill_client c name s) ∙ used)
                (AllFree-registered cs (rw free at is))
              ∙ ap (λ x. x ∷ []) filled.0))
  ]

  -- On a full table `add_client` reads behind the array.
  pub add_client-full :
      (cs : Clients) → length (registered cs) ≡ length cs → add_client cs name s ≡ out_of_bounds
  unfolding add_client
  add_client-full [] full = refl
  add_client-full (c ∷ cs) full = ground (arith, add_client-full cs)

-- The clients without the first one that is called `name`.
unfoldable pub erase : Name → List Contact → List Contact
erase name [] = []
erase name (x ∷ xs) = if same_name x.name name then xs else x ∷ erase name xs

abbrev pub contains : Name → List Contact → Bool
contains name [] = false
contains name (x ∷ xs) = if same_name x.name name then true else contains name xs

length-shift_clients : (c : Client) (cs : Clients) → length (shift_clients c cs) ≡ suc (length cs)
unfolding shift_clients
length-shift_clients c [] = refl
length-shift_clients c (next ∷ cs) = ap suc (length-shift_clients next cs)

shift_clients-AllFree : (c : Client) (cs : Clients) → AllFree cs → AllFree (shift_clients c cs)
unfolding shift_clients
shift_clients-AllFree c [] free = (refl, tt)
shift_clients-AllFree c (next ∷ cs) free =
    (rw (name-copy_client c next) free.0, shift_clients-AllFree next cs free.1)

shift_clients-Compact : (c : Client) (cs : Clients) → Compact cs → Compact (shift_clients c cs)
unfolding shift_clients
shift_clients-Compact c [] is = tt
shift_clients-Compact c (next ∷ cs) is = elim (Bool-cases (is_used next.name)) [
  | inl used ↦
      rw (name-copy_client c next, used)
        (
          (contact-copy_client c next (rw used at is).0).1,
          shift_clients-Compact next cs (rw used at is).1,
        )
  | inr free ↦ rw (name-copy_client c next, free) (shift_clients-AllFree next cs (rw free at is))
]

registered-shift_clients :
    (c : Client) (cs : Clients) → Compact cs → registered (shift_clients c cs) ≡ registered cs
unfolding shift_clients
registered-shift_clients c [] is = refl
registered-shift_clients c (next ∷ cs) is = elim (Bool-cases (is_used next.name)) [
  | inl used ↦
      let moved = contact-copy_client c next (rw used at is).0 in
      let others = registered-shift_clients next cs (rw used at is).1 in
      rw (name-copy_client c next, used) (cc (moved.0, others))
  | inr free ↦ rw (name-copy_client c next, free)
]

same_name-is_used :
    (x name : Name) → same_name x name ≡ true → is_used name ≡ true → is_used x ≡ true
same_name-is_used [] [] same used = used
same_name-is_used [] (y ∷ ys) same used = cc
same_name-is_used (x ∷ xs) name same used = refl

free-ne : (x name : Name) → is_used x ≡ false → is_used name ≡ true → same_name x name ≡ false
free-ne [] [] free used = cc
free-ne [] (y ∷ ys) free used = refl
free-ne (x ∷ xs) name free used = cc

module _ (name : Name) (used : is_used name ≡ true) where
  -- `delete_client` of a registered name drops its first entry and moves the later ones up, with
  -- their addresses; the table stays compact and keeps its size.
  pub delete_client-registered :
      (cs : Clients)
      → Compact cs
      → contains name (registered cs) ≡ true
      → Holds (length cs) (erase name (registered cs)) (delete_client cs name)
  unfolding delete_client erase
  delete_client-registered [] is here = cc
  delete_client-registered (c ∷ cs) is here = elim (Bool-cases (is_used c.name)) [
    | inr free ↦ ground arith
    | inl taken ↦ elim (Bool-cases (same_name c.name name)) [
      | inl same ↦
          rw (taken, same)
            (holds (length-shift_clients c cs) (shift_clients-Compact c cs (rw taken at is).1)
              (registered-shift_clients c cs (rw taken at is).1))
      | inr other ↦
          rw (taken, other)
            (Holds-cons c taken (rw taken at is).0
              (delete_client-registered cs (rw taken at is).1 (ground arith)))
    ]
  ]

  AllFree-delete_client : (cs : Clients) → AllFree cs → delete_client cs name ≡ out_of_bounds
  unfolding delete_client
  AllFree-delete_client [] free = refl
  AllFree-delete_client (c ∷ cs) free =
      rw (free-ne c.name name free.0 used, AllFree-delete_client cs free.1)

  -- `delete_client` of a name that is not registered reads behind the array.
  pub delete_client-unknown :
      (cs : Clients)
      → Compact cs
      → contains name (registered cs) ≡ false
      → delete_client cs name ≡ out_of_bounds
  unfolding delete_client
  delete_client-unknown [] is out = refl
  delete_client-unknown (c ∷ cs) is out = elim (Bool-cases (is_used c.name)) [
    | inr free ↦ rw (free-ne c.name name free used, AllFree-delete_client cs (rw free at is))
    | inl taken ↦ elim (Bool-cases (same_name c.name name)) [
      | inl same ↦ ground arith
      | inr other ↦ rw (other, delete_client-unknown cs (rw taken at is).1 (ground arith))
    ]
  ]
