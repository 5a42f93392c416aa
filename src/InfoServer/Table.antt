-- ===== src/InfoServer/Table.antt =====
-- The table of clients of lab10/zad1/server.c. An array is the list of its entries: a loop over it
-- is a recursion on what is left of the list, and a read behind the end is `out_of_bounds`.
use operating_systems_agh_la.Base.{
  ℕ, Bool, true, false, ◌&&◌, List, [], ◌∷◌, ◌++◌, map, ◌==◌, if◌then◌else◌, take, drop, length,
  ltb,
}

-- A C string: its bytes before the terminating zero.
abbrev pub Name : Type 0
Name = List ℕ

abbrev pub Bytes : Type 0
Bytes = List ℕ

-- `client_t`. A free entry has an empty name.
pub record Client : Type 0 where
  pub name : Name
  pub is_local : Bool
  pub unix_address : Bytes
  pub inet_address : Bytes
  pub address_size : ℕ

abbrev pub Clients : Type 0
Clients = List Client

-- MAX_CLIENTS
abbrev pub max_clients : ℕ
max_clients = 10

-- `exit` is the end of the process in ERROR_HANDLER.
pub data Outcome {ℓ} (A : Type ℓ) : Type ℓ where
  ok : A → Outcome A
  out_of_bounds : Outcome A
  exit : Outcome A

infixl 5 ◌>>=◌ ◌>>◌
abbrev pub ◌>>=◌ {ℓ κ} : {A : Type ℓ} {B : Type κ} → Outcome A → (A → Outcome B) → Outcome B
ok a >>= f = f a
out_of_bounds >>= f = out_of_bounds
exit >>= f = exit

abbrev pub ◌>>◌ {ℓ κ} : {A : Type ℓ} {B : Type κ} → Outcome A → Outcome B → Outcome B
m >> k = m >>= λ _. k

-- `strcmp(s, t) == 0`
abbrev pub same_name : Name → Name → Bool
same_name [] [] = true
same_name [] (y ∷ ys) = false
same_name (x ∷ xs) [] = false
same_name (x ∷ xs) (y ∷ ys) = (x == y) && same_name xs ys

-- `strlen(s) > 0`
abbrev pub is_used : Name → Bool
is_used [] = false
is_used (x ∷ xs) = true

-- `memcpy` of the first `n` bytes
abbrev pub memcpy : Bytes → Bytes → ℕ → Bytes
memcpy dest src n = take n src ++ drop n dest

-- The sender of a request: over which socket, and its address.
pub record Sender : Type 0 where
  pub local : Bool
  pub address : Bytes
  pub size : ℕ

-- The writes of `add_client` to the entry that it has found.
unfoldable pub fill_client : Client → Name → Sender → Client
fill_client c name s =
    if s.local
    then record c {
      name = name;
      is_local = s.local;
      address_size = s.size;
      unix_address = memcpy c.unix_address s.address s.size;
    }
    else record c {
      name = name;
      is_local = s.local;
      address_size = s.size;
      inet_address = memcpy c.inet_address s.address s.size;
    }

-- CLIENT_NAME_LENGTH, the size of the array of a name
abbrev pub client_name_length : ℕ
client_name_length = 50

-- `add_client`. Its loop reads the name of an entry before it tests the index, so on a full table
-- it reads behind the array; a name that is too long is copied behind its array.
unfoldable pub add_client : Clients → Name → Sender → Outcome Clients
unfolding fill_client
add_client [] name s = out_of_bounds
add_client (c ∷ cs) name s =
    let rest = add_client cs name s in
    if is_used c.name
    then (do cs' ← rest; ok (c ∷ cs'))
    else if ltb (length name) client_name_length
    then ok (fill_client c name s ∷ cs)
    else out_of_bounds

-- The entry `c` overwritten by the next one, in the loop of `delete_client`.
unfoldable pub copy_client : Client → Client → Client
copy_client c next =
    if next.is_local
    then record c {
      name = next.name;
      is_local = next.is_local;
      address_size = next.address_size;
      unix_address = memcpy c.unix_address next.unix_address next.address_size;
    }
    else record c {
      name = next.name;
      is_local = next.is_local;
      address_size = next.address_size;
      inet_address = memcpy c.inet_address next.inet_address next.address_size;
    }

-- The loop itself, and the cleared name of the last entry.
unfoldable pub shift_clients : Client → Clients → Clients
unfolding copy_client
shift_clients c [] = record c { name = [] } ∷ []
shift_clients c (next ∷ cs) = copy_client c next ∷ shift_clients next cs

-- `delete_client`, which reads behind the array when no entry has the name.
unfoldable pub delete_client : Clients → Name → Outcome Clients
unfolding shift_clients
delete_client [] name = out_of_bounds
delete_client (c ∷ cs) name =
    let rest = delete_client cs name in
    if same_name c.name name then ok (shift_clients c cs) else do cs' ← rest; ok (c ∷ cs')

-- `copy_clients`: the names of all entries.
unfoldable pub copy_clients : Clients → List Name
copy_clients cs = map (λ c. c.name) cs
