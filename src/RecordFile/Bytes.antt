-- ===== src/RecordFile/Bytes.antt =====
-- lab03/zad1/prog.c: the file as bytes, through lseek, read and write (the variant SYS). An `int` is
-- four bytes, the least significant first.
pub mod Codec
pub mod Posix
pub mod Ends
pub mod Records
pub mod Layout
pub mod Exchange
pub mod Refines
pub mod Copy
pub mod Generate
mod Examples
use operating_systems_agh_la.Base.{
  ℕ, zero, suc, ◌+◌, ◌-◌, ◌*◌, ◌/◌, ◌%◌, ◌^◌, List, [], ◌∷◌, ◌++◌, length, drop, ltb, leb,
  if◌then◌else◌,
}
use operating_systems_agh_la.Base.Int.{ℤ, pos, negsuc, greater}

-- `overflow`: an `int` product that does not fit. `no_memory`: `malloc` of a negative size, behind
-- which the loops of `sort` are not followed.
pub data Outcome (A : Type 0) : Type 0 where
  ok : A → Outcome A
  overflow : Outcome A
  no_memory : Outcome A
  out_of_fuel : Outcome A

infixl 5 ◌>>=◌
abbrev pub ◌>>=◌ : {A B : Type 0} → Outcome A → (A → Outcome B) → Outcome B
ok x >>= f = f x
overflow >>= f = overflow
no_memory >>= f = no_memory
out_of_fuel >>= f = out_of_fuel

-- OFFSET
abbrev pub header_size : ℕ
header_size = 8

-- BUF_SIZE
abbrev pub buf_size : ℕ
buf_size = 1024

-- INT_MAX
abbrev pub int_max : ℕ
int_max = 2 ^ 31 - 1

-- The `n` low bytes of a number.
abbrev pub low_bytes : ℕ → ℕ → List ℕ
low_bytes zero u = []
low_bytes (suc n) u = (u % 256) ∷ low_bytes n (u / 256)

abbrev pub unsigned : List ℕ → ℕ
unsigned [] = 0
unsigned (b ∷ bs) = b + 256 * unsigned bs

-- The bytes of an `int`, and the `int` that they stand for.
unfoldable pub encode : ℤ → List ℕ
encode (pos n) = low_bytes 4 n
encode (negsuc n) = low_bytes 4 (2 ^ 32 - n - 1)

unfoldable pub decode : List ℕ → ℤ
decode bs = let u = unsigned bs in if ltb u (2 ^ 31) then pos u else negsuc (2 ^ 32 - u - 1)

-- The calls of the system on an open file, and what `malloc` gives: the bytes found there.
pub record Calls (F : Type 0) : Type 0 where
  pub lseek : ℕ → F → F
  pub read : ℕ → F → List ℕ × F
  pub write : List ℕ → F → F
  pub malloc : ℕ → List ℕ

-- What a `read` that gives `got` leaves in memory.
abbrev pub into : List ℕ → List ℕ → List ℕ
into old got = got ++ drop (length got) old

-- The bytes of a key, and of the data behind it.
pub record RawRecord : Type 0 where
  pub key_bytes : List ℕ
  pub data_bytes : List ℕ

-- `i * struct_size + OFFSET`
unfoldable pub offset : ℕ → ℕ → Outcome ℕ
offset struct_size i =
    if ltb (i * struct_size) (2 ^ 31) then ok (i * struct_size + header_size) else overflow

-- `struct_size - sizeof(int)`, cut to an `int`
abbrev pub data_size_of : ℤ → ℤ
data_size_of (pos s) = if ltb s 4 then negsuc (3 - s) else pos (s - 4)
data_size_of (negsuc s) = if leb (s + 5) (2 ^ 31) then negsuc (s + 4) else pos (2 ^ 32 - (s + 5))

-- The bytes of the data of one record; `rand` gives the numbers in the order they are drawn.
unfoldable pub draw_data : (rand : ℕ → ℕ) → (drawn data_size : ℕ) → List ℕ
draw_data rand drawn zero = []
draw_data rand drawn (suc n) = (rand drawn % int_max % 256) ∷ draw_data rand (suc drawn) n

module _ {F : Type 0} (calls : Calls F) where
  unfoldable pub read_record : (data_size place : ℕ) → F → RawRecord × F
  read_record data_size place f =
      let (key, f1) = calls.read 4 (calls.lseek place f) in
      let (content, f2) = calls.read data_size f1 in
      (
        record {
          key_bytes = into (calls.malloc 4) key;
          data_bytes = into (calls.malloc data_size) content;
        },
        f2,
      )

  unfoldable pub write_record : ℕ → RawRecord → F → F
  write_record place b f = calls.write b.data_bytes (calls.write b.key_bytes (calls.lseek place f))

  -- The body of the inner loop.
  unfoldable pub exchange_bytes : (struct_size i j : ℕ) → F → Outcome F
  unfolding offset read_record write_record decode
  exchange_bytes struct_size i j f = do
    p ← offset struct_size i
    q ← offset struct_size j
    let (ts1, f1) = read_record (struct_size - 4) p f
    let (ts2, f2) = read_record (struct_size - 4) q f1
    ok (
        if greater (decode ts1.key_bytes) (decode ts2.key_bytes)
        then write_record p ts2 (write_record q ts1 f2)
        else f2)

  -- The loops, with the rounds left.
  unfoldable pub inner_bytes : ℕ → (struct_size i j : ℕ) → F → Outcome F
  unfolding exchange_bytes
  inner_bytes zero struct_size i j f = ok f
  inner_bytes (suc n) struct_size i j f = do
    f1 ← exchange_bytes struct_size i j f
    inner_bytes n struct_size i (suc j) f1

  unfoldable pub outer_bytes : ℕ → (struct_size i : ℕ) → F → Outcome F
  unfolding inner_bytes
  outer_bytes zero struct_size i f = ok f
  outer_bytes (suc n) struct_size i f = do
    f1 ← inner_bytes (suc n) struct_size i i f
    outer_bytes n struct_size (suc i) f1

  -- The loops for a header: with a record or more, one that is shorter than its key ends in
  -- `malloc`.
  unfoldable pub sort_records : (struct_size count : ℤ) → F → Outcome F
  unfolding outer_bytes
  sort_records struct_size (negsuc n) f = ok f
  sort_records struct_size (pos zero) f = ok f
  sort_records (negsuc s) (pos (suc n)) f = no_memory
  sort_records (pos s) (pos (suc n)) f = if ltb s 4 then no_memory else outer_bytes (suc n) s 0 f

  -- `sort`; `h1` and `h2` are what the two variables for the header hold.
  unfoldable pub sort_bytes : (h1 h2 : List ℕ) → F → Outcome F
  unfolding sort_records decode
  sort_bytes h1 h2 f =
      let (b1, f1) = calls.read 4 f in
      let (b2, f2) = calls.read 4 f1 in sort_records (decode (into h1 b1)) (decode (into h2 b2)) f2

  -- The loop of `generate`, with the rounds left.
  unfoldable pub generate_records : (rand : ℕ → ℕ) → ℕ → (drawn data_size : ℕ) → F → F
  unfolding draw_data encode
  generate_records rand zero drawn data_size f = f
  generate_records rand (suc n) drawn data_size f =
      generate_records rand n (suc drawn + data_size) data_size (
        calls.write (draw_data rand (suc drawn) data_size)
          (calls.write (encode (pos (rand drawn % int_max))) f))

  -- The same loop with a negative size of the data: `malloc` gives NULL and the `write` of the data
  -- fails, so that only the keys are written.
  unfoldable pub generate_keys : (rand : ℕ → ℕ) → ℕ → (drawn : ℕ) → F → F
  unfolding encode
  generate_keys rand zero drawn f = f
  generate_keys rand (suc n) drawn f =
      generate_keys rand n (suc drawn) (calls.write (encode (pos (rand drawn % int_max))) f)

  -- `generate` behind the header.
  unfoldable pub generate_all : (rand : ℕ → ℕ) → (struct_size count : ℤ) → F → F
  unfolding generate_records generate_keys
  generate_all rand struct_size (negsuc n) f = f
  generate_all rand struct_size (pos n) f = elim (data_size_of struct_size) [
    | pos data_size ↦ generate_records rand n 0 data_size f
    | negsuc k ↦ generate_keys rand n 0 f
  ]

  -- `generate` on the file that `open` gives.
  unfoldable pub generate : (rand : ℕ → ℕ) → (struct_size count : ℤ) → F → F
  unfolding generate_all encode
  generate rand struct_size count f =
      generate_all rand struct_size count
        (calls.write (encode count) (calls.write (encode struct_size) f))

  -- The loop of `main` that copies the file, from one open file to another.
  unfoldable pub copy_loop : ℕ → (original copy : F) → Outcome (F × F)
  copy_loop zero original copy = out_of_fuel
  copy_loop (suc n) original copy =
      let (buffer, original1) = calls.read buf_size original in
      let copy1 = calls.write buffer copy in
      if ltb 0 (length buffer) then copy_loop n original1 copy1 else ok (original1, copy1)
