-- ===== src/Locker/Examples.antt =====
-- The locker at work on a file in memory, and its theorems there.
use mathlib.Core.Option.{some-injective}
use operating_systems_agh_la.Base.{
  ℕ, zero, suc, ◌+◌, ◌≤◌, ◌≡◌, refl, inl, inr, Bool, true, false, ◌&&◌, ◌||◌, Option, none, some,
  List, [], ◌∷◌, arith, if◌then◌else◌, ◌==◌, leb, ltb, length, get_elem?, Bool-cases, ap, sym, ◌∙◌,
}
use operating_systems_agh_la.Base.Int.{pos}
use operating_systems_agh_la.Base.Maps.{update}
use operating_systems_agh_la.Locker.Posix.{
  LockKind, write_lock, Byte, Found, Answer, done, refused, Kernel, Covers, IsPosix, with_byte,
}
use operating_systems_agh_la.Locker.{read_byte, write_byte, set_byte, get_lock_type}
use operating_systems_agh_la.Locker.Session.{
  Command, lockwrite, write, read, exit, Locker, session, perform,
}
use operating_systems_agh_la.Locker.Safety.{Kept, read_byte-write_byte, session-Kept}

-- The bytes of a file, the locks of this process, and those of process 7.
record Memory : Type 0 where
  bytes : List Byte
  own : ℕ → Option LockKind
  locked : List (ℕ × LockKind)

abbrev lock_at : ℕ → List (ℕ × LockKind) → Option LockKind
lock_at at [] = none
lock_at at ((o, k) ∷ ls) = if o == at then some k else lock_at at ls

abbrev reaches : (start len at : ℕ) → Bool
reaches start len at = leb start at && ((len == 0) || ltb at (start + len))

find_lock : (start len : ℕ) → List (ℕ × LockKind) → Option Found
find_lock start len [] = none
find_lock start len ((o, k) ∷ ls) =
    let rest = find_lock start len ls in
    if reaches start len o then some (record { pid = 7; start = o; kind = k }) else rest

abbrev set_own : Memory → ℕ → ℕ → Option LockKind → Answer Memory
set_own s start len kind = elim (lock_at start s.locked) [
  | none ↦ done (record s { own = update s.own start kind })
  | some _ ↦ refused
]

abbrev put : List Byte → ℕ → Byte → List Byte
put [] zero b = b ∷ []
put [] (suc n) b = 0 ∷ put [] n b
put (x ∷ xs) zero b = b ∷ xs
put (x ∷ xs) (suc n) b = x ∷ put xs n b

abbrev put_byte : Memory → ℕ → Byte → Option Memory
put_byte s at b = some (record s { bytes = put s.bytes at b })

abbrev memory : Kernel
memory = record {
  State = Memory;
  set_lock = set_own;
  get_lock = λ s start len. some (find_lock start len s.locked);
  seek = λ s at. true;
  read = λ s at. some (get_elem? s.bytes at);
  write = put_byte;
  size = λ s. length s.bytes;
  others = λ s at. lock_at at s.locked;
  content = λ s at. get_elem? s.bytes at;
}

reaches-Covers : (start len at : ℕ) → Covers start len at → reaches start len at ≡ true
reaches-Covers start len at (le, inl all) = ground arith
reaches-Covers start len at (le, inr below) = ground arith

Covers-reaches : (start len at : ℕ) → reaches start len at ≡ true → Covers start len at
Covers-reaches start len at r = elim (Bool-cases (len == 0)) [
  | inl all ↦ (ground arith, inl (ground arith))
  | inr some_ ↦ (ground arith, inr (ground arith))
]

find_lock-none :
    (start len at : ℕ) (ls : List (ℕ × LockKind))
    → find_lock start len ls ≡ none
    → Covers start len at
    → lock_at at ls ≡ none
unfolding find_lock
find_lock-none start len at [] e c = refl
find_lock-none start len at ((o, k) ∷ ls) e c =
    ground (arith, find_lock-none start len at ls, reaches-Covers start len at c)

find_lock-some :
    (start len : ℕ) (l : Found) (ls : List (ℕ × LockKind))
    → find_lock start len ls ≡ some l
    → (reaches start len l.start ≡ true) × (lock_at l.start ls ≡ some l.kind)
unfolding find_lock
find_lock-some start len l [] e = ground arith
find_lock-some start len l ((o, k) ∷ ls) e = ground (arith, find_lock-some start len l ls)

set_own-bytes :
    (s t : Memory) (start len : ℕ) (kind : Option LockKind)
    → set_own s start len kind ≡ done t
    → (t.bytes ≡ s.bytes) × (t.locked ≡ s.locked)
set_own-bytes s t start len kind e = ground arith

put_byte-bytes :
    (s t : Memory) (at : ℕ) (b : Byte)
    → put_byte s at b ≡ some t
    → (t.bytes ≡ put s.bytes at b) × (t.locked ≡ s.locked)
put_byte-bytes s t at b e = ground arith

put-with_byte :
    (bytes : List Byte) (at at' : ℕ) (b : Byte)
    → get_elem? (put bytes at b) at' ≡ with_byte (get_elem? bytes) at b at'
put-with_byte [] zero zero b = refl
put-with_byte [] zero (suc k) b = ground arith
put-with_byte [] (suc n) zero b = ground arith
put-with_byte [] (suc n) (suc k) b = ground (arith, put-with_byte [] n k b)
put-with_byte (x ∷ xs) zero zero b = refl
put-with_byte (x ∷ xs) zero (suc k) b = ground arith
put-with_byte (x ∷ xs) (suc n) zero b = ground arith
put-with_byte (x ∷ xs) (suc n) (suc k) b = ground (arith, put-with_byte xs n k b)

memory-IsPosix : IsPosix memory
memory-IsPosix = record {
  set_lock-others =
      λ s t start len kind e at. ap (lock_at at) (set_own-bytes s t start len kind e).1;
  set_lock-content =
      λ s t start len kind e at. ap (λ bs. get_elem? bs at) (set_own-bytes s t start len kind e).0;
  get_lock-free =
      λ s start len e at c. find_lock-none start len at s.locked (some-injective _ _ e) c;
  get_lock-found = λ s start len l e.
      let f = find_lock-some start len l s.locked (some-injective _ _ e) in
      (l.start, Covers-reaches start len l.start f.0, f.1);
  read-content = λ s at r e. sym (some-injective _ _ e);
  write-others = λ s t at b e at'. ap (lock_at at') (put_byte-bytes s t at b e).1;
  write-content = λ s t at b e at'.
      let p = put_byte-bytes s t at b e in
      ap (λ bs. get_elem? bs at') p.0 ∙ put-with_byte s.bytes at at' b;
}

-- five bytes, of which process 7 has locked the one at 3
abbrev file : Memory
file = record {
  bytes = 10 ∷ 11 ∷ 12 ∷ 13 ∷ 14 ∷ [];
  own = λ _. none;
  locked = (3, write_lock) ∷ [];
}

abbrev locker : Locker memory
locker = record { condition = false; buffer = 0; file = file; printed = [] }

-- byte 4 is written and read; byte 0 is refused, for the lock on byte 3
commands : List Command
commands = write (pos 4) 99 ∷ lockwrite (pos 3) ∷ write (pos 0) 98 ∷ read (pos 4) ∷ exit ∷ []

-- A write behind the end of the file fills it up with zeros.
filled_up :
    (write_byte memory 7 99 (record file { locked = [] })).1.bytes
    ≡ 10 ∷ 11 ∷ 12 ∷ 13 ∷ 14 ∷ 0 ∷ 0 ∷ 99 ∷ []
unfolding write_byte get_lock_type find_lock
filled_up = refl

session_result :
    ((session memory commands locker).file.bytes ≡ 10 ∷ 11 ∷ 12 ∷ 13 ∷ 99 ∷ [])
    × ((session memory commands locker).buffer ≡ 99)
unfolding commands session perform write_byte read_byte set_byte get_lock_type find_lock
session_result = (refl, refl)

read_byte-write_byte_example :
    ((at : ℕ) → 4 ≤ at → lock_at at file.locked ≡ none)
    × ((at : ℕ)
        → get_elem? (10 ∷ 11 ∷ 12 ∷ 13 ∷ 99 ∷ []) at ≡ with_byte (get_elem? file.bytes) 4 99 at)
    × (read_byte memory 4 0 (record file { bytes = 10 ∷ 11 ∷ 12 ∷ 13 ∷ 99 ∷ [] }) ≡ (pos 0, 99))
unfolding write_byte get_lock_type find_lock
read_byte-write_byte_example =
    read_byte-write_byte memory memory-IsPosix 4 99 0 file
      (record file { bytes = 10 ∷ 11 ∷ 12 ∷ 13 ∷ 99 ∷ [] }) refl refl (ground arith)

session-Kept_example : Kept memory file (session memory commands locker).file
session-Kept_example = session-Kept memory memory-IsPosix commands locker
