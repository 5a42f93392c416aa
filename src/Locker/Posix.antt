-- ===== src/Locker/Posix.antt =====
-- The system calls that lab03/zad3/secure.c makes on an open file, for one process, and what it
-- relies on of them.
use operating_systems_agh_la.Base.{
  ℕ, ◌+◌, ◌≤◌, ◌<◌, ◌≡◌, ◌⊎◌, Bool, Option, none, some, ◌==◌, ltb, if◌then◌else◌,
}

-- F_RDLCK and F_WRLCK; `none` stands for F_UNLCK
pub data LockKind : Type 0 where
  read_lock : LockKind
  write_lock : LockKind

abbrev pub Byte : Type 0
Byte = ℕ

-- a lock that F_GETLK reports
pub record Found : Type 0 where
  pub pid : ℕ
  pub start : ℕ
  pub kind : LockKind

-- what F_SETLK answers: the new state, EACCES or EAGAIN, or another error
pub data Answer (S : Type 0) : Type 0 where
  done : S → Answer S
  refused : Answer S
  failed : Answer S

-- `get_lock` asks whether a write lock could be set; `none` is an error, `some none` is F_UNLCK.
-- `read` gives `some none` at the end of the file. `others` and `content` say what a state holds:
-- the lock of another process on a byte, and the byte.
pub record Kernel : Type 1 where
  pub State : Type 0
  pub set_lock : State → (start len : ℕ) → Option LockKind → Answer State
  pub get_lock : State → (start len : ℕ) → Option (Option Found)
  pub seek : State → ℕ → Bool
  pub read : State → ℕ → Option (Option Byte)
  pub write : State → ℕ → Byte → Option State
  pub size : State → ℕ
  pub others : State → ℕ → Option LockKind
  pub content : State → ℕ → Option Byte

-- A byte written at `at`: between the end of the file and that place the bytes become zeros.
abbrev pub zero_filled : Option Byte → Option Byte
zero_filled none = some 0
zero_filled (some b) = some b

abbrev pub with_byte : (ℕ → Option Byte) → (at : ℕ) → Byte → ℕ → Option Byte
with_byte f at b at' =
    if at' == at then some b else if ltb at' at then zero_filled (f at') else f at'

-- a length of 0 reaches to the end of the file
abbrev pub Covers : (start len at : ℕ) → Type 0
Covers start len at = (start ≤ at) × ((len ≡ 0) ⊎ (at < start + len))

pub record IsPosix (K : Kernel) : Type 0 where
  pub set_lock-others :
      (s t : K.State) (start len : ℕ) (kind : Option LockKind)
      → K.set_lock s start len kind ≡ done t
      → (at : ℕ) → K.others t at ≡ K.others s at
  pub set_lock-content :
      (s t : K.State) (start len : ℕ) (kind : Option LockKind)
      → K.set_lock s start len kind ≡ done t
      → (at : ℕ) → K.content t at ≡ K.content s at
  pub get_lock-free :
      (s : K.State) (start len : ℕ)
      → K.get_lock s start len ≡ some none
      → (at : ℕ) → Covers start len at
      → K.others s at ≡ none
  pub get_lock-found :
      (s : K.State) (start len : ℕ) (l : Found)
      → K.get_lock s start len ≡ some (some l)
      → (at : ℕ) × Covers start len at × (K.others s at ≡ some l.kind)
  pub read-content :
      (s : K.State) (at : ℕ) (r : Option Byte) → K.read s at ≡ some r → r ≡ K.content s at
  pub write-others :
      (s t : K.State) (at : ℕ) (b : Byte)
      → K.write s at b ≡ some t
      → (at' : ℕ) → K.others t at' ≡ K.others s at'
  pub write-content :
      (s t : K.State) (at : ℕ) (b : Byte)
      → K.write s at b ≡ some t
      → (at' : ℕ) → K.content t at' ≡ with_byte (K.content s) at b at'
