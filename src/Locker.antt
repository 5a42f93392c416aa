-- ===== src/Locker.antt =====
-- lab03/zad3: the calls of secure.c on single bytes of a file, under the locks that other processes
-- have on it. A function returns its result and the state of the file.
pub mod Posix
pub mod Session
pub mod Safety
mod Examples
use operating_systems_agh_la.Base.{
  ℕ, zero, suc, ◌+◌, ◌<◌, ◌≡◌, Bool, true, false, Option, none, some, List, [], ◌∷◌, ◌++◌,
  if◌then◌else◌, ◌||◌, not,
}
use operating_systems_agh_la.Base.Int.{ℤ, pos, negsuc}
use operating_systems_agh_la.Locker.Posix.{
  LockKind, read_lock, write_lock, Byte, Found, Answer, done, refused, failed, Kernel,
}

-- LOCKED_BYTE, which is -0x20
abbrev pub locked_byte : ℤ
locked_byte = negsuc 31

-- `-1` of the calls
abbrev pub error : ℤ
error = negsuc 0

module _ (K : Kernel) where
  -- what the three functions on locks make of the answer to F_SETLK
  abbrev pub answered : Answer K.State → K.State → ℤ × K.State
  answered (done t) s = (pos 0, t)
  answered refused s = (locked_byte, s)
  answered failed s = (error, s)

  -- F_SETLK by `do_fcntl`, for one byte
  unfoldable pub set_byte : ℕ → Option LockKind → K.State → ℤ × K.State
  set_byte offset kind s = answered (K.set_lock s offset 1 kind) s

  abbrev pub lock_byte_R : ℕ → K.State → ℤ × K.State
  lock_byte_R offset s = set_byte offset (some read_lock) s

  abbrev pub lock_byte_W : ℕ → K.State → ℤ × K.State
  lock_byte_W offset s = set_byte offset (some write_lock) s

  abbrev pub unlock_byte : ℕ → K.State → ℤ × K.State
  unlock_byte offset s = set_byte offset none s

  abbrev pub type_of : Option (Option Found) → Option (Option LockKind)
  type_of none = none
  type_of (some none) = some none
  type_of (some (some l)) = some (some l.kind)

  -- `l_len` is 0 here, which reaches to the end of the file; `none` is the result -1.
  unfoldable pub get_lock_type : ℕ → K.State → Option (Option LockKind)
  get_lock_type offset s = type_of (K.get_lock s offset 0)

  abbrev pub is_write_lock : Option (Option LockKind) → Bool
  is_write_lock (some (some write_lock)) = true
  is_write_lock _ = false

  abbrev pub is_unlocked : Option (Option LockKind) → Bool
  is_unlocked (some none) = true
  is_unlocked _ = false

  -- The second component is `*buffer`, which `read` leaves alone at the end of the file.
  unfoldable pub read_byte : ℕ → Byte → K.State → ℤ × Byte
  unfolding get_lock_type
  read_byte offset buffer s =
      if is_write_lock (get_lock_type offset s)
      then (locked_byte, buffer)
      else if K.seek s offset
      then elim (K.read s offset) [
        | none ↦ (error, buffer)
        | some none ↦ (pos 0, buffer)
        | some (some b) ↦ (pos 0, b)
      ]
      else (error, buffer)

  unfoldable pub write_byte : ℕ → Byte → K.State → ℤ × K.State
  unfolding get_lock_type
  write_byte offset buffer s =
      if is_unlocked (get_lock_type offset s)
      then if K.seek s offset
        then elim (K.write s offset buffer) [ none ↦ (error, s) | some t ↦ (pos 0, t) ]
        else (error, s)
      else (locked_byte, s)

  -- The loop of `print_locks` from `curr` on: the result, and the locks that it has printed.
  unfoldable pub print_from : ℕ → ℕ → List Found → K.State → ℤ × List Found
  print_from zero curr printed s = (pos 0, printed)
  print_from (suc rounds) curr printed s = elim (K.get_lock s curr 1) [
    | none ↦ (error, printed)
    | some none ↦ print_from rounds (suc curr) printed s
    | some (some l) ↦ print_from rounds (suc curr) (printed ++ l ∷ []) s
  ]

  abbrev pub print_locks : K.State → ℤ × List Found
  print_locks s = print_from (K.size s) 0 [] s
