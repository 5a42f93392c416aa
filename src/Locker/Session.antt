-- ===== src/Locker/Session.antt =====
-- The loop of lab03/zad3/main.c on the commands that a user types, up to `exit`, an error or the
-- last of them.
use operating_systems_agh_la.Base.{
  ℕ, zero, suc, ◌==◌, Bool, true, false, List, [], ◌∷◌, ◌++◌, if◌then◌else◌,
}
use operating_systems_agh_la.Base.Int.{ℤ, pos, negsuc}
use operating_systems_agh_la.Locker.Posix.{Byte, Found, Kernel}
use operating_systems_agh_la.Locker.{
  lock_byte_R, lock_byte_W, unlock_byte, read_byte, write_byte, print_locks,
}

-- A command with the offset and the byte that the user is asked for.
pub data Command : Type 0 where
  help : Command
  locks : Command
  lockread : ℤ → Command
  lockwrite : ℤ → Command
  unlock : ℤ → Command
  read : ℤ → Command
  write : ℤ → Byte → Command
  exit : Command
  unknown : Command

-- What is printed, apart from prompts.
pub data Message : Type 0 where
  help_text : Message
  lock_list : List Found → Message
  invalid_offset : Message
  invalid_command : Message
  byte_is_locked : ℕ → Message
  unable : ℕ → Message
  unable_to_list : Message
  success : ℕ → Message
  byte_is : ℕ → Byte → Message

-- how a result is treated: `LOCKED_BYTE`, another error, success
pub data Verdict : Type 0 where
  is_locked : Verdict
  is_error : Verdict
  is_success : Verdict

abbrev pub verdict : ℤ → Verdict
verdict (pos zero) = is_success
verdict (pos (suc n)) = is_error
verdict (negsuc n) = if n == 31 then is_locked else is_error

abbrev pub is_zero : ℤ → Bool
is_zero (pos zero) = true
is_zero _ = false

module _ (K : Kernel) where
  -- The variables of `main` and the file; `condition` is true when the loop is to stop.
  pub record Locker : Type 0 where
    pub condition : Bool
    pub buffer : Byte
    pub file : K.State
    pub printed : List Message

  abbrev pub say : Message → Locker → Locker
  say m l = record l { printed = l.printed ++ m ∷ [] }

  -- What the branches do with the result of a call.
  abbrev pub concluded : ℕ → Message → Verdict → Locker → Locker
  concluded offset good is_locked l = say (byte_is_locked offset) l
  concluded offset good is_error l = record (say (unable offset) l) { condition = true }
  concluded offset good is_success l = say good l

  abbrev pub conclude : ℕ → Message → ℤ → Locker → Locker
  conclude offset good result l = concluded offset good (verdict result) l

  unfoldable pub perform : Command → Locker → Locker
  unfolding read_byte write_byte
  perform help l = say help_text l
  perform locks l =
      let (result, found) = print_locks K l.file in
      if is_zero result
      then say (lock_list found) l
      else record (say unable_to_list (say (lock_list found) l)) { condition = true }
  perform (lockread (negsuc n)) l = say invalid_offset l
  perform (lockread (pos offset)) l =
      let (result, s) = lock_byte_R K offset l.file in
      conclude offset (success offset) result (record l { file = s })
  perform (lockwrite (negsuc n)) l = say invalid_offset l
  perform (lockwrite (pos offset)) l =
      let (result, s) = lock_byte_W K offset l.file in
      conclude offset (success offset) result (record l { file = s })
  perform (unlock (negsuc n)) l = say invalid_offset l
  perform (unlock (pos offset)) l =
      let (result, s) = unlock_byte K offset l.file in
      conclude offset (success offset) result (record l { file = s })
  perform (read (negsuc n)) l = say invalid_offset l
  perform (read (pos offset)) l =
      let (result, b) = read_byte K offset l.buffer l.file in
      conclude offset (byte_is offset b) result (record l { buffer = b })
  perform (write (negsuc n) b) l = say invalid_offset (record l { buffer = b })
  perform (write (pos offset) b) l =
      let (result, s) = write_byte K offset b l.file in
      conclude offset (success offset) result (record l { buffer = b; file = s })
  perform exit l = record l { condition = true }
  perform unknown l = say invalid_command l

  unfoldable pub session : List Command → Locker → Locker
  unfolding perform
  session [] l = l
  session (c ∷ cs) l = let rest = session cs (perform c l) in if l.condition then l else rest
