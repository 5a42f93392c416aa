-- ===== src/Locker/Safety.antt =====
-- lab03/zad3: what the locks of other processes keep from happening.
use operating_systems_agh_la.Base.{
  ℕ, ◌≤◌, ◌≡◌, refl, ◌∙◌, sym, ap, ◌≢◌, inl, inr, Bool, true, false, Option, none, some, List, [],
  ◌∷◌, arith, if◌then◌else◌, Bool-cases, Option-cases, ◌==◌, ltb,
}
use operating_systems_agh_la.Base.Int.{ℤ, pos, negsuc}
use operating_systems_agh_la.Locker.Posix.{
  LockKind, read_lock, write_lock, Byte, Found, Answer, done, refused, failed, Kernel, IsPosix,
  zero_filled, with_byte,
}
use operating_systems_agh_la.Locker.{
  locked_byte, error, answered, type_of, set_byte, print_locks, get_lock_type, is_unlocked,
  is_write_lock, read_byte, write_byte,
}
use operating_systems_agh_la.Locker.Session.{
  Command, help, locks, lockread, lockwrite, unlock, read, write, exit, unknown, Message, Verdict,
  is_locked, is_error, is_success, is_zero, Locker, concluded, perform, session,
}

-- The locks of other processes are the same, and so is each byte of the file that they have locked.
pub record Kept (K : Kernel) (s t : K.State) : Type 0 where
  pub others : (at : ℕ) → K.others t at ≡ K.others s at
  pub content :
      (at : ℕ) → K.others s at ≢ none → K.content s at ≢ none → K.content t at ≡ K.content s at

module _ (K : Kernel) (law : IsPosix K) where
  kept : (s : K.State) → Kept K s s
  kept s = record { others = λ at. refl; content = λ at ne there. refl }

  and_then : {s t u : K.State} → Kept K s t → Kept K t u → Kept K s u
  and_then {s} {t} f g = record {
    others = λ at. g.others at ∙ f.others at;
    content = λ at ne there.
        let first = f.content at ne there in
        g.content at (λ e. ne (sym (f.others at) ∙ e)) (λ e. there (sym first ∙ e)) ∙ first;
  }

  answered-Kept :
      (s : K.State) (a : Answer K.State)
      → ((t : K.State) → a ≡ done t → Kept K s t)
      → Kept K s (answered K a s).1
  answered-Kept s (done t) h = h t refl
  answered-Kept s refused h = kept s
  answered-Kept s failed h = kept s

  set_byte-Kept :
      (offset : ℕ) (kind : Option LockKind) (s : K.State) → Kept K s (set_byte K offset kind s).1
  unfolding set_byte
  set_byte-Kept offset kind s = answered-Kept s (K.set_lock s offset 1 kind) λ t e. record {
    others = law.set_lock-others s t offset 1 kind e;
    content = λ at ne there. law.set_lock-content s t offset 1 kind e at;
  }

  unlocked_answer : (a : Option (Option Found)) → is_unlocked K (type_of K a) ≡ true → a ≡ some none
  unlocked_answer none e = ground arith
  unlocked_answer (some none) e = refl
  unlocked_answer (some (some l)) e = ground arith

  -- When `get_lock_type` finds nothing, no other process has a lock from `offset` on.
  free_from :
      (offset : ℕ) (s : K.State)
      → is_unlocked K (get_lock_type K offset s) ≡ true
      → (at : ℕ) → offset ≤ at
      → K.others s at ≡ none
  unfolding get_lock_type
  free_from offset s e at le =
      law.get_lock-free s offset 0 (unlocked_answer (K.get_lock s offset 0) e) at (le, inl refl)

  -- what stands in the file before the place that is written stays
  elsewhere :
      (offset at : ℕ) (b : Byte) (f : ℕ → Option Byte)
      → f at ≢ none
      → (offset ≤ at → ⊥)
      → with_byte f offset b at ≡ f at
  elsewhere offset at b f there before =
      let other : (at == offset) ≡ false = ground (arith, before) in
      let below : ltb at offset ≡ true = ground (arith, before) in
      rw (other, below) (filled (f at) there)
    where
      filled : (o : Option Byte) → o ≢ none → zero_filled o ≡ o
      filled none ne = absurd (ne refl)
      filled (some c) ne = refl

  write_byte-Kept : (offset : ℕ) (b : Byte) (s : K.State) → Kept K s (write_byte K offset b s).1
  unfolding write_byte
  write_byte-Kept offset b s = elim (Bool-cases (is_unlocked K (get_lock_type K offset s))) [
    | inl free ↦ elim (Bool-cases (K.seek s offset)) [
      | inl there ↦ elim (Option-cases (K.write s offset b)) [
        | inl fails ↦ rw (free, there, fails) (kept s)
        | inr (t, works) ↦
            rw (free, there, works)
              record {
                others = law.write-others s t offset b works;
                content = λ at ne there.
                    law.write-content s t offset b works at
                    ∙ elsewhere offset at b (K.content s) there
                        (λ le. ne (free_from offset s free at le));
              }
      ]
      | inr nowhere ↦ rw (free, nowhere) (kept s)
    ]
    | inr locked ↦ rw locked (kept s)
  ]

  -- `write_byte` returns LOCKED_BYTE and changes nothing while another process has a lock from `offset` on.
  pub write_byte-locked :
      (offset at : ℕ) (b : Byte) (s : K.State)
      → offset ≤ at
      → K.others s at ≢ none
      → write_byte K offset b s ≡ (locked_byte, s)
  unfolding write_byte get_lock_type
  write_byte-locked offset at b s le locked =
      elim (Bool-cases (is_unlocked K (get_lock_type K offset s))) [
        | inl free ↦ absurd (locked (free_from offset s free at le))
        | inr found ↦ rw found refl
      ]

  not_write_lock :
      (a : Option (Option Found))
      → ((l : Found) → a ≢ some (some l))
      → is_write_lock K (type_of K a) ≡ false
  not_write_lock none h = refl
  not_write_lock (some none) h = refl
  not_write_lock (some (some l)) h = absurd (h l refl)

  written :
      (offset : ℕ) (b old : Byte) (s t : K.State)
      → is_unlocked K (get_lock_type K offset s) ≡ true
      → K.write s offset b ≡ some t
      → K.seek t offset ≡ true
      → K.read t offset ≢ none
      → ((at : ℕ) → offset ≤ at → K.others s at ≡ none)
        × ((at : ℕ) → K.content t at ≡ with_byte (K.content s) offset b at)
        × (read_byte K offset old t ≡ (pos 0, b))
  unfolding read_byte get_lock_type
  written offset b old s t free works there readable = (
    free_from offset s free,
    law.write-content s t offset b works,
    elim (Option-cases (K.read t offset)) [
      | inl fails ↦ absurd (readable fails)
      | inr (r, reads) ↦
          let is_b : r ≡ some b =
            law.read-content t offset r reads
            ∙ law.write-content s t offset b works offset
            ∙ ground arith in
          rw (still_free, there, reads, is_b) refl
    ],
  )
    where
      still_free : is_write_lock K (type_of K (K.get_lock t offset 0)) ≡ false
      still_free = not_write_lock (K.get_lock t offset 0) λ l e.
          let found = law.get_lock-found t offset 0 l e in
          ground (
            arith,
            found.2,
            law.write-others s t offset b works found.0,
            free_from offset s free found.0 found.1.0,
          )

  -- When `write_byte` returns 0, no other process had a lock from `offset` on, that byte is
  -- written and no other byte of the file, which is filled up with zeros to a byte behind its end,
  -- and `read_byte` returns 0 and the byte, if `lseek` and `read` work.
  pub read_byte-write_byte :
      (offset : ℕ) (b old : Byte) (s t : K.State)
      → write_byte K offset b s ≡ (pos 0, t)
      → K.seek t offset ≡ true
      → K.read t offset ≢ none
      → ((at : ℕ) → offset ≤ at → K.others s at ≡ none)
        × ((at : ℕ) → K.content t at ≡ with_byte (K.content s) offset b at)
        × (read_byte K offset old t ≡ (pos 0, b))
  unfolding write_byte read_byte get_lock_type
  read_byte-write_byte offset b old s t e there readable =
      elim (Bool-cases (is_unlocked K (get_lock_type K offset s))) [
        | inl free ↦ elim (Bool-cases (K.seek s offset)) [
          | inl found ↦ elim (Option-cases (K.write s offset b)) [
            | inl fails ↦
                let never : ◌≡◌ {A = ℤ × K.State} (error, s) (pos 0, t) =
                  rw (free, found, fails) at e in
                ground arith
            | inr (u, works) ↦
                let same : ◌≡◌ {A = ℤ × K.State} (pos 0, u) (pos 0, t) =
                  rw (free, found, works) at e in
                written offset b old s t free (works ∙ ap (λ p. some p.1) same) there readable
          ]
          | inr nowhere ↦
              let never : ◌≡◌ {A = ℤ × K.State} (error, s) (pos 0, t) = rw (free, nowhere) at e in
              ground arith
        ]
        | inr locked ↦
            let never : ◌≡◌ {A = ℤ × K.State} (locked_byte, s) (pos 0, t) = rw locked at e in
            ground arith
      ]

  concluded-file :
      (offset : ℕ) (m : Message) (v : Verdict) (l : Locker K)
      → (concluded K offset m v l).file ≡ l.file
  concluded-file offset m is_locked l = refl
  concluded-file offset m is_error l = refl
  concluded-file offset m is_success l = refl

  either-Kept :
      (b : Bool) (l l' : Locker K) {s : K.State}
      → Kept K s l.file
      → Kept K s l'.file
      → Kept K s (if b then l else l').file
  either-Kept true l l' k k' = k
  either-Kept false l l' k k' = k'

  perform-Kept : (c : Command) (l : Locker K) → Kept K l.file (perform K c l).file
  unfolding perform
  perform-Kept help l = kept l.file
  perform-Kept locks l =
      either-Kept (is_zero (print_locks K l.file).0) _ _ (kept l.file) (kept l.file)
  perform-Kept (lockread (negsuc n)) l = kept l.file
  perform-Kept (lockread (pos offset)) l =
      rw concluded-file (set_byte-Kept offset (some read_lock) l.file)
  perform-Kept (lockwrite (negsuc n)) l = kept l.file
  perform-Kept (lockwrite (pos offset)) l =
      rw concluded-file (set_byte-Kept offset (some write_lock) l.file)
  perform-Kept (unlock (negsuc n)) l = kept l.file
  perform-Kept (unlock (pos offset)) l = rw concluded-file (set_byte-Kept offset none l.file)
  perform-Kept (read (negsuc n)) l = kept l.file
  perform-Kept (read (pos offset)) l = rw concluded-file (kept l.file)
  perform-Kept (write (negsuc n) b) l = kept l.file
  perform-Kept (write (pos offset) b) l = rw concluded-file (write_byte-Kept offset b l.file)
  perform-Kept exit l = kept l.file
  perform-Kept unknown l = kept l.file

  -- Whatever the user types, the locks of other processes stay, and every byte of the file that
  -- another process has locked keeps its value through the whole session.
  pub session-Kept : (cs : List Command) (l : Locker K) → Kept K l.file (session K cs l).file
  unfolding session
  session-Kept [] l = kept l.file
  session-Kept (c ∷ cs) l =
      either-Kept l.condition l (session K cs (perform K c l)) (kept l.file)
        (and_then (perform-Kept c l) (session-Kept cs (perform K c l)))
