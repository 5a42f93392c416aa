-- ===== src/Finder/Examine.antt =====
-- lab09/zad1/finder.c: the tests at one place of a block, and the `read` behind the block.
use operating_systems_agh_la.Base.{
  ℕ, zero, suc, ◌+◌, ◌-◌, ◌<◌, ◌≤◌, ◌≡◌, refl, sym, ap, subst, ◌∙◌, ◌≢◌, ◌⊎◌, inl, inr, true, false,
  some, List, [], ◌∷◌, length, get_elem?, take, drop, arith, ◌==◌, ltb, Bool-cases,
}
use mathlib.Core.Option.{some-injective}
use operating_systems_agh_la.Finder.{
  Mode, detached, goes_on, int_limit, in_int, Reads, Step, agrees, continued, examine,
}
use operating_systems_agh_la.Base.Slices.{get_elem?-drop}
use operating_systems_agh_la.Finder.Within.{
  ReadsFile, OccursTo, Occurs, Every, IsIn, Piece, take-Piece,
}
use operating_systems_agh_la.Finder.Scan.{Advanced}

-- The buffer holds the `size` bytes of the file from `position` on, a whole buffer unless the file
-- ends. The places in the file are an `int`.
pub record Block (file : List ℕ) (buffer_size : ℕ) (buffer : ℕ → ℕ) (position size : ℕ)
    : Type 0 where
  pub byte_at : (i : ℕ) → i < size → get_elem? file (position + i) ≡ some (buffer i)
  pub fits : size ≤ buffer_size
  pub full : size < buffer_size → length file ≤ position + size
  pub inside : position + size ≤ length file
  pub small : length file < int_limit

pub get_elem?-below : (xs : List ℕ) (i : ℕ) → i < length xs → (c : ℕ) × (get_elem? xs i ≡ some c)
get_elem?-below [] i lt = absurd (omega arith)
get_elem?-below (x ∷ xs) zero lt = (x, refl)
get_elem?-below (x ∷ xs) (suc i) lt = get_elem?-below xs i (omega arith)

pub get_elem?-some : (xs : List ℕ) (i c : ℕ) → get_elem? xs i ≡ some c → i < length xs
get_elem?-some [] i c e = cc
get_elem?-some (x ∷ xs) zero c e = omega arith
get_elem?-some (x ∷ xs) (suc i) c e = omega (arith, get_elem?-some xs i c e)

not_dead : (mode : Mode) → mode ≡ detached → goes_on mode ≡ false → ⊥
not_dead mode e dead = let d : true ≡ false = subst (λ v. goes_on v ≡ false) e dead in cc

module _ (mode : Mode) (read : Reads) (pattern : List ℕ) (buffer_size : ℕ) where
  agrees-same :
      (bs cs : List ℕ)
      → agrees mode read pattern buffer_size bs cs ≡ true
      → (j : ℕ) → j < length bs
      → get_elem? bs j ≡ get_elem? cs j
  unfolding agrees
  agrees-same [] cs e j lt = absurd (omega arith)
  agrees-same (b ∷ bs) [] e j lt = cc
  agrees-same (b ∷ bs) (c ∷ cs) e zero lt = let same : b ≡ c = ground (arith, e) in ap some same
  agrees-same (b ∷ bs) (c ∷ cs) e (suc j) lt = agrees-same bs cs (ground (arith, e)) j (omega arith)

  module _ (file : List ℕ) (reads : ReadsFile read file) (some_pattern : 0 < length pattern)
      (short_pattern : length pattern ≤ buffer_size) (buffer : ℕ → ℕ) (position size : ℕ)
      (bl : Block file buffer_size buffer position size) where
    abbrev Sound : ℕ → Type 0
    Sound p = OccursTo file pattern p (length file)

    -- The outcome of the tests at `k`.
    pub record Examined (k read_check : ℕ) (s : Step) : Type 0 where
      pub sound : Every Sound s.found
      pub bound : s.read_check ≤ size
      pub kept : read_check ≡ size → (s.read_check ≡ size) ⊎ (size < k + length pattern)
      pub complete :
          read_check ≡ size
          → k + length pattern ≤ size
          → Occurs file pattern (position + k)
          → IsIn (position + k) s.found
      pub ends :
          mode ≡ detached
          → s.alive ≡ false
          → (length file ≤ position + size) × (size < k + length pattern)

    module _ (k m read_check : ℕ) (lt : k < read_check) (le : read_check ≤ size)
        (ad : Advanced mode read pattern buffer_size buffer read_check pattern k m) where
      file_at : (j : ℕ) → j < m → get_elem? file (position + k + j) ≡ some (buffer (k + j))
      file_at j lt' =
          let place : position + k + j ≡ position + (k + j) = omega arith in
          ap (get_elem? file) place ∙ bl.byte_at (k + j) (omega (arith, ad.to))

      -- The signs that were compared.
      compared :
          (j c : ℕ)
          → get_elem? pattern j ≡ some c
          → j < m
          → get_elem? file (position + k + j) ≡ some c
      compared j c at lt' = file_at j lt' ∙ sym (ad.same j lt') ∙ at

      -- The whole pattern was found.
      whole-Sound : m ≡ length pattern → Sound (position + k)
      whole-Sound e j c at inside = compared j c at (omega (arith, get_elem?-some pattern j c at))

      Examined-whole :
          m ≡ length pattern
          → Examined k read_check (record {
            found = (position + k) ∷ [];
            alive = goes_on mode;
            read_check = read_check;
          })
      Examined-whole e = record {
        sound = (whole-Sound e, tt);
        bound = le;
        kept = λ whole. inl whole;
        complete = λ whole fits occurs. inl refl;
        ends = λ is_detached dead. absurd (not_dead mode is_detached dead);
      }

      differs_not :
          k + length pattern ≤ size
          → Occurs file pattern (position + k)
          → ((c : ℕ) → get_elem? pattern m ≡ some c → buffer (k + m) ≢ c)
          → m ≢ length pattern
          → ⊥
      differs_not fits occurs differs e =
          let (c, at) = get_elem?-below pattern m (omega (arith, ad.most)) in
          let place : position + (k + m) ≡ position + k + m = omega arith in
          differs c at (
            some-injective (buffer (k + m)) c (
              sym (bl.byte_at (k + m) (omega (arith, ad.most)))
              ∙ ap (get_elem? file) place
              ∙ occurs m c at))

      -- A difference before the end of the block.
      Examined-none :
          m ≢ length pattern
          → k + m ≢ read_check
          → Examined k read_check (record { found = []; alive = true; read_check = read_check })
      Examined-none e e' = record {
        sound = tt;
        bound = le;
        kept = λ whole. inl whole;
        complete = λ whole fits occurs. elim ad.stop [
          | inl all ↦ e all
          | inr (inl end) ↦ e' end
          | inr (inr differs) ↦ differs_not fits occurs differs e
        ];
        ends = λ is_detached dead. cc;
      }

      bounded :
          m ≢ length pattern
          → k + m ≡ read_check
          → (bytes : List ℕ)
          → Piece file (position + read_check) (length pattern - (k + m - k)) bytes
          → 0 < length bytes
          → length bytes ≤ size
      bounded e e' bytes piece some_bytes = elim (Bool-cases (ltb size buffer_size)) [
        | inl last ↦ omega (arith, piece.inside some_bytes, bl.full (ground arith))
        | inr whole ↦ let fills : buffer_size ≤ size = ground arith in omega (arith, piece.at_most)
      ]

      was_read :
          k + m ≡ read_check
          → (bytes : List ℕ)
          → Piece file (position + read_check) (length pattern - (k + m - k)) bytes
          → (j : ℕ) → m ≤ j
          → j < length pattern
          → position + k + j < length file
          → j - m < length bytes
      was_read e' bytes piece j far in_pattern inside =
          elim (Bool-cases (ltb (j - m) (length bytes))) [
            | inl lt' ↦ ground arith
            | inr ge ↦
                let ge' : length bytes ≤ j - m = ground arith in
                absurd (omega (arith, piece.short (omega arith)))
          ]

      continued-Sound :
          m ≢ length pattern
          → k + m ≡ read_check
          → (bytes : List ℕ)
          → Piece file (position + read_check) (length pattern - (k + m - k)) bytes
          → agrees mode read pattern buffer_size bytes (drop (k + m - k) pattern) ≡ true
          → Sound (position + k)
      continued-Sound e e' bytes piece same j c at inside = elim (Bool-cases (ltb j m)) [
        | inl here ↦ compared j c at (ground arith)
        | inr behind ↦
            let far : m ≤ j = ground arith in
            let place : position + k + j ≡ position + read_check + (j - m) = omega arith in
            let index : (k + m - k) + (j - m) ≡ j = omega arith in
            let lt' : j - m < length bytes =
              was_read e' bytes piece j far (get_elem?-some pattern j c at) inside in
            ap (get_elem? file) place
            ∙ sym (piece.bytes_at (j - m) lt')
            ∙ agrees-same bytes (drop (k + m - k) pattern) same (j - m) lt'
            ∙ get_elem?-drop (k + m - k) pattern (j - m)
            ∙ ap (get_elem? pattern) index
            ∙ at
      ]

      -- The pattern goes on behind the block.
      Examined-continued :
          m ≢ length pattern
          → k + m ≡ read_check
          → (bytes : List ℕ)
          → Piece file (position + read_check) (length pattern - (k + m - k)) bytes
          → Examined k read_check
              (continued mode read pattern buffer_size position k (k + m) read_check (some bytes))
      unfolding continued
      Examined-continued e e' [] piece = record {
        sound = tt;
        bound = omega arith;
        kept = λ whole. inr (omega (arith, ad.most));
        complete = λ whole fits occurs. absurd (omega (arith, ad.most));
        ends = λ is_detached dead.
            omega (arith, piece.short (omega (arith, ad.most)), bl.inside, ad.most);
      }
      Examined-continued e e' (b ∷ bs) piece =
          elim (Bool-cases
            (agrees mode read pattern buffer_size (b ∷ bs) (drop (k + m - k) pattern))) [
              | inl same ↦ rw same record {
                sound = (continued-Sound e e' (b ∷ bs) piece same, tt);
                bound = bounded e e' (b ∷ bs) piece (omega arith);
                kept = λ whole. inr (omega (arith, ad.most));
                complete = λ whole fits occurs. absurd (omega (arith, ad.most));
                ends = λ is_detached dead. absurd (not_dead mode is_detached dead);
              }
              | inr other ↦ rw other record {
                sound = tt;
                bound = bounded e e' (b ∷ bs) piece (omega arith);
                kept = λ whole. inr (omega (arith, ad.most));
                complete = λ whole fits occurs. absurd (omega (arith, ad.most));
                ends = λ is_detached dead. cc;
              }
            ]

      pub in_int-true : in_int mode read pattern buffer_size position k (k + m) read_check ≡ true
      unfolding in_int
      in_int-true =
          let size_ok : position + read_check < int_limit = omega (arith, bl.inside, bl.small) in
          ground arith

      pub examine-Examined :
          Examined k read_check
            (examine mode read pattern buffer_size position k (k + m) read_check)
      unfolding examine
      examine-Examined = elim (Bool-cases (k + m - k == length pattern)) [
        | inl whole ↦ rw whole (Examined-whole (ground arith))
        | inr part ↦ elim (Bool-cases (k + m == read_check)) [
          | inl end ↦
              rw (part, end, reads (position + read_check) (length pattern - (k + m - k)))
                (Examined-continued (ground arith) (ground arith)
                  (take (length pattern - (k + m - k)) (drop (position + read_check) file))
                  (take-Piece file (position + read_check) (length pattern - (k + m - k))))
          | inr inside ↦ rw (part, inside) (Examined-none (ground arith) (ground arith))
        ]
      ]
