-- ===== src/FileCount.antt =====
-- lab04/zad3/count.c: a process per directory counts the files with given extensions, and adds what
-- its children return as their exit status. A text is its bytes before the terminating zero.
pub mod Extensions
pub mod Total
mod Examples
use operating_systems_agh_la.Base.{
  ℕ, zero, suc, ◌+◌, ◌-◌, ◌%◌, Bool, true, false, Option, none, some, List, [], ◌∷◌, ◌++◌, length,
  drop, ◌==◌, ◌&&◌, leb, if◌then◌else◌,
}

abbrev pub Text : Type 0
Text = List ℕ

-- What `opendir`, `readdir` and `stat` give: a directory with its entries, in their order. `dots`
-- is "." or "..", `special` neither a file nor a directory; a text is the path of an entry.
mutual
  pub data Tree : Type 0 where
    unreadable : Tree
    directory : Entries → Tree

  pub data Entries : Type 0 where
    done : Entries
    dots : Entries → Entries
    file : (filepath : Text) → Entries → Entries
    subdirectory : (filepath : Text) → Tree → Entries → Entries
    special : Entries → Entries
    stat_error : Entries

-- Whether `fork` and `execvp` work for the path of a directory.
pub record World : Type 0 where
  pub forks : Text → Bool
  pub execs : Text → Bool

abbrev pub same_text : Text → Text → Bool
same_text [] [] = true
same_text [] (y ∷ ys) = false
same_text (x ∷ xs) [] = false
same_text (x ∷ xs) (y ∷ ys) = (x == y) && same_text xs ys

-- `filelen >= extlen && strcmp(e, filename + filelen - extlen) == 0`
abbrev pub ends_with : (filename e : Text) → Bool
ends_with filename e =
    leb (length e) (length filename) && same_text e (drop (length filename - length e) filename)

-- A token that is not empty, in front of others.
abbrev pub with_token : (token : Text) → List Text → List Text
with_token [] tokens = tokens
with_token (x ∷ xs) tokens = (x ∷ xs) ∷ tokens

-- The tokens that `strtok` finds between colons, with the bytes of the one it is in.
abbrev pub tokens_from : (token : Text) → Text → List Text
tokens_from token [] = with_token token []
tokens_from token (x ∷ xs) =
    if x == 58 then with_token token (tokens_from [] xs) else tokens_from (token ++ (x ∷ [])) xs

abbrev pub any_ends : (filename : Text) → List Text → Bool
any_ends filename [] = false
any_ends filename (e ∷ es) = if ends_with filename e then true else any_ends filename es

-- Without a token `exts` is compared as it is.
abbrev pub matches_tokens : (exts filename : Text) → List Text → Bool
matches_tokens exts filename [] = ends_with filename exts
matches_tokens exts filename (e ∷ es) = any_ends filename (e ∷ es)

-- `matches`; `none` is a variable that is not set.
abbrev pub matches : (extensions : Option Text) → (filename : Text) → Bool
matches none filename = true
matches (some []) filename = true
matches (some (x ∷ xs)) filename = matches_tokens (x ∷ xs) filename (tokens_from [] (x ∷ xs))

-- What a child returns, read by WEXITSTATUS; `none` is -1.
abbrev pub exit_status : Option ℕ → ℕ
exit_status none = 0
exit_status (some counter) = counter % 256

abbrev pub plus : Option ℕ → ℕ → Option ℕ
plus none k = none
plus (some counter) k = some (counter + k)

module _ (w : World) (extensions : Option Text) where
  mutual
    -- `walk`, with the loop over the entries and what the children add to it.
    pub walk : Tree → Option ℕ
    walk unreadable = none
    walk (directory es) = walk_entries es

    pub walk_entries : Entries → Option ℕ
    walk_entries done = some 0
    walk_entries (dots es) = walk_entries es
    walk_entries (file filepath es) =
        plus (walk_entries es) (if matches extensions filepath then 1 else 0)
    walk_entries (subdirectory filepath t es) =
        if w.forks filepath
        then plus (walk_entries es) (if w.execs filepath then exit_status (walk t) else 0)
        else none
    walk_entries (special es) = walk_entries es
    walk_entries stat_error = none
