-- ===== src/Files/Names.antt =====
-- kernel/fs/file.c: the grammar of the paths that `file_validate_path` takes.
use rorth_ox.Prelude.{ℕ, ◌<◌, ◌≡◌, List, ◌∷◌, length}
use rorth_ox.Paths.{max_path}
use rorth_ox.Files.Grammar.{IsPath}

abbrev pub Accepted : List ℕ → Type 0
Accepted filename =
    (path : List ℕ) × (filename ≡ b'0' ∷ b':' ∷ b'/' ∷ path)
    × IsPath path
    × (length filename < max_path)
