-- ===== src/Paths/Tests.antt =====
-- Runs and instances for kernel/fs/pparser.c.
use rorth_ox.Prelude.{ℕ, ◌+◌, ◌*◌, ◌≡◌, arith, true, false, none, some, List, [], ◌∷◌, length}
use rorth_ox.Paths.{Memory, PathRoot, parse}
use rorth_ox.Paths.Leaks.{parse-live}
use rorth_ox.Paths.Names.{Plain, done, byte, Names, no_names, named, joined, granting, parse-joined}

-- "bin" and "sh"
abbrev bin : List ℕ
bin = b'b' ∷ b'i' ∷ b'n' ∷ []

abbrev sh : List ℕ
sh = b's' ∷ b'h' ∷ []

abbrev program : List (List ℕ)
program = bin ∷ sh ∷ []

bin-Plain : Plain bin
bin-Plain = byte b'b' (b'i' ∷ b'n' ∷ []) (omega arith) (omega arith) (
    byte b'i' (b'n' ∷ []) (omega arith) (omega arith)
      (byte b'n' [] (omega arith) (omega arith) done))

sh-Plain : Plain sh
sh-Plain =
    byte b's' (b'h' ∷ []) (omega arith) (omega arith)
      (byte b'h' [] (omega arith) (omega arith) done)

program-Names : Names program
program-Names =
    named b'b' (b'i' ∷ b'n' ∷ []) (sh ∷ []) bin-Plain (omega arith)
      (named b's' (b'h' ∷ []) [] sh-Plain (omega arith) no_names)

parse-joined_example :
    (parse ((48 + 0) ∷ b':' ∷ b'/' ∷ joined program) (granting (1 + 2 * length program + 0) 7)).0
    ≡ some (record { drive_no = 0; parts = program })
unfolding joined
parse-joined_example = parse-joined 0 0 7 program (omega arith) program-Names (omega arith)

-- "0:/a", where the second of the three allocations fails
abbrev short_of_memory : Memory
short_of_memory = record { outcomes = true ∷ false ∷ []; live = 3 }

abbrev path_a : List ℕ
path_a = b'0' ∷ b':' ∷ b'/' ∷ b'a' ∷ []

parse-live_example :
    ((parse path_a short_of_memory).0 ≡ none → (parse path_a short_of_memory).1.live ≡ 3)
    × ((root : PathRoot)
        → (parse path_a short_of_memory).0 ≡ some root
        → (parse path_a short_of_memory).1.live ≡ 3 + 1 + 2 * length root.parts)
parse-live_example = parse-live path_a short_of_memory
