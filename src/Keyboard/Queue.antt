-- ===== src/Keyboard/Queue.antt =====
-- What the keyboard buffer promises: a FIFO of at most 1024 keys. 0 is no key, and a key for a
-- full queue is dropped.
use rorth_ox.Prelude.{ℕ, List, [], ◌∷◌, ◌++◌, ◌||◌, leb, ◌==◌, if◌then◌else◌, length}
use rorth_ox.Keyboard.{Op, push_key, pop_key, buffer_size}

unfoldable pub push : List ℕ → ℕ → List ℕ
push q c = if c == 0 || leb buffer_size (length q) then q else q ++ (c ∷ [])

unfoldable pub pop : List ℕ → ℕ × List ℕ
pop [] = (0, [])
pop (c ∷ q) = (c, q)

unfoldable pub run : List ℕ → List Op → List ℕ × List ℕ
run q [] = ([], q)
run q (push_key c ∷ ops) = run (push q c) ops
run q (pop_key ∷ ops) = let (c, q') = pop q in let (cs, q'') = run q' ops in (c ∷ cs, q'')
