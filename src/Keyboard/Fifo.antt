-- ===== src/Keyboard/Fifo.antt =====
-- The buffer behaves as a bounded queue of keys, also when its counters wrap at 2^32.
use rorth_ox.Prelude.{
  ℕ, zero, suc, ◌+◌, ◌-◌, ◌%◌, ◌^◌, ◌≤◌, ◌<◌, ◌≡◌, refl, ◌∙◌, ap, ap₂, sym, List, [], ◌∷◌, ◌++◌,
  Option, some, arith, u32, lt_or_le, eq_or_ne, ◌≢◌, ◌⊎◌, inl, inr, length, get_or, set, length-set,
  get_or-set_self, get_or-set_ne,
}
use rorth_ox.Keyboard.Queue
use rorth_ox.Keyboard.{
  KeyboardBuffer, buffer_size, buffer_index, unread, is_full, push, pop, Op, push_key, pop_key, run,
}

-- The `n` keys from counter `h` on.
abbrev pub items : List ℕ → ℕ → ℕ → List ℕ
items buf h zero = []
items buf h (suc n) = get_or buf (h % buffer_size) 0 ∷ items buf (h + 1) n

abbrev pub contents : KeyboardBuffer → List ℕ
contents k = items k.buffer k.head (unread k)

-- The slots from `head` to `tail` hold keys, and the others 0.
pub record IsValid (k : KeyboardBuffer) : Type 0 where
  pub size : length k.buffer ≡ buffer_size
  pub tail_fits : k.tail < 2 ^ 32
  pub head_fits : k.head < 2 ^ 32
  pub bounded : unread k ≤ buffer_size
  pub used : (i : ℕ) → i < unread k → get_or k.buffer ((k.head + i) % buffer_size) 0 ≢ 0
  pub unused :
      (i : ℕ) → unread k ≤ i → i < buffer_size → get_or k.buffer ((k.head + i) % buffer_size) 0 ≡ 0

length-items : (buf : List ℕ) (h n : ℕ) → length (items buf h n) ≡ n
length-items buf h zero = refl
length-items buf h (suc n) = ap suc (length-items buf (h + 1) n)

items-mod :
    (buf : List ℕ) (h h' n : ℕ)
    → h % buffer_size ≡ h' % buffer_size
    → items buf h n ≡ items buf h' n
items-mod buf h h' zero e = refl
items-mod buf h h' (suc n) e =
    ap₂ ◌∷◌ (ap (λ i. get_or buf i 0) e) (items-mod buf (h + 1) (h' + 1) n (omega arith))

items-set :
    (buf : List ℕ) (j v h n : ℕ)
    → ((i : ℕ) → i < n → (h + i) % buffer_size ≢ j)
    → items (set buf j v) h n ≡ items buf h n
items-set buf j v h zero other = refl
items-set buf j v h (suc n) other =
    ap₂ ◌∷◌ (get_or-set_ne buf j (h % buffer_size) v 0 (omega (arith, other 0 (omega arith))))
      (items-set buf j v (h + 1) n (λ i p. omega (arith, other (suc i) (omega arith))))

-- Writing just past the keys adds one at the end.
items-append :
    (buf : List ℕ) (j v h n : ℕ)
    → j ≡ (h + n) % buffer_size
    → j < length buf
    → n < buffer_size
    → items (set buf j v) h (suc n) ≡ items buf h n ++ (v ∷ [])
items-append buf j v h zero e inside small =
    ap (λ c. c ∷ [])
      (ap (λ i. get_or (set buf j v) i 0) (omega arith) ∙ get_or-set_self buf j v 0 inside)
items-append buf j v h (suc n) e inside small =
    ap₂ ◌∷◌ (get_or-set_ne buf j (h % buffer_size) v 0 (omega arith))
      (items-append buf j v (h + 1) n (omega arith) inside (omega arith))

items_of_ne_zero :
    (buf : List ℕ) (h n : ℕ)
    → n ≢ 0
    → items buf h n ≡ get_or buf (h % buffer_size) 0 ∷ items buf (h + 1) (n - 1)
items_of_ne_zero buf h zero p = absurd (p refl)
items_of_ne_zero buf h (suc n) p = ap (λ m. items buf h (suc m)) (omega arith)

-- The state after a push that is not dropped.
abbrev pushed : KeyboardBuffer → ℕ → KeyboardBuffer
pushed k c = record {
  buffer = set k.buffer (buffer_index k.tail) c;
  tail = u32 (k.tail + 1);
  head = k.head;
}

module _ (k : KeyboardBuffer) (c : ℕ) (v : IsValid k) (key : c ≢ 0)
    (room : unread k < buffer_size) where
  tail_slot : k.tail % buffer_size ≡ (k.head + unread k) % buffer_size
  tail_slot = omega (arith, v.tail_fits, v.head_fits)

  unread-pushed : unread (pushed k c) ≡ unread k + 1
  unread-pushed = omega (arith, v.tail_fits, v.head_fits)

  pushed_slot :
      (i : ℕ)
      → i < buffer_size
      → i ≢ unread k
      → get_or (pushed k c).buffer ((k.head + i) % buffer_size) 0
        ≡ get_or k.buffer ((k.head + i) % buffer_size) 0
  unfolding buffer_index
  pushed_slot i p ne =
      get_or-set_ne k.buffer (k.tail % buffer_size) ((k.head + i) % buffer_size) c 0
        (omega (arith, tail_slot))

  pushed-IsValid : IsValid (pushed k c)
  unfolding buffer_index
  pushed-IsValid = record {
    size = length-set k.buffer (k.tail % buffer_size) c ∙ v.size;
    tail_fits = omega arith;
    head_fits = v.head_fits;
    bounded = omega (arith, unread-pushed);
    used = λ i p. elim (eq_or_ne i (unread k)) [
      | inl e ↦
          let at : (k.head + i) % buffer_size ≡ k.tail % buffer_size =
            omega (arith, e, tail_slot) in
          rw (at, get_or-set_self k.buffer (k.tail % buffer_size) c 0 (omega (arith, v.size))) key
      | inr ne ↦
          rw (pushed_slot i (omega (arith, unread-pushed)) ne)
            (v.used i (omega (arith, unread-pushed)))
    ];
    unused = λ i p q.
        rw (pushed_slot i q (omega (arith, unread-pushed)))
          (v.unused i (omega (arith, unread-pushed)) q);
  }

  contents-pushed : contents (pushed k c) ≡ contents k ++ (c ∷ [])
  unfolding buffer_index
  contents-pushed =
      let one_more : unread k + 1 ≡ suc (unread k) = omega arith in
      rw unread-pushed (
        ap (items (pushed k c).buffer k.head) one_more
        ∙ items-append k.buffer (k.tail % buffer_size) c k.head (unread k) tail_slot
            (omega (arith, v.size)) room)

-- A key that is not 0 goes to the end of the queue if there is room for it; otherwise nothing
-- changes.
push_cases :
    (k : KeyboardBuffer) (c : ℕ)
    → IsValid k
    → ((push (some k) c ≡ some k) × (Queue.push (contents k) c ≡ contents k))
      ⊎ ((push (some k) c ≡ some (pushed k c))
          × (c ≢ 0)
          × (unread k < buffer_size)
          × (Queue.push (contents k) c ≡ contents k ++ (c ∷ [])))
unfolding push is_full Queue.push
push_cases k c v =
    let size = length-items k.buffer k.head (unread k) in
    elim (eq_or_ne c 0) [
      | inl e ↦ inl (ground (arith, e), ground (arith, e))
      | inr ne ↦ elim (lt_or_le (unread k) buffer_size) [
        | inl room ↦ inr (ground arith, ne, room, ground (arith, size))
        | inr full ↦ inl (ground (arith, v.bounded), ground (arith, size))
      ]
    ]

-- keyboard_push is the push of a bounded queue: a key that is not 0 goes to the end if fewer than
-- 1024 wait, any other call changes nothing, and the buffer stays valid.
push_refines :
    (k : KeyboardBuffer) (c : ℕ)
    → IsValid k
    → (k' : KeyboardBuffer) × (push (some k) c ≡ some k')
      × IsValid k'
      × (contents k' ≡ Queue.push (contents k) c)
push_refines k c v = elim (push_cases k c v) [
  | inl (same, spec) ↦ (k, same, v, sym spec)
  | inr (done, key, room, spec) ↦
      (pushed k c, done, pushed-IsValid k c v key room, contents-pushed k c v key room ∙ sym spec)
]

abbrev popped : KeyboardBuffer → KeyboardBuffer
popped k = record {
  buffer = set k.buffer (buffer_index k.head) 0;
  tail = k.tail;
  head = u32 (k.head + 1);
}

module _ (k : KeyboardBuffer) (v : IsValid k) (some_key : unread k ≢ 0) where
  unread-popped : unread (popped k) ≡ unread k - 1
  unread-popped = omega (arith, v.tail_fits, v.head_fits)

  popped_slot :
      (i : ℕ)
      → suc i < buffer_size
      → get_or (popped k).buffer ((k.head + suc i) % buffer_size) 0
        ≡ get_or k.buffer ((k.head + suc i) % buffer_size) 0
  unfolding buffer_index
  popped_slot i p =
      get_or-set_ne k.buffer (k.head % buffer_size) ((k.head + suc i) % buffer_size) 0 0
        (omega arith)

  next_slot : (i : ℕ) → (u32 (k.head + 1) + i) % buffer_size ≡ (k.head + suc i) % buffer_size
  next_slot i = omega (arith, v.head_fits)

  popped-IsValid : IsValid (popped k)
  unfolding buffer_index
  popped-IsValid = record {
    size = length-set k.buffer (k.head % buffer_size) 0 ∙ v.size;
    tail_fits = v.tail_fits;
    head_fits = omega arith;
    bounded = omega (arith, unread-popped, v.bounded);
    used = λ i p.
        rw (next_slot i, popped_slot i (omega (arith, unread-popped, v.bounded)))
          (v.used (suc i) (omega (arith, unread-popped)));
    unused = λ i p q. elim (eq_or_ne (suc i) buffer_size) [
      | inl e ↦
          let at : (u32 (k.head + 1) + i) % buffer_size ≡ k.head % buffer_size = omega (arith, e) in
          rw (at, get_or-set_self k.buffer (k.head % buffer_size) 0 0 (omega (arith, v.size))) refl
      | inr ne ↦
          rw (next_slot i, popped_slot i (omega arith))
            (v.unused (suc i) (omega (arith, unread-popped)) (omega arith))
    ];
  }

  contents-popped : contents k ≡ get_or k.buffer (k.head % buffer_size) 0 ∷ contents (popped k)
  unfolding buffer_index
  contents-popped =
      items_of_ne_zero k.buffer k.head (unread k) some_key
      ∙ ap (λ r. get_or k.buffer (k.head % buffer_size) 0 ∷ r) (sym later)
    where
      later : contents (popped k) ≡ items k.buffer (k.head + 1) (unread k - 1)
      later = rw unread-popped (
          items-mod (popped k).buffer (u32 (k.head + 1)) (k.head + 1) (unread k - 1) (omega arith)
          ∙ items-set k.buffer (k.head % buffer_size) 0 (k.head + 1) (unread k - 1)
              (λ i p. omega (arith, v.bounded)))

pop-eq-some :
    (k : KeyboardBuffer)
    → get_or k.buffer (k.head % buffer_size) 0 ≢ 0
    → pop (some k) ≡ (get_or k.buffer (k.head % buffer_size) 0, some (popped k))
unfolding pop buffer_index
pop-eq-some k ne = ground (arith, ne)

-- keyboard_pop is the pop of that queue: 0 from an empty queue, which stays, and otherwise the
-- oldest key, which is taken off; the buffer stays valid.
pub pop_refines :
    (k : KeyboardBuffer)
    → IsValid k
    → (k' : KeyboardBuffer) × (pop (some k) ≡ ((Queue.pop (contents k)).0, some k'))
      × IsValid k'
      × (contents k' ≡ (Queue.pop (contents k)).1)
unfolding Queue.pop
pop_refines k v = elim (eq_or_ne (unread k) 0) [
  | inl empty ↦
      let blank : get_or k.buffer (k.head % buffer_size) 0 ≡ 0 =
        ap (λ i. get_or k.buffer (i % buffer_size) 0) {y = k.head + 0} (omega arith)
        ∙ v.unused 0 (omega arith) (omega arith) in
      let none_left : contents k ≡ [] = ap (items k.buffer k.head) empty in
      (k, unfold pop buffer_index in ground (arith, blank, none_left), v, rw none_left)
  | inr some_key ↦
      let key : get_or k.buffer (k.head % buffer_size) 0 ≢ 0 = λ e.
        v.used 0 (omega arith)
          (ap (λ i. get_or k.buffer (i % buffer_size) 0) {y = k.head} (omega arith) ∙ e) in
      let split = contents-popped k v some_key in
      (
        popped k,
        pop-eq-some k key ∙ ap (λ q. ((Queue.pop q).0, some (popped k))) (sym split),
        popped-IsValid k v some_key,
        ap (λ q. (Queue.pop q).1) (sym split),
      )
]

-- Over any sequence of key interrupts and reads a program gets the keys that it would get from
-- the bounded queue, and the buffer holds at the end what that queue holds.
pub run_refines :
    (ops : List Op) (k : KeyboardBuffer)
    → IsValid k
    → (k' : KeyboardBuffer) × (run (some k) ops ≡ ((Queue.run (contents k) ops).0, some k'))
      × IsValid k'
      × (contents k' ≡ (Queue.run (contents k) ops).1)
unfolding run Queue.run
run_refines [] k v = (k, refl, v, refl)
run_refines (push_key c ∷ ops) k v =
    let (m, done, valid, spec) = push_refines k c v in
    let (k', rest, valid', after) = run_refines ops m valid in
    (
      k',
      ap (λ s. run s ops) done ∙ rest ∙ ap (λ q. ((Queue.run q ops).0, some k')) spec,
      valid',
      after ∙ ap (λ q. (Queue.run q ops).1) spec,
    )
run_refines (pop_key ∷ ops) k v =
    let (m, done, valid, spec) = pop_refines k v in
    let (k', rest, valid', after) = run_refines ops m valid in
    let c = (Queue.pop (contents k)).0 in
    (
      k',
      ap (λ r. (r.0 ∷ (run r.1 ops).0, (run r.1 ops).1)) done
          ∙ ap {B = List ℕ × Option KeyboardBuffer} (λ r. (c ∷ r.0, r.1)) rest
          ∙ ap (λ q. (c ∷ (Queue.run q ops).0, some k')) spec,
      valid',
      after ∙ ap (λ q. (Queue.run q ops).1) spec,
    )
