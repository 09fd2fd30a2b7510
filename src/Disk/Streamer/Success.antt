-- ===== src/Disk/Streamer/Success.antt =====
-- kernel/disk/streamer.c: the only success of a write is 0.
use rorth_ox.Prelude.{
  ℕ, zero, suc, ◌+◌, ◌-◌, ◌/◌, ◌≡◌, inl, inr, refl, ◌∙◌, sym, List, [], ◌∷◌, ltb, length, take,
  drop, pos, Bool-cases,
}
use rorth_ox.Status.{Result, ok, err, Errno}
use rorth_ox.Disk.{BlockDevice, sector_size}
use rorth_ox.Disk.Streamer.{chunk, sector_data, write_loop, write, int_max}

module _ {D : Type 0} (dev : BlockDevice D) where
  write_answer :
      (rounds n : ℕ)
      → ((d : D) (position : ℕ) (bytes : List ℕ)
          → (write_loop dev rounds d position bytes).0 ≡ ok n
          → n ≡ 0)
      → (d : D) (position c : ℕ) (bytes sector : List ℕ)
      → (sector_data dev d position (chunk position (length (c ∷ bytes))) (c ∷ bytes)).0 ≡ ok sector
      → (write_loop dev (suc rounds) d position (c ∷ bytes)).0 ≡ ok n
      → (answer : Result ℕ)
      → (dev.write_block
          (sector_data dev d position (chunk position (length (c ∷ bytes))) (c ∷ bytes)).1
          (position / sector_size)
          sector).0
        ≡ answer
      → n ≡ 0
  unfolding write_loop
  write_answer rounds n later d position c bytes sector got h (err e) answer =
      let a : (write_loop dev (suc rounds) d position (c ∷ bytes)).0 ≡ err e =
        rw (write_loop, got, answer) refl in
      absurd (let b = sym a ∙ h in cc)
  write_answer rounds n later d position c bytes sector got h (ok r) answer =
      let size = chunk position (length (c ∷ bytes)) in
      let d' =
        (dev.write_block (sector_data dev d position size (c ∷ bytes)).1 (position / sector_size)
          sector).1 in
      let a : (write_loop dev (suc rounds) d position (c ∷ bytes)).0
          ≡ (write_loop dev rounds d' (position + size) (drop size (c ∷ bytes))).0 =
        rw (write_loop, got, answer) refl in
      later d' (position + size) (drop size (c ∷ bytes)) (sym a ∙ h)

  write_round :
      (rounds n : ℕ)
      → ((d : D) (position : ℕ) (bytes : List ℕ)
          → (write_loop dev rounds d position bytes).0 ≡ ok n
          → n ≡ 0)
      → (d : D) (position c : ℕ) (bytes : List ℕ) → (staged : Result (List ℕ))
      → (sector_data dev d position (chunk position (length (c ∷ bytes))) (c ∷ bytes)).0 ≡ staged
      → (write_loop dev (suc rounds) d position (c ∷ bytes)).0 ≡ ok n
      → n ≡ 0
  unfolding write_loop
  write_round rounds n later d position c bytes (err e) got h =
      let a : (write_loop dev (suc rounds) d position (c ∷ bytes)).0 ≡ err e =
        rw (write_loop, got) refl in
      absurd (let b = sym a ∙ h in cc)
  write_round rounds n later d position c bytes (ok sector) got h =
      let size = chunk position (length (c ∷ bytes)) in
      let d' = (sector_data dev d position size (c ∷ bytes)).1 in
      write_answer rounds n later d position c bytes sector got h
        (dev.write_block d' (position / sector_size) sector).0 refl

  loop_zero :
      (rounds n : ℕ) (d : D) (position : ℕ) (bytes : List ℕ)
      → (write_loop dev rounds d position bytes).0 ≡ ok n
      → n ≡ 0
  unfolding write_loop
  loop_zero zero n d position bytes h = cc
  loop_zero (suc rounds) n d position [] h = cc
  loop_zero (suc rounds) n d position (c ∷ bytes) h =
      write_round rounds n (loop_zero rounds n) d position c bytes _ refl h

  pub write_zero :
      (d : D) (position total n : ℕ) (buffer : List ℕ)
      → (write dev d position buffer (pos total)).0 ≡ ok n
      → n ≡ 0
  unfolding write
  write_zero d position total n buffer h = elim (Bool-cases (ltb (int_max - position) total)) [
    | inl out ↦
        let a : (write dev d position buffer (pos total)).0 ≡ err Errno.einvarg =
          rw (write, out) refl in
        absurd (let b = sym a ∙ h in cc)
    | inr fits ↦
        let a : (write dev d position buffer (pos total)).0
            ≡ (write_loop dev total d position (take total buffer)).0 =
          rw (write, fits) refl in
        loop_zero total n d position (take total buffer) (sym a ∙ h)
  ]
