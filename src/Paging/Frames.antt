-- ===== src/Paging/Frames.antt =====
-- The bits of an entry of kernel/memory/paging/paging.c: its frame and its flags.
use rorth_ox.Prelude.{
  ℕ, ◌+◌, ◌/◌, ◌%◌, ◌^◌, ◌<◌, ◌≡◌, refl, ◌∙◌, ap, sym, true, not, ◌&&◌, ◌||◌, ◌==◌, arith, bit_and,
  bit_or, passes, table_entry, shl, shr, low, ones, bit_and-shl, bit_and-low, bit_or-zero,
  bit_or-add, shr-or, low-or, low-below, low-small, shr-shl, low-shl, bit_and-ones,
}
use rorth_ox.Paging.{page_size, frame, access_from_all}

pub frame_lem : (e : ℕ) → frame e ≡ shl 12 (bit_and (shr 12 e) (ones 20))
frame_lem e = bit_and-shl 12 e (ones 20)

pub frame-page : (e : ℕ) → frame e % page_size ≡ 0
frame-page e = omega (arith, frame_lem e)

-- Setting the user bit moves no frame.
pub frame-or : (e : ℕ) → frame (bit_or e access_from_all) ≡ frame e
frame-or e =
    frame_lem (bit_or e 4)
    ∙ ap (λ x. shl 12 (bit_and x (ones 20))) (shr-or 12 e 4 ∙ bit_or-zero (shr 12 e))
    ∙ sym (frame_lem e)

module _ (phys flags : ℕ) (aligned : phys % page_size ≡ 0) (small : flags < page_size) where
  pub mapped_sum : bit_or phys flags ≡ shl 12 (phys / page_size) + flags
  mapped_sum =
      ap (λ p. bit_or p flags) {x = phys} {y = shl 12 (phys / page_size)} (omega arith)
      ∙ bit_or-add 12 (phys / page_size) flags (omega arith)

  -- The entry that paging_map stores has the frame that it maps.
  pub frame-mapped : phys < 2 ^ 32 → frame (bit_or phys flags) ≡ phys
  frame-mapped h =
      frame_lem (bit_or phys flags)
      ∙ ap (λ x. shl 12 (bit_and x (ones 20)))
          (ap (shr 12) mapped_sum ∙ shr-shl 12 (phys / page_size) flags (omega arith))
      ∙ ap (shl 12)
          (bit_and-ones 20 (phys / page_size) ∙ low-small 20 (phys / page_size) (omega arith))
      ∙ omega arith

  -- And its flags.
  pub bit_and-mapped : (m : ℕ) → m < page_size → bit_and (bit_or phys flags) m ≡ bit_and flags m
  bit_and-mapped m h =
      bit_and-low 12 (bit_or phys flags) m (omega arith)
      ∙ ap (λ x. bit_and x m)
          (ap (low 12) mapped_sum ∙ low-shl 12 (phys / page_size) flags (omega arith))

-- The low eight bits once the user bit is set.
user_bit_table :
    passes 256 0 (λ x.
      (bit_and (bit_or x 4) 3 == bit_and x 3)
      && (bit_and (bit_or x 4) 128 == bit_and x 128)
      && (not (bit_and x 3 == 3)
          || ((bit_and (bit_or x 4) 7 == 7)
              && (bit_and (bit_or x 4) 5 == 5)
              && (bit_and x 1 == 1))))
    ≡ true
unfolding passes
user_bit_table = refl

low_eight : (e m : ℕ) → m < 256 → bit_and (bit_or e 4) m ≡ bit_and (bit_or (low 8 e) 4) m
low_eight e m h = bit_and-low 8 (bit_or e 4) m (omega arith) ∙ ap (λ x. bit_and x m) (low-or 8 e 4)

-- Setting the user bit keeps the others, and allows user access where the entry is present and
-- writeable.
pub bit_and-user :
    (e : ℕ)
    → bit_and e 3 ≡ 3
    → bit_and e 128 ≡ 0
    → (bit_and (bit_or e 4) 3 ≡ 3)
      × (bit_and (bit_or e 4) 128 ≡ 0)
      × (bit_and (bit_or e 4) 7 ≡ 7)
      × (bit_and (bit_or e 4) 5 ≡ 5)
      × (bit_and e 1 ≡ 1)
bit_and-user e pw small =
    let x = low 8 e in
    let entry =
      table_entry 256
        (λ x.
          (bit_and (bit_or x 4) 3 == bit_and x 3)
          && (bit_and (bit_or x 4) 128 == bit_and x 128)
          && (not (bit_and x 3 == 3)
              || ((bit_and (bit_or x 4) 7 == 7)
                  && (bit_and (bit_or x 4) 5 == 5)
                  && (bit_and x 1 == 1))))
        x user_bit_table (omega (arith, low-below 8 e)) in
    let m3 = bit_and-low 8 e 3 (omega arith) in
    let m128 = bit_and-low 8 e 128 (omega arith) in
    let m1 = bit_and-low 8 e 1 (omega arith) in
    let u3 = low_eight e 3 (omega arith) in
    let u128 = low_eight e 128 (omega arith) in
    let u7 = low_eight e 7 (omega arith) in
    let u5 = low_eight e 5 (omega arith) in
    (ground arith, ground arith, ground arith, ground arith, ground arith)
