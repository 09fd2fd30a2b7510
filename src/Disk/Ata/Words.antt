-- ===== src/Disk/Ata/Words.antt =====
-- The order of the bytes in the words of kernel/disk/disk.c.
use rorth_ox.Prelude.{
  ℕ, zero, suc, ◌+◌, ◌*◌, ◌<◌, ◌≡◌, refl, ◌∙◌, ap, ap₂, List, [], ◌∷◌, arith, length, bit_or, shl,
  bit_or-add, bit_or_comm,
}
use rorth_ox.Disk.Ata.{bytes_of, words_of}

abbrev pub Bytes : List ℕ → Type 0
Bytes [] = Unit
Bytes (b ∷ bytes) = (b < 256) × Bytes bytes

pub word_sum : (a b : ℕ) → a < 256 → bit_or a (b * 256) ≡ b * 256 + a
word_sum a b h =
    bit_or_comm a (b * 256)
    ∙ ap (λ x. bit_or x a) {x = b * 256} {y = shl 8 b} (omega arith)
    ∙ bit_or-add 8 b a (omega arith)
    ∙ omega arith

-- The words that a write sends to the drive are, as a read stores words, the bytes of the buffer.
pub bytes_of-words_of :
    (n : ℕ) (bytes : List ℕ)
    → Bytes bytes
    → length bytes ≡ n * 2
    → bytes_of (words_of n bytes) ≡ bytes
unfolding bytes_of words_of
bytes_of-words_of zero [] small e = refl
bytes_of-words_of zero (a ∷ bytes) small e = absurd (omega arith)
bytes_of-words_of (suc n) [] small e = absurd (omega arith)
bytes_of-words_of (suc n) (a ∷ []) small e = absurd (omega arith)
bytes_of-words_of (suc n) (a ∷ b ∷ bytes) small e =
    let sum = word_sum a b small.0 in
    let low = small.0 in
    ap₂ ◌∷◌ (omega arith)
      (ap₂ ◌∷◌ (omega arith) (bytes_of-words_of n bytes small.1.1 (omega arith)))
