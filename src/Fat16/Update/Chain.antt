-- ===== src/Fat16/Update/Chain.antt =====
-- kernel/fs/fat/fat16.c: the chains that `fat16_collect_chain` finds, as lists.
use rorth_ox.Prelude.{
  ℕ, zero, suc, ◌≤◌, ◌<◌, ◌≡◌, ◌≢◌, refl, Bool, true, false, List, [], ◌∷◌, arith, length, get_or,
}
use rorth_ox.Fat16.{Volume, end_of_chain, valid_cluster}
use rorth_ox.Fat16.Geometry.{Contents, entry, nth_cluster}
use rorth_ox.Fat16.Update.{mark_seen}

-- A property of each item of a list.
each :
    (P : ℕ → ℕ → Type 0) (x : ℕ) (xs : List ℕ)
    → P 0 x
    → ((i : ℕ) → i < length xs → P (suc i) (get_or xs i 0))
    → (i : ℕ) → i < length (x ∷ xs)
    → P i (get_or (x ∷ xs) i 0)
each P x xs first rest zero h = first
each P x xs first rest (suc i) h = rest i (omega arith)

module _ (v : Volume) (bytes : Contents) (max_writable : ℕ) where
  -- The chain behind a first cluster, to its end, with no cluster twice.
  pub record IsWhole (start : ℕ) (chain : List ℕ) : Type 0 where
    pub linked : (i : ℕ) → i < length chain → get_or chain i 0 ≡ nth_cluster v bytes i start
    pub usable :
        (i : ℕ)
        → i < length chain
        → (valid_cluster v (get_or chain i 0) ≡ true) × (get_or chain i 0 ≤ max_writable)
    pub ended : 0 < length chain → end_of_chain ≤ nth_cluster v bytes (length chain) start
    pub empty : length chain ≡ 0 → start ≡ 0
    pub apart : (i j : ℕ) → i < j → j < length chain → get_or chain i 0 ≢ get_or chain j 0

  -- The loop keeps away from what it has seen, and within its room.
  pub record Found (room : ℕ) (seen : ℕ → Bool) (start : ℕ) (chain : List ℕ) : Type 0 where
    pub whole : IsWhole start chain
    pub unseen : (i : ℕ) → i < length chain → seen (get_or chain i 0) ≡ false
    pub fits : length chain ≤ room

  pub nothing-Found :
      (room : ℕ) (seen : ℕ → Bool) (start : ℕ) → start ≡ 0 → Found room seen start []
  nothing-Found room seen start e = record {
    whole = record {
      linked = λ i h. absurd (omega arith);
      usable = λ i h. absurd (omega arith);
      ended = λ h. absurd (omega arith);
      empty = λ h. e;
      apart = λ i j h h'. absurd (omega arith);
    };
    unseen = λ i h. absurd (omega arith);
    fits = omega arith;
  }

  module _ (room : ℕ) (seen : ℕ → Bool) (start : ℕ) (valid : valid_cluster v start ≡ true)
      (low : start ≤ max_writable) (fresh : seen start ≡ false) where
    pub last-Found : end_of_chain ≤ entry v bytes start → Found (suc room) seen start (start ∷ [])
    unfolding nth_cluster
    last-Found e = record {
      whole = record {
        linked =
            each (λ i c. c ≡ nth_cluster v bytes i start) start [] refl
              (λ i h. absurd (omega arith));
        usable =
            each (λ i c. (valid_cluster v c ≡ true) × (c ≤ max_writable)) start [] (valid, low)
              (λ i h. absurd (omega arith));
        ended = λ h. e;
        empty = λ h. absurd (omega arith);
        apart = λ i j h h'. absurd (omega arith);
      };
      unseen = each (λ i c. seen c ≡ false) start [] fresh (λ i h. absurd (omega arith));
      fits = omega arith;
    }

    module _ (chain : List ℕ)
        (rest : Found room (mark_seen seen start) (entry v bytes start) chain) where
      other :
          (i : ℕ)
          → i < length chain
          → (start ≢ get_or chain i 0) × (seen (get_or chain i 0) ≡ false)
      other i h = let u = rest.unseen i h in (ground arith, ground arith)

      all_apart :
          (i j : ℕ)
          → i < j
          → j < length (start ∷ chain)
          → get_or (start ∷ chain) i 0 ≢ get_or (start ∷ chain) j 0
      all_apart i zero h h' = absurd (omega arith)
      all_apart zero (suc j) h h' = (other j (omega arith)).0
      all_apart (suc i) (suc j) h h' = rest.whole.apart i j (omega arith) (omega arith)

      pub next-Found : 0 < length chain → Found (suc room) seen start (start ∷ chain)
      unfolding nth_cluster
      next-Found some_rest =
          let fits' = rest.fits in
          record {
            whole = record {
              linked =
                  each (λ i c. c ≡ nth_cluster v bytes i start) start chain refl rest.whole.linked;
              usable =
                  each (λ i c. (valid_cluster v c ≡ true) × (c ≤ max_writable)) start chain
                    (valid, low) rest.whole.usable;
              ended = λ h. rest.whole.ended some_rest;
              empty = λ h. absurd (omega arith);
              apart = all_apart;
            };
            unseen = each (λ i c. seen c ≡ false) start chain fresh (λ i h. (other i h).1);
            fits = omega arith;
          }
