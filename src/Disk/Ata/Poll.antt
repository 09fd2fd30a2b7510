-- ===== src/Disk/Ata/Poll.antt =====
-- The wait loops of kernel/disk/disk.c, by the statuses that the drive answers.
use rorth_ox.Prelude.{ℕ, zero, suc, ◌<◌, ◌≡◌, refl, ◌∙◌, arith}
use rorth_ox.Status.{ok, err, Errno}
use rorth_ox.Disk.Ata.{Ports, Verdict, ata_status, poll}

module _ {W : Type 0} (ports : Ports W) (verdict : ℕ → Verdict) where
  -- The hardware after `n` reads of the status.
  abbrev pub after_reads : ℕ → W → W
  after_reads zero w = w
  after_reads (suc n) w = after_reads n (ports.insb w ata_status).1

  -- What the read behind `n` others means.
  abbrev pub nth_verdict : ℕ → W → Verdict
  nth_verdict n w = verdict (ports.insb (after_reads n w) ata_status).0

  poll-again :
      (limit : ℕ) (w : W)
      → nth_verdict 0 w ≡ Verdict.again
      → poll ports verdict (suc limit) w ≡ poll ports verdict limit (ports.insb w ata_status).1
  unfolding poll
  poll-again limit w e = rw (poll, e) refl

  poll-ends :
      (k limit : ℕ) (w : W)
      → k < limit
      → ((j : ℕ) → j < k → nth_verdict j w ≡ Verdict.again)
      → (nth_verdict k w ≡ Verdict.done
          → poll ports verdict limit w ≡ (ok 0, after_reads (suc k) w))
        × (nth_verdict k w ≡ Verdict.failed
            → poll ports verdict limit w ≡ (err Errno.eio, after_reads (suc k) w))
  unfolding poll
  poll-ends k zero w h before = absurd (omega arith)
  poll-ends zero (suc limit) w h before = (λ e. rw (poll, e) refl, λ e. rw (poll, e) refl)
  poll-ends (suc k) (suc limit) w h before =
      let on = poll-again limit w (before 0 (omega arith)) in
      let rest =
        poll-ends k limit (ports.insb w ata_status).1 (omega arith)
          (λ j hj. before (suc j) (omega arith)) in
      (λ e. on ∙ rest.0 e, λ e. on ∙ rest.1 e)

  poll-timeout :
      (limit : ℕ) (w : W)
      → ((j : ℕ) → j < limit → nth_verdict j w ≡ Verdict.again)
      → poll ports verdict limit w ≡ (err Errno.eio, after_reads limit w)
  unfolding poll
  poll-timeout zero w before = refl
  poll-timeout (suc limit) w before =
      poll-again limit w (before 0 (omega arith))
      ∙ poll-timeout limit (ports.insb w ata_status).1 (λ j hj. before (suc j) (omega arith))

  -- A wait of at most `limit` reads returns 0 or -EIO at the first status that decides, after that
  -- read, and -EIO after `limit` reads if none of them decides.
  pub poll_lem :
      (k limit : ℕ) (w : W)
      → ((j : ℕ) → j < k → nth_verdict j w ≡ Verdict.again)
      → (k < limit
          → nth_verdict k w ≡ Verdict.done
          → poll ports verdict limit w ≡ (ok 0, after_reads (suc k) w))
        × (k < limit
            → nth_verdict k w ≡ Verdict.failed
            → poll ports verdict limit w ≡ (err Errno.eio, after_reads (suc k) w))
        × (k ≡ limit → poll ports verdict limit w ≡ (err Errno.eio, after_reads limit w))
  poll_lem k limit w before = (
    λ h. (poll-ends k limit w h before).0,
    λ h. (poll-ends k limit w h before).1,
    λ e. poll-timeout limit w (λ j hj. before j (omega arith)),
  )
