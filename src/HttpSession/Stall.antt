-- ===== src/HttpSession/Stall.antt =====
-- Whether a connection goes on reading after a response (src/core/http_session.cpp, `on_write`).
use tinychat_server.Base.{
  ℕ, zero, suc, ◌+◌, ◌≤◌, ◌<◌, ◌≡◌, ◌≢◌, ◌⊎◌, refl, ap, Bool, true, false, List, [], ◌∷◌, length,
  length-append, arith, inr,
}
use tinychat_server.HttpSession.{
  end_of_stream, failed, received, on_read, queue_response_from_worker, queue_write, on_write,
}
use tinychat_server.HttpSession.World.{
  World, performs, opened, Step, read_done, task_done, post_run, write_done, write_failed, Reach,
  here, next,
}
use tinychat_server.HttpSession.Alone.{only_posted, only_writing}
use tinychat_server.HttpSession.Lockstep.{outstanding, IsLockstep, Reach-IsLockstep}

-- With a limit of two or more: one read is all that the connection ever starts, and once a
-- response is written nothing is outstanding.
pub record IsOneShot {Request Response : Type 0} (w : World Request Response) : Type 0 where
  pub one_read : w.reads_started ≡ 1
  pub answered :
      (w.written ≡ []) ⊎ ((w.reads ≡ 0) × (w.tasks ≡ []) × (w.posted ≡ []) × (w.writes ≡ []))

module _ {Request Response : Type 0} (queue_limit : ℕ) (is_upgrade : Request → Bool)
    (keep_alive : Response → Bool) where
  Step-IsOneShot :
      {w w' : World Request Response}
      → Step queue_limit is_upgrade keep_alive w w'
      → 2 ≤ queue_limit
      → IsLockstep w
      → IsOneShot w
      → IsOneShot w'
  unfolding performs on_read queue_response_from_worker queue_write on_write
  Step-IsOneShot {w} (read_done n end_of_stream e) lim l h = ground arith
  Step-IsOneShot {w} (read_done n failed e) lim l h = ground arith
  Step-IsOneShot {w} (read_done n (received q) e) lim l h = ground arith
  Step-IsOneShot {w} (task_done before after q r e) lim l h =
      ground (arith, ap length e, length-append before (q ∷ after))
  Step-IsOneShot {w} (post_run r rest e) lim l h =
      let alone = only_posted l r rest e in ground arith
  Step-IsOneShot {w} (write_done r rest e) lim l h =
      let alone = only_writing l r rest e in ground arith
  Step-IsOneShot {w} (write_failed r rest e) lim l h = ground arith

  Reach-IsOneShot :
      {w : World Request Response}
      → Reach queue_limit is_upgrade keep_alive w
      → 2 ≤ queue_limit
      → IsOneShot w
  unfolding opened
  Reach-IsOneShot here lim = ground arith
  Reach-IsOneShot (next r s) lim =
      Step-IsOneShot s lim (Reach-IsLockstep queue_limit is_upgrade keep_alive r (omega arith))
        (Reach-IsOneShot r lim)

  IsOneShot-stuck :
      {w w' : World Request Response}
      → IsOneShot w
      → w.written ≢ []
      → ¬ Step queue_limit is_upgrade keep_alive w w'
  IsOneShot-stuck h some_written (read_done n e k) = ground arith
  IsOneShot-stuck h some_written (task_done before after q r k) =
      ground (arith, ap length k, length-append before (q ∷ after))
  IsOneShot-stuck h some_written (post_run r rest k) = ground arith
  IsOneShot-stuck h some_written (write_done r rest k) = ground arith
  IsOneShot-stuck h some_written (write_failed r rest k) = ground arith

  -- With a queue limit of two or more a connection starts one read in its life, and once a response
  -- is written, keep-alive or not, no step is left: a second request is never read.
  pub serves_one :
      {w : World Request Response}
      → Reach queue_limit is_upgrade keep_alive w
      → 2 ≤ queue_limit
      → (w.reads_started ≡ 1)
        × (w.written ≢ []
            → (w' : World Request Response) → ¬ Step queue_limit is_upgrade keep_alive w w')
  serves_one r lim =
      let h = Reach-IsOneShot r lim in
      (h.one_read, λ some_written w'. IsOneShot-stuck h some_written)

module _ {Request Response : Type 0} (is_upgrade : Request → Bool)
    (keep_alive : Response → Bool) where
  Step-IsBusy :
      {w w' : World Request Response}
      → Step 1 is_upgrade keep_alive w w'
      → IsLockstep w
      → (w.ended ≡ true) ⊎ (outstanding w ≡ 1)
      → (w'.ended ≡ true) ⊎ (outstanding w' ≡ 1)
  unfolding performs on_read queue_response_from_worker queue_write on_write
  Step-IsBusy {w} (read_done n end_of_stream e) l h = ground arith
  Step-IsBusy {w} (read_done n failed e) l h = ground arith
  Step-IsBusy {w} (read_done n (received q) e) l h = ground (arith, length-append w.tasks (q ∷ []))
  Step-IsBusy {w} (task_done before after q r e) l h = ground (
    arith,
    ap length e,
    length-append before (q ∷ after),
    length-append before after,
    length-append w.posted (r ∷ []),
  )
  Step-IsBusy {w} (post_run r rest e) l h = let alone = only_posted l r rest e in ground arith
  Step-IsBusy {w} (write_done r rest e) l h = let alone = only_writing l r rest e in ground arith
  Step-IsBusy {w} (write_failed r rest e) l h = ground arith

  -- Something outstanding can go on: a step for each kind.
  some_step :
      (w : World Request Response) (answer : Response)
      → IsLockstep w
      → w.ended ≡ false
      → (n : ℕ) (ts : List Request) (ps qs : List Response) → w.reads ≡ n
      → w.tasks ≡ ts
      → w.posted ≡ ps
      → w.session.response_queue ≡ qs
      → 0 < n + length ts + length ps + length qs
      → (w' : World Request Response) × Step 1 is_upgrade keep_alive w w'
  some_step w answer l o (suc n) ts ps qs a b c d h = (_, read_done n failed a)
  some_step w answer l o zero (t ∷ ts) ps qs a b c d h = (_, task_done [] ts t answer b)
  some_step w answer l o zero [] (p ∷ ps) qs a b c d h = (_, post_run p ps c)
  some_step w answer l o zero [] [] (q ∷ qs) a b c d h = (_, write_done q qs (ground arith))
  some_step w answer l o zero [] [] [] a b c d h = absurd (omega arith)

  Reach-IsBusy :
      {w : World Request Response}
      → Reach 1 is_upgrade keep_alive w
      → (w.ended ≡ true) ⊎ (outstanding w ≡ 1)
  unfolding opened
  Reach-IsBusy here = inr refl
  Reach-IsBusy (next r s) =
      Step-IsBusy s (Reach-IsLockstep 1 is_upgrade keep_alive r (omega arith)) (Reach-IsBusy r)

  -- With a queue limit of one a connection goes on: until it has ended, some step is always left.
  pub limit_one_live :
      {w : World Request Response}
      → Reach 1 is_upgrade keep_alive w
      → Response
      → w.ended ≡ false
      → (w' : World Request Response) × Step 1 is_upgrade keep_alive w w'
  limit_one_live {w} reach answer open_still =
      some_step w answer (Reach-IsLockstep 1 is_upgrade keep_alive reach (omega arith)) open_still
        w.reads w.tasks w.posted w.session.response_queue refl refl refl refl (omega (arith, busy))
    where
      busy : outstanding w ≡ 1
      busy = ground (arith, Reach-IsBusy reach)
