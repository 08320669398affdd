-- ===== src/HttpSession/Pairing.antt =====
-- Which request each response of a connection answers (src/core/http_session.cpp).
use tinychat_server.Base.{
  ℕ, ◌+◌, ◌≤◌, ◌<◌, ◌≡◌, ◌⊎◌, refl, ◌∙◌, Bool, List, [], ◌∷◌, ◌++◌, if◌then◌else◌, length, arith,
}
use tinychat_server.HttpSession.{
  end_of_stream, failed, received, on_read, queue_response_from_worker, queue_write, on_write,
}
use tinychat_server.HttpSession.World.{
  World, performs, opened, Step, read_done, task_done, post_run, write_done, write_failed, Reach,
  here, next,
}
use tinychat_server.HttpSession.Alone.{only_reading, only_working, only_posted, only_writing}
use tinychat_server.HttpSession.Lockstep.{IsLockstep, Reach-IsLockstep}

module _ {A B : Type 0} (R : A → B → Type 0) where
  -- As many of one as of the other, and each in the relation to its counterpart.
  abbrev pub Paired : List A → List B → Type 0
  Paired [] [] = Unit
  Paired (x ∷ xs) (y ∷ ys) = R x y × Paired xs ys
  Paired _ _ = ⊥

module _ {Request Response : Type 0} {queue_limit : ℕ} {is_upgrade : Request → Bool}
    {keep_alive : Response → Bool} where
  -- The requests that a step hands to the workers.
  abbrev pub asked :
      {w w' : World Request Response} → Step queue_limit is_upgrade keep_alive w w' → List Request
  asked (read_done n (received q) e) = if is_upgrade q then [] else q ∷ []
  asked _ = []

  -- What a worker answers is an answer to its request.
  abbrev pub Honest :
      (Request → Response → Type 0)
      → {w w' : World Request Response} → Step queue_limit is_upgrade keep_alive w w'
      → Type 0
  Honest Answers (task_done before after q r e) = Answers q r
  Honest Answers _ = Unit

module _ {Request Response : Type 0} (queue_limit : ℕ) (is_upgrade : Request → Bool)
    (keep_alive : Response → Bool) (Answers : Request → Response → Type 0) where
  -- A run with the requests that it has handed to the workers, newest first.
  pub data Served : World Request Response → List Request → Type 0 where
    start : Served (opened queue_limit) []
    more :
        {w w' : World Request Response} {qs : List Request}
        → Served w qs
        → (s : Step queue_limit is_upgrade keep_alive w w') → Honest Answers s
        → Served w' (asked s ++ qs)

-- The responses that are on their way, and the requests that these and the written ones answer.
record IsPaired {Request Response : Type 0} (Answers : Request → Response → Type 0)
    (w : World Request Response) (qs : List Request) : Type 0 where
  answered : List Request
  under_way : List Response
  split : qs ≡ w.tasks ++ answered
  paired : Paired Answers answered (under_way ++ w.written)
  small : length under_way + length w.tasks ≤ 1
  kept :
      (under_way ≡ w.writes ++ w.posted)
      ⊎ ((w.reads ≡ 0) × (w.tasks ≡ []) × (w.posted ≡ []) × (w.writes ≡ []))

module _ {Request Response : Type 0} (queue_limit : ℕ) (is_upgrade : Request → Bool)
    (keep_alive : Response → Bool) (Answers : Request → Response → Type 0) where
  Step-IsPaired :
      {w w' : World Request Response} {qs : List Request}
      (s : Step queue_limit is_upgrade keep_alive w w')
      → Honest Answers s
      → IsLockstep w
      → IsPaired Answers w qs
      → IsPaired Answers w' (asked s ++ qs)
  unfolding performs on_read queue_response_from_worker queue_write on_write
  Step-IsPaired {w} (read_done n end_of_stream e) honest l h = record {
    answered = h.answered;
    under_way = h.under_way;
    split = h.split;
    paired = h.paired;
    small = h.small;
    kept = ground arith;
  }
  Step-IsPaired {w} (read_done n failed e) honest l h = record {
    answered = h.answered;
    under_way = h.under_way;
    split = h.split;
    paired = h.paired;
    small = h.small;
    kept = ground arith;
  }
  Step-IsPaired {w} (read_done n (received q) e) honest l h =
      let alone = only_reading l n e in
      let none_under_way : h.under_way ≡ [] = ground arith in
      record {
        answered = h.answered;
        under_way = [];
        split = ground (arith, h.split);
        paired = ground (arith, h.paired);
        small = ground arith;
        kept = ground arith;
      }
  Step-IsPaired {w} (task_done before after q r e) honest l h =
      let alone = only_working l before after q e in
      let none_under_way : h.under_way ≡ [] = ground arith in
      record {
        answered = q ∷ h.answered;
        under_way = r ∷ [];
        split = ground (arith, h.split);
        paired = ground (arith, h.paired);
        small = ground arith;
        kept = ground arith;
      }
  Step-IsPaired {w} (post_run r rest e) honest l h =
      let alone = only_posted l r rest e in
      record {
        answered = h.answered;
        under_way = h.under_way;
        split = ground (arith, h.split);
        paired = ground (arith, h.paired);
        small = ground arith;
        kept = ground arith;
      }
  Step-IsPaired {w} (write_done r rest e) honest l h =
      let alone = only_writing l r rest e in
      let last_under_way : h.under_way ≡ r ∷ [] = ground arith in
      record {
        answered = h.answered;
        under_way = [];
        split = ground (arith, h.split);
        paired = ground (arith, h.paired);
        small = ground arith;
        kept = ground arith;
      }
  Step-IsPaired {w} (write_failed r rest e) honest l h =
      let alone = only_writing l r rest e in
      record {
        answered = h.answered;
        under_way = h.under_way;
        split = h.split;
        paired = h.paired;
        small = h.small;
        kept = ground arith;
      }

  pub Served-Reach :
      {w : World Request Response} {qs : List Request}
      → Served queue_limit is_upgrade keep_alive Answers w qs
      → Reach queue_limit is_upgrade keep_alive w
  Served-Reach start = here
  Served-Reach (more h s honest) = next (Served-Reach h) s

  Served-IsPaired :
      {w : World Request Response} {qs : List Request}
      → Served queue_limit is_upgrade keep_alive Answers w qs
      → 0 < queue_limit
      → IsPaired Answers w qs
  unfolding opened
  Served-IsPaired start h = record {
    answered = [];
    under_way = [];
    split = ground arith;
    paired = ground arith;
    small = ground arith;
    kept = ground arith;
  }
  Served-IsPaired (more r s honest) h =
      Step-IsPaired s honest (Reach-IsLockstep queue_limit is_upgrade keep_alive (Served-Reach r) h)
        (Served-IsPaired r h)

  -- The newest requests, one at most, wait for their response; each of the others has it.
  without_under_way :
      (tasks answered : List Request) (under_way written : List Response)
      → length under_way + length tasks ≤ 1
      → Paired Answers answered (under_way ++ written)
      → (waiting others : List Request) × (tasks ++ answered ≡ waiting ++ others)
        × (length waiting ≤ 1)
        × Paired Answers others written
  without_under_way tasks answered [] written small h =
      (tasks, answered, refl, omega (arith, small), h)
  without_under_way [] (q ∷ answered) (r ∷ []) written small h =
      (q ∷ [], answered, refl, omega arith, h.1)
  without_under_way [] [] (r ∷ under_way) written small h = absurd h
  without_under_way tasks answered (r ∷ s ∷ under_way) written small h = absurd (omega arith)
  without_under_way (q ∷ tasks) answered (r ∷ []) written small h = absurd (omega arith)

  -- With a positive limit and whatever the workers' answers are to be to their requests: at every
  -- moment of a connection the responses that are written are answers to the requests that were
  -- handed to the workers, each to its own, in the order of the requests, one for each request but
  -- at most the last.
  pub answered_in_order :
      {w : World Request Response} {qs : List Request}
      → Served queue_limit is_upgrade keep_alive Answers w qs
      → 0 < queue_limit
      → (waiting others : List Request) × (qs ≡ waiting ++ others)
        × (length waiting ≤ 1)
        × Paired Answers others w.written
  answered_in_order {w} r h =
      let p = Served-IsPaired r h in
      let s = without_under_way w.tasks p.answered p.under_way w.written p.small p.paired in
      (s.0, s.1, p.split ∙ s.2, s.3, s.4)
