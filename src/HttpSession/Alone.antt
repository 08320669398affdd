-- ===== src/HttpSession/Alone.antt =====
-- Where a connection has one thing outstanding, it has nothing else (src/core/http_session.cpp).
use tinychat_server.Base.{
  suc, ◌+◌, ◌≡◌, ap, ◌∙◌, List, [], ◌∷◌, ◌++◌, length, length-append, eq-nil_of_length, arith, ℕ,
}
use tinychat_server.HttpSession.World.{World}
use tinychat_server.HttpSession.Lockstep.{IsLockstep}

module _ {Request Response : Type 0} where
  pub only_reading :
      {w : World Request Response}
      → IsLockstep w
      → (n : ℕ) → w.reads ≡ suc n
      → (w.tasks ≡ []) × (w.posted ≡ []) × (w.writes ≡ [])
  only_reading {w} l n e = (
    eq-nil_of_length w.tasks (omega (arith, l.one)),
    eq-nil_of_length w.posted (omega (arith, l.one)),
    ground (arith, eq-nil_of_length w.session.response_queue (omega (arith, l.one))),
  )

  pub only_working :
      {w : World Request Response}
      → IsLockstep w
      → (before after : List Request) (q : Request) → w.tasks ≡ before ++ q ∷ after
      → (before ≡ []) × (after ≡ []) × (w.posted ≡ []) × (w.writes ≡ [])
  only_working {w} l before after q e =
      let size : length w.tasks ≡ length before + suc (length after) =
        ap length e ∙ length-append before (q ∷ after) in
      (
        eq-nil_of_length before (omega (arith, l.one)),
        eq-nil_of_length after (omega (arith, l.one)),
        eq-nil_of_length w.posted (omega (arith, l.one)),
        ground (arith, eq-nil_of_length w.session.response_queue (omega (arith, l.one))),
      )

  pub only_posted :
      {w : World Request Response}
      → IsLockstep w
      → (r : Response) (rest : List Response) → w.posted ≡ r ∷ rest
      → (rest ≡ []) × (w.tasks ≡ []) × (w.session.response_queue ≡ []) × (w.writes ≡ [])
  only_posted {w} l r rest e =
      let size : length w.posted ≡ suc (length rest) = ap length e in
      let queue : w.session.response_queue ≡ [] =
        eq-nil_of_length w.session.response_queue (omega (arith, l.one)) in
      (
        eq-nil_of_length rest (omega (arith, l.one)),
        eq-nil_of_length w.tasks (omega (arith, l.one)),
        queue,
        ground arith,
      )

  pub only_writing :
      {w : World Request Response}
      → IsLockstep w
      → (r : Response) (rest : List Response) → w.writes ≡ r ∷ rest
      → (rest ≡ [])
        × (w.reads ≡ 0)
        × (w.tasks ≡ [])
        × (w.posted ≡ [])
        × (w.session.response_queue ≡ r ∷ [])
  only_writing {w} l r rest e =
      let queue : w.session.response_queue ≡ r ∷ rest = ground arith in
      let size : length w.session.response_queue ≡ suc (length rest) = ap length queue in
      let last : rest ≡ [] = eq-nil_of_length rest (omega (arith, l.one)) in
      (
        last,
        omega (arith, l.one),
        eq-nil_of_length w.tasks (omega (arith, l.one)),
        eq-nil_of_length w.posted (omega (arith, l.one)),
        ground arith,
      )
