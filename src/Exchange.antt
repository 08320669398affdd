-- ===== src/Exchange.antt =====
-- An HTTP connection (src/core/http_session.cpp) whose requests `handle_request`
-- (src/core/request_handler.hpp) answers on the workers.
mod Witnesses
use tinychat_server.Base.{ℕ, ◌≤◌, ◌<◌, ◌≡◌, sym, ◌∙◌, Bool, true, List, [], ◌∷◌, ◌++◌, length, All}
use tinychat_server.Text.{Text}
use tinychat_server.Database.{returned}
use tinychat_server.Database.Env.{Env}
use tinychat_server.Http.{Request, Response}
use tinychat_server.HttpSession.World.{World}
use tinychat_server.HttpSession.Pairing.{Paired, Served, Served-Reach, answered_in_order}
use tinychat_server.HttpSession.Closing.{earlier, kept_open_before}
use tinychat_server.RequestHandler.Assets.{Files}
use tinychat_server.RequestHandler.Credentials.{Auth}
use tinychat_server.RequestHandler.Dispatch.{handle_request}
use tinychat_server.RequestHandler.Echo.{handle_request-Echoes}

module _ {A B : Type 0} {R S : A → B → Type 0} where
  Paired-map :
      ((a : A) (b : B) → R a b → S a b)
      → (xs : List A) (ys : List B) → Paired R xs ys
      → Paired S xs ys
  Paired-map f [] [] h = tt
  Paired-map f [] (y ∷ ys) h = absurd h
  Paired-map f (x ∷ xs) [] h = absurd h
  Paired-map f (x ∷ xs) (y ∷ ys) h = (f x y h.0, Paired-map f xs ys h.1)

module _ {A B : Type 0} {R : A → B → Type 0} {P : A → Type 0} {Q : B → Type 0}
    (f : (a : A) (b : B) → R a b → Q b → P a) where
  Paired-All : (xs : List A) (ys : List B) → Paired R xs ys → All Q ys → All P xs
  Paired-All [] [] h k = tt
  Paired-All [] (y ∷ ys) h k = absurd h
  Paired-All (x ∷ xs) [] h k = absurd h
  Paired-All (x ∷ xs) (y ∷ ys) h k = (f x y h.0 k.0, Paired-All xs ys h.1 k.1)

  Paired-earlier :
      (xs : List A) (ys : List B) → Paired R xs ys → All Q (earlier ys) → All P (earlier xs)
  Paired-earlier [] [] h k = tt
  Paired-earlier [] (y ∷ ys) h k = absurd h
  Paired-earlier (x ∷ xs) [] h k = absurd h
  Paired-earlier (x ∷ xs) (y ∷ ys) h k = Paired-All xs ys h.1 k

module _ (auth : Auth) (files : Files) (doc_root : Text) where
  -- What a worker gives back for a request, in some state of the database and of the clock.
  abbrev pub Answers : Request → Response → Type 0
  Answers req r = (env : Env) × ((handle_request env auth files doc_root req).0 ≡ returned r)

  -- An answer of `handle_request` to that request, in its version, that keeps the connection exactly
  -- if the request asks for that.
  pub record Matches (req : Request) (r : Response) : Type 0 where
    pub answer : Answers req r
    pub version_kept : r.version ≡ req.version
    pub keep_alive_kept : r.keep_alive ≡ req.keep_alive

  Answers-Matches : (req : Request) (r : Response) → Answers req r → Matches req r
  Answers-Matches req r (env, e) =
      let echo = handle_request-Echoes env auth files doc_root req r e in
      record { answer = (env, e); version_kept = echo.0; keep_alive_kept = echo.1 }

  module _ (queue_limit : ℕ) (is_upgrade : Request → Bool) where
    -- With a positive limit, at every moment of a connection that `handle_request` serves, over any
    -- states of the database: the responses that are written are the handler's answers to the
    -- requests in the order of the requests, one for each but at most the last, each in its request's
    -- version; and of the requests that are answered only the last may have asked to close the
    -- connection.
    pub responses_match :
        {w : World Request Response} {qs : List Request}
        → Served queue_limit is_upgrade (λ r. r.keep_alive) Answers w qs
        → 0 < queue_limit
        → (waiting others : List Request) × (qs ≡ waiting ++ others)
          × (length waiting ≤ 1)
          × Paired Matches others w.written
          × All (λ req. req.keep_alive ≡ true) (earlier others)
    responses_match {w} served h =
        let s = answered_in_order queue_limit is_upgrade (λ r. r.keep_alive) Answers served h in
        let matches = Paired-map Answers-Matches s.1 w.written s.4 in
        let kept =
          kept_open_before queue_limit is_upgrade (λ r. r.keep_alive)
            (Served-Reach queue_limit is_upgrade (λ r. r.keep_alive) Answers served) h in
        (
          s.0,
          s.1,
          s.2,
          s.3,
          matches,
          Paired-earlier (λ req r m k. sym m.keep_alive_kept ∙ k) s.1 w.written matches kept,
        )
