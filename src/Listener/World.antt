-- ===== src/Listener/World.antt =====
-- The acceptor's loop with the completions of its accepts, in any order that Asio may give
-- (src/core/listener.cpp).
use mathlib.Core.List.{map-append}
use tinychat_server.Text.{Text}
use tinychat_server.Base.{
  map, ℕ, suc, ◌+◌, ◌≡◌, ◌≢◌, ◌⊎◌, inl, inr, refl, sym, ◌∙◌, ap, Bool, true, false, Option, none,
  some, List, [], ◌∷◌, ◌++◌, arith,
}
use tinychat_server.Listener.{
  Listener, listening, Action, async_accept, run_session, run, on_accept,
}

module _ (Socket : Type 0) where
  pub record World : Type 0 where
    pub listener : Listener
    pub pending : ℕ  -- accepts that are outstanding
    pub sessions : List (Socket × Text)  -- in the order in which they were started
    pub completed : List (Option Socket)  -- what the accepts came back with, in order

module _ {Socket : Type 0} where
  -- What Asio does with the actions of a handler.
  unfoldable pub perform : List (Action Socket) → World Socket → World Socket
  perform [] w = w
  perform (async_accept ∷ rest) w = perform rest (record w { pending = w.pending + 1 })
  perform (run_session s doc_root ∷ rest) w =
      perform rest (record w { sessions = w.sessions ++ (s, doc_root) ∷ [] })

  -- A handler that throws starts nothing.
  unfoldable pub handled : Option (List (Action Socket)) → World Socket → World Socket
  unfolding perform
  handled none w = w
  handled (some actions) w = perform actions w

  -- After the constructor and `run`.
  unfoldable pub started : Listener → World Socket
  unfolding perform run
  started l = perform run (record { listener = l; pending = 0; sessions = []; completed = [] })

  -- An accept comes back, with a socket only if the acceptor listens.
  pub data Step (w : World Socket) : World Socket → Type 0 where
    accepts :
        (n : ℕ) (s : Socket) (has_peer : Bool)
        → w.pending ≡ suc n
        → w.listener.acceptor ≡ listening
        → Step w (
            handled
              (on_accept w.listener (some s) has_peer)
              (record w { pending = n; completed = w.completed ++ some s ∷ [] }))
    fails :
        (n : ℕ)
        → w.pending ≡ suc n
        → Step w (
            handled
              (on_accept w.listener none true)
              (record w { pending = n; completed = w.completed ++ none ∷ [] }))

  pub data Reach (l : Listener) : World Socket → Type 0 where
    here : Reach l (started l)
    next : {w w' : World Socket} → Reach l w → Step w w' → Reach l w'

  -- `sockets` are the sockets with a session. Either all accepts came back with these and one is
  -- outstanding; or none is, and one more came back, which failed or whose peer was gone.
  abbrev Ends : List Socket → World Socket → Type 0
  Ends sockets w =
      ((w.pending ≡ 1) × (w.completed ≡ map some sockets))
      ⊎ ((w.pending ≡ 0) × (w.completed ≡ map some sockets ++ none ∷ []))
      ⊎ ((w.pending ≡ 0) × (socket : Socket) × (w.completed ≡ map some sockets ++ some socket ∷ []))

  pub record IsServing (l : Listener) (w : World Socket) : Type 0 where
    pub sockets : List Socket
    pub same : w.listener ≡ l
    pub served : w.sessions ≡ map (λ s. (s, l.doc_root)) sockets
    pub ends : Ends sockets w
    pub unheard : l.acceptor ≢ listening → w.sessions ≡ []

  Step-IsServing : {l : Listener} {w w' : World Socket} → Step w w' → IsServing l w → IsServing l w'
  unfolding handled perform on_accept
  Step-IsServing {l} {w} (accepts n s false e k) h = record {
    sockets = h.sockets;
    same = h.same;
    served = h.served;
    ends = elim h.ends [
      | inl (one, all) ↦ inr (inr (omega (arith, one, e), s, ap (λ c. c ++ some s ∷ []) all))
      | inr (inl (idle, all)) ↦ absurd (omega (arith, idle, e))
      | inr (inr (idle, last, all)) ↦ absurd (omega (arith, idle, e))
    ];
    unheard = h.unheard;
  }
  Step-IsServing {l} {w} (accepts n s true e k) h = record {
    sockets = h.sockets ++ s ∷ [];
    same = h.same;
    served =
        (λ i. h.served i ++ (s, (h.same i).doc_root) ∷ [])
        ∙ sym (map-append (λ s'. (s', l.doc_root)) h.sockets (s ∷ []));
    ends = elim h.ends [
      | inl (one, all) ↦ inl (
        omega (arith, one, e),
        ap (λ c. c ++ some s ∷ []) all ∙ sym (map-append some h.sockets (s ∷ [])),
      )
      | inr (inl (idle, all)) ↦ absurd (omega (arith, idle, e))
      | inr (inr (idle, last, all)) ↦ absurd (omega (arith, idle, e))
    ];
    unheard = λ u. absurd (u (ap (λ x. x.acceptor) (sym h.same) ∙ k));
  }
  Step-IsServing {l} {w} (fails n e) h = record {
    sockets = h.sockets;
    same = h.same;
    served = h.served;
    ends = elim h.ends [
      | inl (one, all) ↦ inr (inl (omega (arith, one, e), ap (λ c. c ++ none ∷ []) all))
      | inr (inl (idle, all)) ↦ absurd (omega (arith, idle, e))
      | inr (inr (idle, last, all)) ↦ absurd (omega (arith, idle, e))
    ];
    unheard = h.unheard;
  }

  -- At every time the sessions that were started are exactly the sockets that were accepted, each
  -- once, in that order and with the listener's document root, but for a last one whose peer was gone
  -- before its session was made. While no accept has failed and no peer was gone exactly one accept is
  -- outstanding; after the first such none is, and none came back since: the server accepts nobody
  -- any more. Where the constructor returned early no session is ever started.
  pub Reach-IsServing : {l : Listener} {w : World Socket} → Reach l w → IsServing l w
  unfolding started perform run
  Reach-IsServing here = record {
    sockets = [];
    same = refl;
    served = refl;
    ends = inl (refl, refl);
    unheard = λ u. refl;
  }
  Reach-IsServing (next r s) = Step-IsServing s (Reach-IsServing r)
