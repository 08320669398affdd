-- ===== src/Listener/Witnesses.antt =====
-- A run of src/core/listener.cpp at which the theorem is applied.
use tinychat_server.Base.{ℕ, refl, true, some, none, [], ◌∷◌}
use tinychat_server.Text.{codes}
use tinychat_server.Listener.{Acceptor, Answers, create, on_accept}
use tinychat_server.Listener.World.{
  Reach, here, next, accepts, fails, started, perform, handled, World, IsServing, Reach-IsServing,
}

abbrev all_well : Answers
all_well = record { open_ok = true; set_option_ok = true; bind_ok = true; listen_ok = true }

-- Two clients connect, and the third accept fails.
abbrev world : World ℕ
world = record {
  listener = record { acceptor = Acceptor.listening; doc_root = codes "www" };
  pending = 0;
  sessions = (4, codes "www") ∷ (7, codes "www") ∷ [];
  completed = some 4 ∷ some 7 ∷ none ∷ [];
}

Reach-world : Reach (create all_well (codes "www")) world
unfolding create started perform handled on_accept
Reach-world =
    next (next (next here (accepts 0 4 true refl refl)) (accepts 0 7 true refl refl)) (fails 0 refl)

Reach-IsServing_example : IsServing (create all_well (codes "www")) world
Reach-IsServing_example = Reach-IsServing Reach-world
