-- ===== src/SessionMgr/Unordered.antt =====
-- The registry without the layout of its map: entry lists up to what `find` answers
-- (src/core/ws_session_mgr.cpp).
use mathlib.Core.Quot
use mathlib.Core.Quot.{Quot, Quot-set}
use native.Mathlib.Nat.{ℕ_set}
use tinychat_server.Base.{ℕ, ◌≡◌, ◌↔◌, sym, ◌∙◌, ap, List}
use tinychat_server.Text.{Text}
use tinychat_server.SessionMgr.{Sessions}
use tinychat_server.SessionMgr.Map.{Distinct}
use tinychat_server.SessionMgr.Refine.{Op, run, Directory, replay, directory, run_refines}

-- The entries of a map, in some order.
abbrev pub Held : Type 0
Held = (m : Sessions) × Distinct m

abbrev pub FindSame : Held → Held → Type 0
FindSame a b = directory a.0 ≡ directory b.0

abbrev pub Registry : Type 0
Registry = Quot FindSame

Directory-set : IsSet Directory
Directory-set = hlevel ℕ_set

Outcome-set : IsSet (List (ℕ × Text) × Registry)
Outcome-set = hlevel (ℕ_set, Quot-set)

pub find_in : Registry → Directory
find_in = Quot.lift Directory-set (λ a. directory a.0) (λ a b h. h)

abbrev held_after : List Op → Held → Held
held_after ops (m, d) = ((run ops m).1, (run_refines ops m d).2)

-- Lists that answer alike send alike, and answer alike afterwards.
run_same :
    (ops : List Op) (a b : Held)
    → FindSame a b
    → ((run ops a.0).0 ≡ (run ops b.0).0) × FindSame (held_after ops a) (held_after ops b)
run_same ops (m, d) (m', d') h =
    let (sent, same, _) = run_refines ops m d in
    let (sent', same', _) = run_refines ops m' d' in
    (
      sent ∙ ap (λ f. (replay ops f).0) h ∙ sym sent',
      same ∙ ap (λ f. (replay ops f).1) h ∙ sym same',
    )

-- A sequence of calls, on the registry.
pub run_in : List Op → Registry → List (ℕ × Text) × Registry
run_in ops =
    Quot.lift Outcome-set (λ a. ((run ops a.0).0, Quot.mk (held_after ops a)))
      (λ a b h. λ i. (
        (run_same ops a b h).0 i,
        Quot.sound {a = held_after ops a} {b = held_after ops b} (run_same ops a b h).1 i,
      ))

find_in-injective : (r r' : Registry) → find_in r ≡ find_in r' → r ≡ r'
unfolding find_in
find_in-injective =
    Quot.ind (λ r. hlevel Quot-set) (λ a. Quot.ind (λ r'. hlevel Quot-set) (λ b h. Quot.sound h))

run_in-replay :
    (ops : List Op) (r : Registry)
    → ((run_in ops r).0 ≡ (replay ops (find_in r)).0)
      × (find_in (run_in ops r).1 ≡ (replay ops (find_in r)).1)
unfolding find_in run_in
run_in-replay ops =
    Quot.ind (λ r. hlevel (ℕ_set, Quot-set))
      (λ a. ((run_refines ops a.0 a.1).0, (run_refines ops a.0 a.1).1))

-- On maps whose layout is forgotten, any sequence of calls hands on the same messages, to the same
-- sessions and in the same order, as the specification does on a function from users to sessions;
-- and a registry is the one that the calls lead to exactly if its `find` answers as the
-- specification's function does afterwards. So `find` is all there is to a registry.
pub run_in_refines :
    (ops : List Op) (r r' : Registry)
    → ((run_in ops r).0 ≡ (replay ops (find_in r)).0)
      × (((run_in ops r).1 ≡ r') ↔ (find_in r' ≡ (replay ops (find_in r)).1))
run_in_refines ops r r' =
    let (sent, found) = run_in-replay ops r in
    (
      sent,
      (λ e. ap find_in (sym e) ∙ found, λ h. find_in-injective (run_in ops r).1 r' (found ∙ sym h)),
    )
