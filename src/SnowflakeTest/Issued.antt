-- ===== src/SnowflakeTest/Issued.antt =====
-- The ids that the threads have drawn are ids of their generator (src/tests/snowflake_test.hpp).
use tinychat_server.Base.{
  ℕ, ◌≤◌, ◌≡◌, refl, ◌∙◌, List, [], ◌∷◌, ◌++◌, All, All-append, ◌==◌, Bool-cases, inl, inr, arith,
}
use tinychat_server.Snowflake.{SnowFlake, make_id}
use tinychat_server.Snowflake.Fields.{Fits, make_id-fields}
use tinychat_server.Snowflake.Order.{Ready, next_id-Issued}
use tinychat_server.SnowflakeTest.{
  Test, update, started, push_back, Step, draws, throws, Reach, here, next,
}
use tinychat_server.SnowflakeTest.Unique.{IsUnique, Reach-IsUnique}

-- An id of this generator, issued since then.
abbrev pub Drawn : SnowFlake → ℕ → Type 0
Drawn s i =
    (q : ℕ) × (t : ℕ) × Fits s.custom_epoch s.service_id q t
    × (s.last_timestamp ≤ t)
    × (i ≡ make_id s.custom_epoch s.service_id q t)

pub record IsIssued (s : SnowFlake) (w : Test) : Type 0 where
  pub epoch : w.snowflake.custom_epoch ≡ s.custom_epoch
  pub service : w.snowflake.service_id ≡ s.service_id
  pub since : s.last_timestamp ≤ w.snowflake.last_timestamp
  pub drawn : (i : ℕ) → All (Drawn s) (w.vv_id i)

pushed-Drawn :
    (s : SnowFlake) (f : ℕ → List ℕ) (k i : ℕ)
    → Drawn s i
    → ((j : ℕ) → All (Drawn s) (f j))
    → (j : ℕ) → All (Drawn s) (update f k (f k ++ i ∷ []) j)
pushed-Drawn s f k i d h j = elim (Bool-cases (k == j)) [
  | inl t ↦ rw t (All-append (Drawn s) (f k) (i ∷ []) (h k) (d, tt))
  | inr o ↦ rw o (h j)
]

Step-IsIssued :
    {s : SnowFlake} {w w' : Test} → Step w w' → IsUnique s w → IsIssued s w → IsIssued s w'
unfolding push_back
Step-IsIssued {s} {w} (draws k left drawn s' ts calm left_before e) u h =
    let issued = next_id-Issued w.snowflake w.clock drawn s' ts u.ready e in
    let since : s.last_timestamp ≤ s'.last_timestamp = omega (
      arith, issued.rises, issued.exact, issued.epoch, issued.service, h.since, u.ready.room,
      u.ready.after_epoch, issued.ready.room, issued.ready.after_epoch,
    ) in
    let epoch : s'.custom_epoch ≡ s.custom_epoch = issued.epoch ∙ h.epoch in
    let service : s'.service_id ≡ s.service_id = issued.service ∙ h.service in
    let fits : Fits s.custom_epoch s.service_id s'.sequence_id s'.last_timestamp =
      omega (arith, epoch, service, issued.ready) in
    record {
      epoch = epoch;
      service = service;
      since = since;
      drawn =
          pushed-Drawn s w.vv_id k drawn
            (
              s'.sequence_id,
              s'.last_timestamp,
              fits,
              since,
              omega (
                arith,
                issued.exact,
                epoch,
                service,
                make_id-fields s.custom_epoch s.service_id s'.sequence_id s'.last_timestamp fits,
              ),
            )
            h.drawn;
    }
Step-IsIssued {s} {w} (throws k left e s' ts calm left_before thrown) u h = record {
  epoch = h.epoch;
  service = h.service;
  since = h.since;
  drawn = h.drawn;
}

pub Reach-IsIssued :
    {s : SnowFlake} {ts : List ℕ} {w : Test} → Ready s ts → Reach s ts w → IsIssued s w
unfolding started
Reach-IsIssued r here = record {
  epoch = refl;
  service = refl;
  since = omega arith;
  drawn = λ i. tt;
}
Reach-IsIssued r (next reach st) =
    Step-IsIssued st (Reach-IsUnique r reach) (Reach-IsIssued r reach)
