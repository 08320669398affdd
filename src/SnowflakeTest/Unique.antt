-- ===== src/SnowflakeTest/Unique.antt =====
-- The threads never draw one id twice (src/tests/snowflake_test.hpp, src/utils/snowflake.cpp).
use tinychat_server.Base.{
  ℕ, suc, ◌+◌, ◌≤◌, ◌<◌, ◌≡◌, ◌≢◌, refl, false, List, [], ◌∷◌, ◌++◌, All, All-append, All-map,
  length, length-append, ◌==◌, ltb, Bool-cases, inl, inr, arith, if◌then◌else◌,
}
use mathlib.Core.Path.{subst}
use tinychat_server.Snowflake.{SnowFlake, Error, threw, next_id}
use tinychat_server.Snowflake.Order.{
  Ready, Rising, last_id, next_id-Issued, Returns, next_id-Returns,
}
use tinychat_server.SnowflakeTest.{
  Test, update, started, push_back, Step, draws, throws, Reach, here, next,
}

Rising-snoc :
    (low x : ℕ) (is : List ℕ)
    → Rising low is
    → low < x
    → All (λ y. y < x) is
    → Rising low (is ++ x ∷ [])
Rising-snoc low x [] r h a = (h, tt)
Rising-snoc low x (i ∷ is) r h a = (r.0, Rising-snoc i x is r.1 a.0 a.1)

-- No number stands in both lists.
abbrev pub Apart : List ℕ → List ℕ → Type 0
Apart xs ys = All (λ x. All (λ y. x ≢ y) ys) xs

abbrev pub Below : ℕ → List ℕ → Type 0
Below n is = All (λ y. y ≤ n) is

Apart-push_right :
    (n x : ℕ) (xs ys : List ℕ) → n < x → Below n xs → Apart xs ys → Apart xs (ys ++ x ∷ [])
Apart-push_right n x [] ys h b a = tt
Apart-push_right n x (z ∷ xs) ys h b a = (
  All-append (λ y. z ≢ y) ys (x ∷ []) a.0 ((λ e. absurd (omega arith)), tt),
  Apart-push_right n x xs ys h b.1 a.1,
)

Apart-push_left :
    (n x : ℕ) (xs ys : List ℕ) → n < x → Below n ys → Apart xs ys → Apart (xs ++ x ∷ []) ys
Apart-push_left n x xs ys h b a =
    All-append (λ z. All (λ y. z ≢ y) ys) xs (x ∷ []) a
      (All-map (λ y. y ≤ n) (λ y. x ≢ y) ys (λ y k e. absurd (omega arith)) b, tt)

Below-up : (n m : ℕ) (is : List ℕ) → n ≤ m → Below n is → Below m is
Below-up n m is h b = All-map (λ y. y ≤ n) (λ y. y ≤ m) is (λ y k. omega arith) b

pub record IsUnique (s : SnowFlake) (w : Test) : Type 0 where
  pub ready : Ready w.snowflake w.clock
  pub later : last_id s ≤ last_id w.snowflake
  pub below : (i : ℕ) → Below (last_id w.snowflake) (w.vv_id i)
  pub rising : (i : ℕ) → Rising (last_id s) (w.vv_id i)
  pub apart : (i j : ℕ) → i ≢ j → Apart (w.vv_id i) (w.vv_id j)
  pub counted : (i : ℕ) → length (w.vv_id i) + w.rounds i ≡ (if ltb i 4 then 10 else 0)
  pub calm : w.terminated ≡ false

never_throws :
    (s : SnowFlake) (ts : List ℕ) (e : Error) (s' : SnowFlake) (ts' : List ℕ)
    → Ready s ts
    → ¬ (next_id s ts ≡ (threw e, s', ts'))
unfolding Returns
never_throws s ts e s' ts' h k = subst (Returns s) k (next_id-Returns s ts h)

-- The facts of one round: thread `k` draws `drawn`, which is above `last`, the last id before.
module _ (f : ℕ → List ℕ) (k drawn last : ℕ) (rises : last < drawn)
    (below : (i : ℕ) → Below last (f i)) where
  abbrev pushed : ℕ → List ℕ
  pushed = update f k (f k ++ drawn ∷ [])

  pushed-Below : (i : ℕ) → Below drawn (pushed i)
  pushed-Below i = elim (Bool-cases (k == i)) [
    | inl t ↦ rw t (
        All-append (λ y. y ≤ drawn) (f k) (drawn ∷ [])
          (Below-up last drawn (f k) (omega arith) (below k)) (omega arith, tt))
    | inr o ↦ rw o (Below-up last drawn (f i) (omega arith) (below i))
  ]

  pushed-Rising :
      (low : ℕ) → low ≤ last → ((i : ℕ) → Rising low (f i)) → (i : ℕ) → Rising low (pushed i)
  pushed-Rising low h r i = elim (Bool-cases (k == i)) [
    | inl t ↦ rw t (
        Rising-snoc low drawn (f k) (r k) (omega arith)
          (All-map (λ y. y ≤ last) (λ y. y < drawn) (f k) (λ y b. omega arith) (below k)))
    | inr o ↦ rw o (r i)
  ]

  pushed-Apart :
      ((i j : ℕ) → i ≢ j → Apart (f i) (f j)) → (i j : ℕ) → i ≢ j → Apart (pushed i) (pushed j)
  pushed-Apart a i j ne = elim (Bool-cases (k == i)) [
    | inl t ↦ elim (Bool-cases (k == j)) [
      | inl u ↦ absurd (ground arith)
      | inr u ↦
          rw (t, u) (Apart-push_left last drawn (f k) (f j) rises (below j) (a k j (ground arith)))
    ]
    | inr t ↦ elim (Bool-cases (k == j)) [
      | inl u ↦
          rw (t, u) (Apart-push_right last drawn (f i) (f k) rises (below i) (a i k (ground arith)))
      | inr u ↦ rw (t, u) (a i j ne)
    ]
  ]

pushed_count :
    (f : ℕ → List ℕ) (rounds total : ℕ → ℕ) (k left drawn : ℕ)
    → rounds k ≡ suc left
    → ((i : ℕ) → length (f i) + rounds i ≡ total i)
    → (i : ℕ) → length (update f k (f k ++ drawn ∷ []) i) + update rounds k left i ≡ total i
pushed_count f rounds total k left drawn e h i = elim (Bool-cases (k == i)) [
  | inl t ↦
      let same : i ≡ k = ground arith in
      rw same (ground (arith, length-append (f k) (drawn ∷ []), h k))
  | inr o ↦ rw o (h i)
]

Step-IsUnique : {s : SnowFlake} {w w' : Test} → Step w w' → IsUnique s w → IsUnique s w'
unfolding push_back
Step-IsUnique {s} {w} (draws k left drawn s' ts calm left_before e) h =
    let issued = next_id-Issued w.snowflake w.clock drawn s' ts h.ready e in
    let last = last_id w.snowflake in
    let exact : drawn ≡ last_id s' = issued.exact in
    record {
      ready = issued.ready;
      later = omega (arith, issued.rises, h.later, exact);
      below = λ i.
          Below-up drawn (last_id s') _ (omega (arith, exact))
            (pushed-Below w.vv_id k drawn last issued.rises h.below i);
      rising = pushed-Rising w.vv_id k drawn last issued.rises h.below (last_id s) h.later h.rising;
      apart = pushed-Apart w.vv_id k drawn last issued.rises h.below h.apart;
      counted = λ i.
          pushed_count w.vv_id w.rounds (λ j. if ltb j 4 then 10 else 0) k left drawn left_before
            h.counted i;
      calm = calm;
    }
Step-IsUnique {s} {w} (throws k left e s' ts calm left_before thrown) h =
    absurd (never_throws w.snowflake w.clock e s' ts h.ready thrown)

-- In any interleaving, with a generator that is ready, no thread ends the program with an
-- exception, the ids of each thread rise strictly, no id is
-- drawn by two threads, and a thread that is done has drawn ten ids if it is one of the four, and
-- none otherwise.
pub Reach-IsUnique :
    {s : SnowFlake} {ts : List ℕ} {w : Test} → Ready s ts → Reach s ts w → IsUnique s w
unfolding started
Reach-IsUnique r here = record {
  ready = r;
  later = omega arith;
  below = λ i. tt;
  rising = λ i. tt;
  apart = λ i j ne. tt;
  counted = λ i. omega arith;
  calm = refl;
}
Reach-IsUnique r (next reach st) = Step-IsUnique st (Reach-IsUnique r reach)
