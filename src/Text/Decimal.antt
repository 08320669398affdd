-- ===== src/Text/Decimal.antt =====
-- `std::stoull` and `std::to_string` on `u64`, in base ten.
use tinychat_server.Base.{
  ℕ, zero, suc, ◌+◌, ◌-◌, ◌*◌, ◌/◌, ◌%◌, ◌^◌, ◌≤◌, ◌<◌, ◌≡◌, refl, ◌∙◌, Bool, true, false, ◌&&◌,
  ◌||◌, Option, none, some, [], ◌∷◌, All, arith, leb, ◌==◌, inl, inr, Bool-cases, if◌then◌else◌,
}
use native.Mathlib.Nat.{pow-suc}
use tinychat_server.Text.{Text, codes}

is_digit : ℕ → Bool
is_digit c = leb b'0' c && leb c b'9'

-- `isspace` of the C locale.
is_space : ℕ → Bool
is_space c = c == 32 || (leb 9 c && leb c 13)

-- The number that the digits at the front of a text spell behind `n`.
magnitude : ℕ → Text → ℕ
unfolding is_digit
magnitude n [] = n
magnitude n (c ∷ s) = let rest = magnitude (n * 10 + (c - b'0')) s in if is_digit c then rest else n

starts_digit : Text → Bool
unfolding is_digit
starts_digit [] = false
starts_digit (c ∷ s) = is_digit c

unsigned : Bool → Text → Option ℕ
unfolding starts_digit magnitude
unsigned negative s =
    if starts_digit s
    then (let n = magnitude 0 s in
        if leb (2 ^ 64) n then none else some (if negative then (2 ^ 64 - n) % 2 ^ 64 else n))
    else none

signed : Text → Option ℕ
unfolding unsigned
signed [] = none
signed (c ∷ s) =
    if c == b'-'
    then unsigned true s
    else if c == b'+'
    then unsigned false s
    else unsigned false (c ∷ s)

-- Leading space is skipped, a sign is taken, and what stands behind the digits is ignored. `none`
-- is an exception: no digits, or a number that does not fit.
unfoldable pub stoull : Text → Option ℕ
unfolding signed is_space
stoull [] = signed []
stoull (c ∷ s) = let rest = stoull s in if is_space c then rest else signed (c ∷ s)

print : ℕ → ℕ → Text → Text
print zero n out = out
print (suc fuel) n out =
    let rest = print fuel (n / 10) ((b'0' + n % 10) ∷ out) in
    if n / 10 == 0 then (b'0' + n % 10) ∷ out else rest

-- Twenty digits are enough for every `u64`.
unfoldable pub to_string : ℕ → Text
unfolding print
to_string n = print 20 n []

magnitude-digit :
    (a d : ℕ) (s : Text) → d < 10 → magnitude a ((b'0' + d) ∷ s) ≡ magnitude (a * 10 + d) s
unfolding magnitude
magnitude-digit a d s h = let shift : b'0' + d - b'0' ≡ d = omega arith in rw shift (ground arith)

magnitude-print :
    (fuel n : ℕ) (out : Text) → n < 10 ^ fuel → magnitude 0 (print fuel n out) ≡ magnitude n out
unfolding print
magnitude-print zero n out h = let e : n ≡ 0 = omega arith in rw e
magnitude-print (suc fuel) n out h = elim (Bool-cases (n / 10 == 0)) [
  | inl last ↦
      let same : 0 * 10 + n % 10 ≡ n = ground arith in
      rw last (magnitude-digit 0 (n % 10) out (omega arith) ∙ rw same)
  | inr more ↦
      let same : n / 10 * 10 + n % 10 ≡ n = omega arith in
      rw more (
        magnitude-print fuel (n / 10) ((b'0' + n % 10) ∷ out) (omega (arith, pow-suc 10 fuel))
        ∙ magnitude-digit (n / 10) (n % 10) out (omega arith)
        ∙ rw same)
]

print_digit :
    (fuel n : ℕ) (out : Text)
    → (d : ℕ) × (s : Text) × (print (suc fuel) n out ≡ (b'0' + d) ∷ s) × (d < 10)
unfolding print
print_digit zero n out = (n % 10, out, ground arith, omega arith)
print_digit (suc fuel) n out = elim (Bool-cases (n / 10 == 0)) [
  | inl last ↦ (n % 10, out, rw last, omega arith)
  | inr more ↦ rw more (print_digit fuel (n / 10) ((b'0' + n % 10) ∷ out))
]

abbrev pub IsDigits : Text → Type 0
IsDigits = All (λ c. (b'0' ≤ c) × (c ≤ b'9'))

print-IsDigits : (fuel n : ℕ) (out : Text) → IsDigits out → IsDigits (print fuel n out)
unfolding print
print-IsDigits zero n out h = h
print-IsDigits (suc fuel) n out h = elim (Bool-cases (n / 10 == 0)) [
  | inl last ↦ rw last (omega arith, h)
  | inr more ↦ rw more (print-IsDigits fuel (n / 10) ((b'0' + n % 10) ∷ out) (omega arith, h))
]

-- A number is printed in digits.
pub to_string-IsDigits : (n : ℕ) → IsDigits (to_string n)
unfolding to_string
to_string-IsDigits n = print-IsDigits 20 n [] tt

stoull-digit :
    (d : ℕ) (s : Text) (n : ℕ)
    → d < 10
    → magnitude 0 ((b'0' + d) ∷ s) ≡ n
    → n < 2 ^ 64
    → stoull ((b'0' + d) ∷ s) ≡ some n
unfolding stoull
stoull-digit d s n h e fits = ground arith

-- A printed `u64` is read back.
pub stoull-to_string : (n : ℕ) → n < 2 ^ 64 → stoull (to_string n) ≡ some n
unfolding to_string magnitude
stoull-to_string n h =
    let (d, s, e, small) = print_digit 19 n [] in
    rw e (stoull-digit d s n small (rw e at (magnitude-print 20 n [] (omega arith))) h)

reads_loosely : stoull (codes " 12abc") ≡ some 12
unfolding stoull
reads_loosely = refl

wraps_negative : stoull (codes "-1") ≡ some 18446744073709551615
unfolding stoull
wraps_negative = refl

prints : to_string 1204 ≡ codes "1204"
unfolding to_string
prints = refl
