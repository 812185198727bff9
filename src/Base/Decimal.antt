-- ===== src/Base/Decimal.antt =====
-- strconv.Itoa, of a number that is not negative.
use Prim.Native.Nat.{ℕ, zero, suc, ◌+◌, ◌-◌, ◌*◌, ◌^◌, ◌/◌, ◌%◌, ◌≤◌, ◌<◌}
use mathlib.Core.Bool.{true, false}
use mathlib.Core.List.{[], ◌∷◌}
use mathlib.Core.Option.{some}
use mathlib.Core.Path.{◌≡◌, refl, sym, ap, ◌∙◌}
use mathlib.Core.Logic.{inl, inr}
use native.Mathlib.Omega.{arith}
use native.Mathlib.Nat.{pow-suc}
use api_key_rotator.Base.Tests.{leb, leb→le, ◌==◌, if◌then◌else◌, Bool-cases}
use api_key_rotator.Base.Int.{pos}
use api_key_rotator.Base.Text.{Bytes, is_digit, digits_from, unsigned, positive, atoi}

-- The digits of `n` before `acc`. Each step takes one digit, so 20 are enough for 64 bits.
unfoldable pub digits_before : ℕ → ℕ → Bytes → Bytes
digits_before zero n acc = acc
digits_before (suc fuel) n acc =
    let more = digits_before fuel (n / 10) ((b'0' + n % 10) ∷ acc) in
    if leb n 9 then (b'0' + n) ∷ acc else more

unfoldable pub itoa : ℕ → Bytes
unfolding digits_before
itoa n = digits_before 20 n []

digits_from_digit :
    (m d k : ℕ) (acc : Bytes)
    → d ≤ 9
    → m * 10 + d ≡ k
    → digits_from m ((b'0' + d) ∷ acc) ≡ digits_from k acc
unfolding digits_from
digits_from_digit m d k acc h e =
    let value : b'0' + d - b'0' ≡ d = omega arith in
    let digit : is_digit (b'0' + d) ≡ true = ground (arith, h) in rw (value, digit, e) refl

le→leb : (a b : ℕ) → a ≤ b → leb a b ≡ true
le→leb a b h = ground arith

shorter : (k n : ℕ) → n < 10 ^ suc (suc k) → n / 10 < 10 ^ suc k
shorter k n h = let split = rw (pow-suc 10 (suc k)) at h in omega (arith, split)

digits_from-digits_before :
    (fuel n : ℕ) (acc : Bytes)
    → n < 10 ^ suc fuel
    → digits_from 0 (digits_before (suc fuel) n acc) ≡ digits_from n acc
unfolding digits_before
digits_from-digits_before zero n acc h =
    rw (le→leb n 9 (omega (arith, h)))
      (digits_from_digit 0 n n acc (omega (arith, h)) (omega arith))
digits_from-digits_before (suc fuel) n acc h = elim (Bool-cases (leb n 9)) [
  | inl last ↦ rw last (digits_from_digit 0 n n acc (leb→le n 9 last) (omega arith))
  | inr more ↦ rw more (
      digits_from-digits_before fuel (n / 10) ((b'0' + n % 10) ∷ acc) (shorter fuel n h)
      ∙ digits_from_digit (n / 10) (n % 10) n acc (omega arith) (omega arith))
]

digits_before_starts :
    (fuel n : ℕ) (acc : Bytes)
    → (c : ℕ) × (s : Bytes) × (digits_before (suc fuel) n acc ≡ c ∷ s) × (b'0' ≤ c)
unfolding digits_before
digits_before_starts zero n acc = elim (Bool-cases (leb n 9)) [
  | inl last ↦ (b'0' + n, acc, rw last refl, omega arith)
  | inr more ↦ (b'0' + n % 10, acc, rw more refl, omega arith)
]
digits_before_starts (suc fuel) n acc = elim (Bool-cases (leb n 9)) [
  | inl last ↦ (b'0' + n, acc, rw last refl, omega arith)
  | inr more ↦
      let (c, s, e, h) = digits_before_starts fuel (n / 10) ((b'0' + n % 10) ∷ acc) in
      (c, s, rw more e, h)
]

unsigned_digits :
    (bound c n : ℕ) (s : Bytes)
    → digits_from 0 (c ∷ s) ≡ some n
    → n ≤ bound
    → unsigned bound (c ∷ s) ≡ some n
unfolding unsigned
unsigned_digits bound c n s e b = rw (e, le→leb n bound b) refl

unsigned_only :
    (c : ℕ) (s : Bytes) → b'0' ≤ c → atoi (c ∷ s) ≡ positive (unsigned (2 ^ 63 - 1) (c ∷ s))
unfolding atoi
unsigned_only c s h =
    let minus : (c == b'-') ≡ false = ground (arith, h) in
    let plus : (c == b'+') ≡ false = ground (arith, h) in rw (minus, plus) refl

atoi_digits :
    (c n : ℕ) (s : Bytes)
    → b'0' ≤ c
    → digits_from 0 (c ∷ s) ≡ some n
    → n < 2 ^ 63
    → atoi (c ∷ s) ≡ some (pos n)
atoi_digits c n s h e b =
    rw (unsigned_only c s h, unsigned_digits (2 ^ 63 - 1) c n s e (omega (arith, b))) refl

-- strconv.Atoi reads what strconv.Itoa prints.
pub atoi-itoa : (n : ℕ) → n < 2 ^ 63 → atoi (itoa n) ≡ some (pos n)
unfolding itoa digits_from
atoi-itoa n h =
    let (c, s, e, digit) = digits_before_starts 19 n [] in
    rw e (
      atoi_digits c n s digit
        (ap (digits_from 0) (sym e) ∙ digits_from-digits_before 19 n [] (omega (arith, h))) h)
