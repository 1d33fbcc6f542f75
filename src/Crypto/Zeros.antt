-- ===== src/Crypto/Zeros.antt =====
-- internal/crypto/engine.go: the guard on a previous hash of 64 zeros.
use Prim.Native.String as Str
use Prim.Native.String.compare as Compare
use Prim.Native.Nat.{Ordering}
use Prim.Native.Nat as Nat
use Prim.Native.Char.{code}
use text.Mathlib.Text.{is_eq}
use text.Mathlib.TextLemmas as Text
use logryph.Base.{
  ℕ, zero, suc, ◌≤◌, ◌≡◌, refl, ap, ◌∙◌, Bool, true, false, not, ◌||◌, String, ◌==◌, count_char,
  repeat, nat_eq, if◌then◌else◌, arith,
}
use logryph.Crypto.{genesis_prev_hash}

count_char-le-count : (k : ℕ) (s : String) → count_char k s ≤ Str.count s
unfolding count_char
count_char-le-count k Str.[] = omega arith
count_char-le-count k (Str.◌∷◌ c s) = ground (arith, count_char-le-count k s, Text.length-cons c s)

head_zero :
    (b : Bool) (rest n : ℕ)
    → (if b then suc rest else rest) ≡ suc n
    → rest ≤ n
    → (b ≡ true) × (rest ≡ n)
head_zero true rest n h le = (refl, omega arith)
head_zero false rest n h le = absurd (omega arith)

equal_heads : (a : ℕ) (o : Ordering) → nat_eq a b'0' ≡ true → Str.then (Nat.compare a b'0') o ≡ o
equal_heads a o h = ground arith

-- A text of zeros alone.
zeros :
    (n : ℕ) (s : String)
    → Str.count s ≡ n
    → count_char b'0' s ≡ n
    → Str.compare s (repeat n "0") ≡ Ordering.eq
unfolding count_char
zeros zero Str.[] h k = λ i. Compare.nil-nil i
zeros (suc n) Str.[] h k = absurd (omega arith)
zeros zero (Str.◌∷◌ c s) h k = absurd (omega (arith, Text.length-cons c s))
zeros (suc n) (Str.◌∷◌ c s) h k =
    let long : Str.count s ≡ n = omega (arith, Text.length-cons c s) in
    let (b, r) =
      head_zero (nat_eq (code c) b'0') (count_char b'0' s) n k
        (omega (arith, count_char-le-count b'0' s)) in
    (λ i. Compare.cons-cons c "0" s (repeat n "0") i)
    ∙ equal_heads (code c) (Str.compare s (repeat n "0")) b
    ∙ zeros n s long r

-- A text of 64 characters with 64 zeros is the previous hash of a first event.
pub guard_passes :
    (h : String)
    → Str.count h ≡ 64
    → (not (nat_eq (count_char b'0' h) 64) || (h == genesis_prev_hash)) ≡ true
guard_passes h long = by_count (nat_eq (count_char b'0' h) 64) refl
  where
    by_count :
        (b : Bool) → nat_eq (count_char b'0' h) 64 ≡ b → (not b || (h == genesis_prev_hash)) ≡ true
    by_count false e = refl
    by_count true e = ap is_eq (zeros 64 h long (ground arith))
