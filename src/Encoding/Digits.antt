-- ===== src/Encoding/Digits.antt =====
-- Numbers as lists of digits in a base, the least digit first.
use ab.Base.{ℕ, zero, suc, ◌+◌, ◌*◌, ◌/◌, ◌%◌, ◌<◌, ◌≡◌, refl, List, [], ◌∷◌, arith, length, All}

unfoldable pub digits : ℕ → ℕ → ℕ → List ℕ
digits base zero n = []
digits base (suc k) n = n % base ∷ digits base k (n / base)

-- The digits, and above them the number `top`.
unfoldable pub undigits : ℕ → List ℕ → ℕ → ℕ
undigits base [] top = top
undigits base (d ∷ ds) top = d + base * undigits base ds top

-- What is left of a number above its first digits.
unfoldable pub shift : ℕ → ℕ → ℕ → ℕ
shift base zero n = n
shift base (suc k) n = shift base k (n / base)

pub undigits-digits_32 : (k n : ℕ) → undigits 32 (digits 32 k n) (shift 32 k n) ≡ n
unfolding digits undigits shift
undigits-digits_32 zero n = refl
undigits-digits_32 (suc k) n = omega (arith, undigits-digits_32 k (n / 32))

pub digits-undigits_256 :
    (ds : List ℕ) → All (λ d. d < 256) ds → digits 256 (length ds) (undigits 256 ds 0) ≡ ds
unfolding digits undigits
digits-undigits_256 [] h = refl
digits-undigits_256 (d ∷ ds) h =
    let q : (d + 256 * undigits 256 ds 0) / 256 ≡ undigits 256 ds 0 = omega (arith, h.0) in
    let r : (d + 256 * undigits 256 ds 0) % 256 ≡ d = omega (arith, h.0) in
    rw (q, r, digits-undigits_256 ds h.1)
