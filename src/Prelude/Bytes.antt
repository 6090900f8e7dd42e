-- ===== src/Prelude/Bytes.antt =====
-- Little-endian bytes: `to_le_bytes` and `from_le_bytes` of the standard library's integers, over a
-- word of `k` bytes.
use Prim.Native.Nat.{ℕ, zero, suc, ◌+◌, ◌*◌, ◌/◌, ◌%◌, ◌^◌, ◌<◌}
use mathlib.Core.Path.{◌≡◌, refl, ap}
use mathlib.Core.List.{List, [], ◌∷◌}
use native.Mathlib.Nat.{pow-suc}
use native.Mathlib.Omega.{arith}
use wasm_gpu.Prelude.Lists.{length, All}

unfoldable pub to_le_bytes : ℕ → ℕ → List ℕ
to_le_bytes zero n = []
to_le_bytes (suc k) n = n % 256 ∷ to_le_bytes k (n / 256)

unfoldable pub from_le_bytes : List ℕ → ℕ
from_le_bytes [] = 0
from_le_bytes (b ∷ bs) = b + 256 * from_le_bytes bs

abbrev pub IsByte : ℕ → Type 0
IsByte b = b < 256

pub length-to_le_bytes : (k n : ℕ) → length (to_le_bytes k n) ≡ k
unfolding to_le_bytes
length-to_le_bytes zero n = refl
length-to_le_bytes (suc k) n = ap suc (length-to_le_bytes k (n / 256))

pub from_le_bytes-to_le_bytes : (k n : ℕ) → n < 256 ^ k → from_le_bytes (to_le_bytes k n) ≡ n
unfolding to_le_bytes from_le_bytes
from_le_bytes-to_le_bytes zero n h = omega arith
from_le_bytes-to_le_bytes (suc k) n h =
    omega (arith, from_le_bytes-to_le_bytes k (n / 256) (omega (arith, pow-suc 256 k)))

pub from_le_bytes-lt : (bs : List ℕ) → All IsByte bs → from_le_bytes bs < 256 ^ length bs
unfolding from_le_bytes
from_le_bytes-lt [] h = omega arith
from_le_bytes-lt (b ∷ bs) h = omega (arith, from_le_bytes-lt bs h.1, h.0, pow-suc 256 (length bs))

pub to_le_bytes-from_le_bytes :
    (k : ℕ) (bs : List ℕ) → All IsByte bs → length bs ≡ k → to_le_bytes k (from_le_bytes bs) ≡ bs
unfolding to_le_bytes from_le_bytes
to_le_bytes-from_le_bytes zero [] h e = refl
to_le_bytes-from_le_bytes zero (b ∷ bs) h e = absurd (omega arith)
to_le_bytes-from_le_bytes (suc k) [] h e = absurd (omega arith)
to_le_bytes-from_le_bytes (suc k) (b ∷ bs) h e =
    let low : (b + 256 * from_le_bytes bs) % 256 ≡ b = omega (arith, h.0) in
    let high : (b + 256 * from_le_bytes bs) / 256 ≡ from_le_bytes bs = omega (arith, h.0) in
    rw (low, high) (ap (◌∷◌ b) (to_le_bytes-from_le_bytes k bs h.1 (omega arith)))
