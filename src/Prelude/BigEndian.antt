-- ===== src/Prelude/BigEndian.antt =====
-- encoding/binary's BigEndian: PutUint64, PutUint32, PutUint16 and the reads.
use t.Prelude.Tests.{ltb, ◌==◌, if◌then◌else◌}
use t.Prelude.Lists.{length, length-append}
use t.Prelude.Strings.{Bytes, AreBytes, bytes_lt}
use Prim.Native.Nat.{ℕ, zero, suc, ◌+◌, ◌*◌, ◌/◌, ◌%◌, ◌^◌, ◌<◌}
use native.Mathlib.Nat.{pow-suc}
use mathlib.Core.Path.{◌≡◌, refl, ◌∙◌}
use mathlib.Core.List.{[], ◌∷◌, ◌++◌, append_assoc}
use mathlib.Core.Bool.{true, false}
use native.Mathlib.Omega.{arith}

-- The low `w` bytes of `x`, the highest first.
unfoldable pub put_be : ℕ → ℕ → Bytes
put_be zero x = []
put_be (suc w) x = put_be w (x / 256) ++ (x % 256) ∷ []

unfoldable pub from_be_acc : ℕ → Bytes → ℕ
from_be_acc acc [] = acc
from_be_acc acc (b ∷ bs) = from_be_acc (acc * 256 + b) bs

unfoldable pub from_be : Bytes → ℕ
unfolding from_be_acc
from_be bs = from_be_acc 0 bs

from_be_acc-snoc :
    (acc : ℕ) (bs : Bytes) (b : ℕ) → from_be_acc acc (bs ++ b ∷ []) ≡ from_be_acc acc bs * 256 + b
unfolding from_be_acc
from_be_acc-snoc acc [] b = refl
from_be_acc-snoc acc (c ∷ bs) b = from_be_acc-snoc (acc * 256 + c) bs b

pub length-put_be : (w x : ℕ) → length (put_be w x) ≡ w
unfolding put_be
length-put_be zero x = refl
length-put_be (suc w) x =
    omega (arith, length-append (put_be w (x / 256)) ((x % 256) ∷ []), length-put_be w (x / 256))

-- A number that fits comes back.
pub from_be-put_be : (w x : ℕ) → x < 256 ^ w → from_be (put_be w x) ≡ x
unfolding put_be from_be
from_be-put_be zero x h = omega arith
from_be-put_be (suc w) x h =
    from_be_acc-snoc 0 (put_be w (x / 256)) (x % 256)
    ∙ omega (arith, from_be-put_be w (x / 256) (omega (arith, pow-suc 256 w)))

pub put_be-AreBytes : (w x : ℕ) (rest : Bytes) → AreBytes rest → AreBytes (put_be w x ++ rest)
unfolding put_be
put_be-AreBytes zero x rest h = h
put_be-AreBytes (suc w) x rest h =
    rw (append_assoc (put_be w (x / 256)) ((x % 256) ∷ []) rest)
      (put_be-AreBytes w (x / 256) ((x % 256) ∷ rest) (omega arith, h))

-- The order of the bytes is the order of the numbers.
pub bytes_lt-put_be :
    (w a b : ℕ) (us vs : Bytes)
    → a < 256 ^ w
    → b < 256 ^ w
    → bytes_lt (put_be w a ++ us) (put_be w b ++ vs)
      ≡ (if ltb a b then true else if a == b then bytes_lt us vs else false)
unfolding put_be bytes_lt
bytes_lt-put_be zero a b us vs ha hb = ground arith
bytes_lt-put_be (suc w) a b us vs ha hb =
    rw (append_assoc (put_be w (a / 256)) ((a % 256) ∷ []) us) (
      rw (append_assoc (put_be w (b / 256)) ((b % 256) ∷ []) vs) (
        ground (
          arith,
          bytes_lt-put_be w (a / 256) (b / 256) ((a % 256) ∷ us) ((b % 256) ∷ vs)
              (omega (arith, pow-suc 256 w)) (omega (arith, pow-suc 256 w)),
        )))
