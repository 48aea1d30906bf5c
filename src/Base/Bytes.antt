-- ===== src/Base/Bytes.antt =====
-- Byte strings, with the searches of `std::string_view` that the program uses.
use quic_proxy.Base.Tests.{◌==◌, if◌then◌else◌}
use quic_proxy.Base.Lists.{length}
use Prim.Native.Nat.{ℕ, suc}
use Prim.Native.Char.{code}
use Prim.Native.String.{String}
use mathlib.Core.Path.{◌≡◌, refl}
use mathlib.Core.Logic.{◌≢◌, ◌↔◌}
use mathlib.Core.Bool.{Bool, true, false, ◌&&◌}
use mathlib.Core.Option
use mathlib.Core.Option.{Option, none, some}
use mathlib.Core.List.{List, [], ◌∷◌, ◌++◌}
use native.Mathlib.Omega.{arith}

abbrev pub Bytes : Type 0
Bytes = List ℕ

-- The bytes of an ASCII literal.
abbrev pub codes : String → Bytes
codes String.[] = []
codes (String.◌∷◌ c s) = code c ∷ codes s

unfoldable pub bytes_eq : Bytes → Bytes → Bool
bytes_eq [] [] = true
bytes_eq [] (y ∷ ys) = false
bytes_eq (x ∷ xs) [] = false
bytes_eq (x ∷ xs) (y ∷ ys) = x == y && bytes_eq xs ys

-- `text.substr(0, length pattern) == pattern`
unfoldable pub is_prefix : Bytes → Bytes → Bool
is_prefix [] ys = true
is_prefix (x ∷ xs) [] = false
is_prefix (x ∷ xs) (y ∷ ys) = x == y && is_prefix xs ys

-- `text.find(pattern)`; `none` is npos.
unfoldable pub find : Bytes → Bytes → Option ℕ
unfolding is_prefix
find pattern [] = if is_prefix pattern [] then some 0 else none
find pattern (x ∷ xs) =
    if is_prefix pattern (x ∷ xs) then some 0 else Option.map suc (find pattern xs)

pub bytes_eq-eq : (xs ys : Bytes) → bytes_eq xs ys ≡ true → xs ≡ ys
unfolding bytes_eq
bytes_eq-eq [] [] h = refl
bytes_eq-eq [] (y ∷ ys) h = cc
bytes_eq-eq (x ∷ xs) [] h = cc
bytes_eq-eq (x ∷ xs) (y ∷ ys) h = ground (arith, bytes_eq-eq xs ys)

pub bytes_eq_self : (xs : Bytes) → bytes_eq xs xs ≡ true
unfolding bytes_eq
bytes_eq_self [] = refl
bytes_eq_self (x ∷ xs) = ground (arith, bytes_eq_self xs)

-- No byte of the string is `c`.
abbrev pub Avoids : ℕ → Bytes → Type 0
Avoids c [] = Unit {0}
Avoids c (x ∷ xs) = (x ≢ c) × Avoids c xs

pub is_prefix_self : (xs ys : Bytes) → is_prefix xs (xs ++ ys) ≡ true
unfolding is_prefix
is_prefix_self [] ys = refl
is_prefix_self (x ∷ xs) ys = ground (arith, is_prefix_self xs ys)

-- The first occurrence, where the text before it avoids the pattern's first byte.
pub find-append :
    (c : ℕ) (pattern before rest : Bytes)
    → Avoids c before
    → find (c ∷ pattern) (before ++ (c ∷ pattern ++ rest)) ≡ some (length before)
unfolding find
find-append c pattern [] rest a = ground (arith, is_prefix_self pattern rest)
find-append c pattern (x ∷ before) rest a = ground (arith, find-append c pattern before rest a.1)

-- What a C string shows of a text: the bytes before the first NUL.
unfoldable pub c_str : Bytes → Bytes
c_str [] = []
c_str (x ∷ xs) = if x == 0 then [] else x ∷ c_str xs

pub c_str-Avoids : (xs : Bytes) → Avoids 0 xs → c_str xs ≡ xs
unfolding c_str
c_str-Avoids [] a = refl
c_str-Avoids (x ∷ xs) a = ground (arith, c_str-Avoids xs a.1)

pub Avoids-append : (c : ℕ) (xs ys : Bytes) → Avoids c xs → Avoids c ys → Avoids c (xs ++ ys)
Avoids-append c [] ys a b = b
Avoids-append c (x ∷ xs) ys a b = (a.0, Avoids-append c xs ys a.1 b)

pub bytes_eq_iff : (xs ys : Bytes) → (bytes_eq xs ys ≡ true) ↔ (xs ≡ ys)
bytes_eq_iff xs ys = (bytes_eq-eq xs ys, λ e. rw e (bytes_eq_self ys))
