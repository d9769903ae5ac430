-- ===== src/Base/Order.antt =====
-- The order of texts, Rust's `Ord` of `String`: by code points from the left, which is also the
-- order of their UTF-8 bytes.
use Prim.Native.Nat.{compare, Ordering}
use Prim.Native.Char.{code}
use Prim.Native.String as Text
use Prim.Native.String.{String}
use text.Mathlib.TextEquality.{Char-path}
use mathlib.Core.Path.{◌≡◌, refl, ap₂}
use mathlib.Core.Logic.{◌⊎◌, inl, inr}
use native.Mathlib.Omega.{arith}

-- the first difference decides
abbrev decide_by : Ordering → Ordering → Ordering
decide_by Ordering.lt rest = Ordering.lt
decide_by Ordering.eq rest = rest
decide_by Ordering.gt rest = Ordering.gt

unfoldable pub str_cmp : String → String → Ordering
str_cmp Text.[] Text.[] = Ordering.eq
str_cmp Text.[] (Text.◌∷◌ d t) = Ordering.lt
str_cmp (Text.◌∷◌ c s) Text.[] = Ordering.gt
str_cmp (Text.◌∷◌ c s) (Text.◌∷◌ d t) = decide_by (compare (code c) (code d)) (str_cmp s t)

pub str_cmp-eq : (s t : String) → str_cmp s t ≡ Ordering.eq → s ≡ t
unfolding str_cmp
str_cmp-eq Text.[] Text.[] h = refl
str_cmp-eq Text.[] (Text.◌∷◌ d t) h = cc
str_cmp-eq (Text.◌∷◌ c s) Text.[] h = cc
str_cmp-eq (Text.◌∷◌ c s) (Text.◌∷◌ d t) h =
    ap₂ Text.◌∷◌ (Char-path c d (ground arith)) (str_cmp-eq s t (ground arith))

pub str_cmp_self : (s : String) → str_cmp s s ≡ Ordering.eq
unfolding str_cmp
str_cmp_self Text.[] = refl
str_cmp_self (Text.◌∷◌ c s) = ground (arith, str_cmp_self s)

pub str_cmp-gt : (s t : String) → str_cmp s t ≡ Ordering.gt → str_cmp t s ≡ Ordering.lt
unfolding str_cmp
str_cmp-gt Text.[] Text.[] h = cc
str_cmp-gt Text.[] (Text.◌∷◌ d t) h = cc
str_cmp-gt (Text.◌∷◌ c s) Text.[] h = refl
str_cmp-gt (Text.◌∷◌ c s) (Text.◌∷◌ d t) h = ground (arith, str_cmp-gt s t)

pub str_cmp-lt_trans :
    (s t u : String)
    → str_cmp s t ≡ Ordering.lt
    → str_cmp t u ≡ Ordering.lt
    → str_cmp s u ≡ Ordering.lt
unfolding str_cmp
str_cmp-lt_trans Text.[] Text.[] u h k = cc
str_cmp-lt_trans (Text.◌∷◌ c s) Text.[] u h k = cc
str_cmp-lt_trans Text.[] (Text.◌∷◌ d t) Text.[] h k = cc
str_cmp-lt_trans Text.[] (Text.◌∷◌ d t) (Text.◌∷◌ x u) h k = refl
str_cmp-lt_trans (Text.◌∷◌ c s) (Text.◌∷◌ d t) Text.[] h k = cc
str_cmp-lt_trans (Text.◌∷◌ c s) (Text.◌∷◌ d t) (Text.◌∷◌ x u) h k =
    ground (arith, str_cmp-lt_trans s t u)

pub cmp_cases :
    (s t : String) → (str_cmp s t ≡ Ordering.lt) ⊎ ((str_cmp t s ≡ Ordering.lt) ⊎ (s ≡ t))
cmp_cases s t = go (str_cmp s t) refl
  where
    go :
        (o : Ordering)
        → str_cmp s t ≡ o
        → (str_cmp s t ≡ Ordering.lt) ⊎ ((str_cmp t s ≡ Ordering.lt) ⊎ (s ≡ t))
    go Ordering.lt e = inl e
    go Ordering.eq e = inr (inr (str_cmp-eq s t e))
    go Ordering.gt e = inr (inl (str_cmp-gt s t e))
