-- ===== src/Shred/Cache.antt =====
-- shred/cache.go: a map, as the list of its entries.
use eventstore.Base.{
  ℕ, ◌≡◌, refl, Bool, true, not, ◌&&◌, Option, none, some, List, [], ◌∷◌, ◌++◌, Text, text_eq,
  arith, where_rows, ◌==◌, if◌then◌else◌,
}

abbrev pub DekCache : Type 0
DekCache = List (Text × Text)

-- The code point of the separator, a vertical bar.
abbrev pub bar : ℕ
bar = 124

unfoldable pub cache_key : Text → Text → Text
cache_key tenant subject = tenant ++ (bar ∷ subject)

unfoldable pub find_dek : Text → DekCache → Option Text
find_dek key [] = none
find_dek key ((k, dek) ∷ cache) = if text_eq k key then some dek else find_dek key cache

-- The methods get, set and forget.
unfoldable pub get_dek : Text → Text → DekCache → Option Text
unfolding cache_key find_dek
get_dek tenant subject cache = find_dek (cache_key tenant subject) cache

unfoldable pub forget_dek : Text → Text → DekCache → DekCache
unfolding cache_key where_rows
forget_dek tenant subject cache =
    where_rows (λ (x : Text × Text). not (text_eq x.0 (cache_key tenant subject))) cache

unfoldable pub set_dek : Text → Text → Text → DekCache → DekCache
unfolding cache_key forget_dek
set_dek tenant subject dek cache = (cache_key tenant subject, dek) ∷ forget_dek tenant subject cache

-- No vertical bar.
abbrev pub bare : Text → Bool
bare [] = true
bare (c ∷ s) = not (c == bar) && bare s

-- A key with a bare tenant names one tenant and one subject.
pub cache_key-injective :
    (t s t' s' : Text)
    → bare t ≡ true
    → bare t' ≡ true
    → cache_key t s ≡ cache_key t' s'
    → (t ≡ t') × (s ≡ s')
unfolding cache_key
cache_key-injective [] s [] s' h h' e = (refl, cc)
cache_key-injective [] s (c ∷ t') s' h h' e = absurd (ground arith)
cache_key-injective (c ∷ t) s [] s' h h' e = absurd (ground arith)
cache_key-injective (c ∷ t) s (c' ∷ t') s' h h' e =
    let (same, rest) = cache_key-injective t s t' s' (ground arith) (ground arith) (cc e) in
    (cc (same, e), rest)

pub find_dek-where_rows :
    (key other : Text) (cache : DekCache)
    → find_dek key cache ≡ none
    → find_dek key (where_rows (λ (x : Text × Text). not (text_eq x.0 other)) cache) ≡ none
unfolding find_dek where_rows
find_dek-where_rows key other [] h = refl
find_dek-where_rows key other ((k, dek) ∷ cache) h =
    ground (arith, find_dek-where_rows key other cache)

pub find_dek-forgotten :
    (key : Text) (cache : DekCache)
    → find_dek key (where_rows (λ (x : Text × Text). not (text_eq x.0 key)) cache) ≡ none
unfolding find_dek where_rows
find_dek-forgotten key [] = refl
find_dek-forgotten key ((k, dek) ∷ cache) = ground (arith, find_dek-forgotten key cache)
