-- ===== src/Es/StreamId.antt =====
-- es/streamid.go: the identity of a stream, its validation and its storage form.
pub mod RoundTrip
use eventstore.Base.{
  ℕ, zero, suc, ◌+◌, ◌-◌, Bool, true, false, ◌&&◌, ◌||◌, not, Option, none, some, List, [], ◌∷◌,
  ◌++◌, Text, text, text_eq, ok, err, ◌>>=◌, ◌>>◌, leb, ◌==◌, if◌then◌else◌, length, take, drop,
}
use eventstore.Es.Error.{Result, tenant_missing, invalid_stream_id}

-- The type StreamID.
pub record StreamId : Type 0 where
  pub tenant : Text
  pub typ : Text
  pub id : Text

-- canonicalSep, a colon.
abbrev pub canonical_sep : ℕ
canonical_sep = b':'

-- slugRe: `[a-z0-9]`, then up to 127 of `[a-z0-9_-]`.
slug_first : ℕ → Bool
slug_first c = (leb b'a' c && leb c b'z') || (leb b'0' c && leb c b'9')

slug_next : ℕ → Bool
unfolding slug_first
slug_next c = slug_first c || c == b'_' || c == b'-'

all_next : Text → Bool
all_next [] = true
all_next (c ∷ s) = slug_next c && all_next s

unfoldable pub match_slug : Text → Bool
unfolding slug_first slug_next all_next
match_slug [] = false
match_slug (c ∷ s) = slug_first c && all_next s && leb (length s) 127

unfoldable pub validate : StreamId → Result (Unit {0})
unfolding match_slug text_eq
validate s =
    if text_eq s.tenant []
    then err tenant_missing
    else if not (match_slug s.typ) || not (match_slug s.id)
    then err invalid_stream_id
    else ok tt

unfoldable pub new_stream_id : Text → Text → Text → Result StreamId
unfolding validate
new_stream_id tenant typ id = do
  let sid : StreamId = record { tenant = tenant; typ = typ; id = id }
  validate sid
  ok sid

unfoldable pub canonical : StreamId → Text
canonical s = s.typ ++ canonical_sep ∷ s.id

-- The method String.
unfoldable pub full_name : StreamId → Text
unfolding canonical
full_name s = s.tenant ++ b'/' ∷ canonical s

-- strings.IndexByte; none stands for -1.
unfoldable pub index_byte : Text → ℕ → Option ℕ
index_byte [] b = none
index_byte (c ∷ s) b =
    if c == b then some 0 else elim (index_byte s b) [ none ↦ none | some i ↦ some (suc i) ]

split_at : Text → Text → Option ℕ → Result StreamId
unfolding new_stream_id
split_at tenant c none = err invalid_stream_id
split_at tenant c (some i) =
    if i == 0 || i == length c - 1
    then err invalid_stream_id
    else new_stream_id tenant (take i c) (drop (i + 1) c)

unfoldable pub parse_canonical : Text → Text → Result StreamId
unfolding split_at index_byte
parse_canonical tenant c = split_at tenant c (index_byte c canonical_sep)
