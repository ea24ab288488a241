-- ===== src/Tests/ToyWire.antt =====
-- An instance of what es/ takes from outside, which meets the laws asked of it.
use eventstore.Base.{
  ℕ, zero, suc, ◌≤◌, ◌≡◌, ◌≢◌, refl, List, [], ◌∷◌, ◌++◌, Text, ok, err, arith, length, take, Bool,
  ◌&&◌, leb, ◌==◌, if◌then◌else◌,
}
use eventstore.Es.Error.{Result, plain}
use eventstore.Es.Envelope.{Actor, ActorKind, actor_service}
use eventstore.Es.Wire.{Wire, HasDigests, RoundTrips}
use eventstore.Es.Chain.{zero_hash}

-- Only service actors with a principal alone have a text.
unfoldable pub write_actor : ActorKind → Text → Text → Text → List (Text × Text) → Result Text
write_actor actor_service p [] [] [] = ok (1 ∷ p)
write_actor _ _ _ _ _ = err plain

abbrev pub service : Text → Actor
service p = record {
  kind = actor_service;
  principal = p;
  on_behalf_of = [];
  api_key_id = [];
  attributes = [];
}

unfoldable pub read_actor : Text → Result Actor
read_actor [] = err plain
read_actor (_ ∷ p) = ok (service p)

unfoldable pub read_time : Text → Result ℕ
read_time (t ∷ []) = ok t
read_time _ = err plain

-- The first 32 bytes, filled up with zeros.
abbrev digest : Text → Text
digest b = take 32 (b ++ zero_hash)

abbrev pub is_digit : ℕ → Bool
is_digit c = leb 48 c && leb c 57

-- The only JSON here is one digit; its binary form is that of SQLite, a header byte and the digit.
unfoldable pub to_jsonb : Text → Result Text
to_jsonb (c ∷ []) = if is_digit c then ok (19 ∷ c ∷ []) else err plain
to_jsonb _ = err plain

unfoldable pub from_jsonb : Text → Result Text
from_jsonb (header ∷ c ∷ []) = if header == 19 then ok (c ∷ []) else err plain
from_jsonb _ = err plain

abbrev pub toy : Wire
toy = record {
  uuid_string = λ u. u;
  marshal = λ pb. ok (pb.version ∷ pb.payload);
  sha256 = digest;
  encode_actor = λ a. write_actor a.kind a.principal a.on_behalf_of a.api_key_id a.attributes;
  decode_actor = read_actor;
  format_time = λ t. t ∷ [];
  parse_time = read_time;
  jsonb = to_jsonb;
  json = from_jsonb;
}

length-take_filled : (n : ℕ) (b z : Text) → n ≤ length z → length (take n (b ++ z)) ≡ n
length-take_filled zero b z h = refl
length-take_filled (suc n) [] [] h = absurd (omega arith)
length-take_filled (suc n) [] (x ∷ z) h = omega (arith, length-take_filled n [] z (omega arith))
length-take_filled (suc n) (y ∷ b) z h = omega (arith, length-take_filled n b z (omega arith))

pub toy-HasDigests : HasDigests toy
toy-HasDigests = record { digest_length = λ b. length-take_filled 32 b zero_hash (omega arith) }

write_actor-back :
    (k : ActorKind) (p o a : Text) (l : List (Text × Text)) (t : Text)
    → write_actor k p o a l ≡ ok t
    → (read_actor t
        ≡ ok (record { kind = k; principal = p; on_behalf_of = o; api_key_id = a; attributes = l }))
      × (t ≢ [])
unfolding write_actor read_actor
write_actor-back actor_service p [] [] [] [] h = cc
write_actor-back actor_service p [] [] [] (b ∷ t) h = ground arith
write_actor-back k p o a l t h = cc

pub toy-RoundTrips : RoundTrips toy
unfolding read_time
toy-RoundTrips = record {
  actor_back =
      λ a t h. (write_actor-back a.kind a.principal a.on_behalf_of a.api_key_id a.attributes t h).0;
  actor_text =
      λ a t h. (write_actor-back a.kind a.principal a.on_behalf_of a.api_key_id a.attributes t h).1;
  time_back = λ t. refl;
}
