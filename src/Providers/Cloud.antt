-- ===== src/Providers/Cloud.antt =====
-- What the adapters of internal/providers share: the answers of a cloud's API over an unknown state
-- of the cloud, the errors they are returned as, and a JSON codec.
use jitsudo.Prelude.{
  ◌≡◌, refl, Bool, false, ℕ, String, str_eq, ◌⊎◌, inl, inr, ltb, ◌==◌, if◌then◌else◌,
}
use jitsudo.Prelude.Int.{ℤ, pos, negsuc, is_nonpos}
use jitsudo.World.{Error, external, Result, ok}

-- An error of a client library: one of the cloud, with the HTTP status, or any other.
pub data Fault : Type 0 where
  http : ℕ → String → Fault
  plain : String → Fault

abbrev pub error_of : Fault → Error
error_of (http status text) = external text
error_of (plain text) = external text

abbrev pub has_status : ℕ → Fault → Bool
has_status n (http status text) = status == n
has_status n (plain text) = false

pub data Answer (A : Type 0) : Type 0 where
  answered : A → Answer A
  refused : Fault → Answer A

-- A call of an API, with the state of the cloud before and after it.
abbrev pub Call : Type 0 → Type 0 → Type 0
Call S A = S → Answer A × S

pub Answer-cases :
    {A : Type 0} (r : Answer A) → ((a : A) × (r ≡ answered a)) ⊎ ((e : Fault) × (r ≡ refused e))
Answer-cases (answered a) = inl (a, refl)
Answer-cases (refused e) = inr (e, refl)

-- encoding/json on one struct.
pub record Codec (T : Type 0) : Type 0 where
  pub marshal : T → String
  pub unmarshal : String → Result T

-- What the adapters rely on of encoding/json, for one value: it is read back from what was written.
pub record IsCodec {T : Type 0} (codec : Codec T) (t : T) : Type 0 where
  pub unmarshal-marshal : codec.unmarshal (codec.marshal t) ≡ ok t
  pub not_empty : str_eq (codec.marshal t) "" ≡ false

-- a > b on int64 values
abbrev pub is_above : ℤ → ℤ → Bool
is_above (pos a) (pos b) = ltb b a
is_above (pos a) (negsuc b) = Bool.true
is_above (negsuc a) (pos b) = false
is_above (negsuc a) (negsuc b) = ltb a b

-- The cap that the adapters set on a duration; one that is not positive is no cap.
abbrev pub cap : ℤ → ℤ → ℤ
cap max d = if is_nonpos max then d else if is_above d max then max else d
