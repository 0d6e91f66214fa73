-- ===== src/Platform.antt =====
-- What the program takes from outside the repository: the badger database of internal/store and
-- internal/instance, encoding/json and crypto/sha256. Each is a parameter with the documented
-- behaviour that the code relies on.
use ulcer.Prelude.{
  ℕ, ◌≡◌, Bytes, Text, true, List, Option, none, some, text_eq, text_lt, if◌then◌else◌, ◌↔◌, ◌≢◌,
  [], ◌∷◌, any,
}
use ulcer.Result.{Result, Error, ok, err, is_platform}
use ulcer.Model.{Instance, Usage, Event}

-- badger.Entry: a value and the second at which it expires.
pub record Entry : Type 0 where
  pub value : Bytes
  pub expires_at : Option ℕ

-- A call inside a transaction, and the commit at its end.
pub data Call : Type 0 where
  reads writes erases : Text → Call

pub data Refusal : Type 0 where
  conflicts : Refusal
  fails : Text → Refusal

-- Keys in strictly increasing byte order.
abbrev pub IsAscending : List Text → Type 0
IsAscending [] = Unit
IsAscending (k ∷ []) = Unit
IsAscending (k ∷ j ∷ ks) = (text_lt k j ≡ true) × IsAscending (j ∷ ks)

pub record Platform : Type 1 where
  -- A state of the database, with everything on which its failures depend.
  pub Db : Type 0
  pub entry : Db → Text → Option Entry
  pub write : Text → Entry → Db → Db
  pub erase : Text → Db → Db
  -- The keys of the entries, expired ones included, in the order of an iterator.
  pub keys : Db → List Text
  -- The error of a call, if it fails.
  pub fault : Db → Call → Option Text
  -- Why a commit of the second state is refused in the first, if it is.
  pub refusal : Db → Db → Option Refusal
  -- The state that the next transaction finds after a conflict: another one has committed.
  pub later : Db → Db
  pub encode_instance : Instance → Result Bytes
  pub decode_instance : Bytes → Result Instance
  pub encode_usage : Usage → Result Bytes
  pub decode_usage : Bytes → Result Usage
  pub encode_event : Event → Result Bytes
  pub decode_event : Bytes → Result Event
  -- hex.EncodeToString of sha256.Sum256
  pub sha256_hex : Bytes → Text
  pub entry-write :
      (d : Db) (k j : Text) (e : Entry)
      → entry (write k e d) j ≡ (if text_eq k j then some e else entry d j)
  pub entry-erase :
      (d : Db) (k j : Text) → entry (erase k d) j ≡ (if text_eq k j then none else entry d j)
  pub keys_ascending : (d : Db) → IsAscending (keys d)
  pub keys_entries : (d : Db) (k : Text) → (any (text_eq k) (keys d) ≡ true) ↔ (entry d k ≢ none)
  pub decode-encode_instance :
      (i : Instance) (b : Bytes) → encode_instance i ≡ ok b → decode_instance b ≡ ok i
  pub decode-encode_usage : (u : Usage) (b : Bytes) → encode_usage u ≡ ok b → decode_usage b ≡ ok u
  pub decode-encode_event : (e : Event) (b : Bytes) → encode_event e ≡ ok b → decode_event b ≡ ok e
  -- json reports errors of its own, none of the sentinel errors of this program.
  pub decode_instance_error :
      (b : Bytes) (e : Error) → decode_instance b ≡ err e → is_platform e ≡ true
  pub encode_instance_error :
      (i : Instance) (e : Error) → encode_instance i ≡ err e → is_platform e ≡ true
