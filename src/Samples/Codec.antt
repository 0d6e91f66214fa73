-- ===== src/Samples/Codec.antt =====
-- Encodings of the records as lists of numbers; a text is preceded by its length.
use ulcer.Prelude.{
  ℕ, zero, suc, ◌≡◌, refl, true, false, Bytes, Text, Option, none, some, List, [], ◌∷◌, length,
  arith, text, subst,
}
use ulcer.Result.{Result, Error, ok, err, platform, is_platform}
use ulcer.Model.{Instance, Usage, Event, Value, label, number, flag}
use ulcer.Agent.{RuntimeState}

-- Encoders put their bytes before the rest; decoders return the value and the rest.
abbrev Reads : Type 0 → Type 0
Reads A = Bytes → Option (A × Bytes)

abbrev then_read : {A B : Type 0} → Option (A × Bytes) → (A → Reads B) → Option (B × Bytes)
then_read none f = none
then_read (some (a, b)) f = f a b

abbrev put_number : ℕ → Bytes → Bytes
put_number n b = n ∷ b

abbrev take_number : Reads ℕ
take_number [] = none
take_number (n ∷ b) = some (n, b)

abbrev put_raw : Text → Bytes → Bytes
put_raw [] b = b
put_raw (c ∷ s) b = c ∷ put_raw s b

abbrev take_raw : ℕ → Reads Text
take_raw zero b = some ([], b)
take_raw (suc n) b =
    then_read (take_number b) λ c. λ b1. then_read (take_raw n b1) λ s. λ b2. some (c ∷ s, b2)

take-put_raw : (s : Text) (b : Bytes) → take_raw (length s) (put_raw s b) ≡ some (s, b)
take-put_raw [] b = refl
take-put_raw (c ∷ s) b = rw (take-put_raw s b)

abbrev put_text : Text → Bytes → Bytes
put_text s b = length s ∷ put_raw s b

abbrev take_text : Reads Text
take_text b = then_read (take_number b) take_raw

take-put_text : (s : Text) (b : Bytes) → take_text (put_text s b) ≡ some (s, b)
take-put_text s b = take-put_raw s b

abbrev put_time : Option ℕ → Bytes → Bytes
put_time none b = 0 ∷ b
put_time (some t) b = suc t ∷ b

abbrev take_time : Reads (Option ℕ)
take_time [] = none
take_time (zero ∷ b) = some (none, b)
take_time (suc t ∷ b) = some (some t, b)

take-put_time : (t : Option ℕ) (b : Bytes) → take_time (put_time t b) ≡ some (t, b)
take-put_time none b = refl
take-put_time (some t) b = refl

abbrev pub put_texts : List Text → Bytes → Bytes
put_texts [] b = b
put_texts (s ∷ ss) b = put_text s (put_texts ss b)

abbrev pub take_texts : ℕ → Reads (List Text)
take_texts zero b = some ([], b)
take_texts (suc n) b =
    then_read (take_text b) λ s. λ b1. then_read (take_texts n b1) λ ss. λ b2. some (s ∷ ss, b2)

pub take-put_texts :
    (ss : List Text) (b : Bytes) → take_texts (length ss) (put_texts ss b) ≡ some (ss, b)
take-put_texts [] b = refl
take-put_texts (s ∷ ss) b = rw (take-put_text s (put_texts ss b), take-put_texts ss b)

abbrev put_value : Value → Bytes → Bytes
put_value (label s) b = 0 ∷ put_text s b
put_value (number n) b = 1 ∷ n ∷ b
put_value (flag true) b = 2 ∷ b
put_value (flag false) b = 3 ∷ b

abbrev take_value : Reads Value
take_value [] = none
take_value (zero ∷ b) = then_read (take_text b) λ s. λ b1. some (label s, b1)
take_value (suc zero ∷ b) = then_read (take_number b) λ n. λ b1. some (number n, b1)
take_value (suc (suc zero) ∷ b) = some (flag true, b)
take_value (suc (suc (suc n)) ∷ b) = some (flag false, b)

take-put_value : (v : Value) (b : Bytes) → take_value (put_value v b) ≡ some (v, b)
take-put_value (label s) b = rw (take-put_text s b)
take-put_value (number n) b = refl
take-put_value (flag true) b = refl
take-put_value (flag false) b = refl

abbrev put_details : List (Text × Value) → Bytes → Bytes
put_details [] b = b
put_details ((k, v) ∷ ds) b = put_text k (put_value v (put_details ds b))

abbrev take_details : ℕ → Reads (List (Text × Value))
take_details zero b = some ([], b)
take_details (suc n) b = then_read (take_text b) λ k. λ b1.
    then_read (take_value b1)
      λ v. λ b2. then_read (take_details n b2) λ ds. λ b3. some ((k, v) ∷ ds, b3)

take-put_details :
    (ds : List (Text × Value)) (b : Bytes)
    → take_details (length ds) (put_details ds b) ≡ some (ds, b)
take-put_details [] b = refl
take-put_details ((k, v) ∷ ds) b = rw (
  take-put_text k (put_value v (put_details ds b)),
  take-put_value v (put_details ds b),
  take-put_details ds b,
)

abbrev completed : {A : Type 0} → Option (A × Bytes) → Result A
completed none = err (platform (text "malformed"))
completed (some (a, b)) = ok a

completed-is_platform :
    {A : Type 0} (o : Option (A × Bytes)) (e : Error) → completed o ≡ err e → is_platform e ≡ true
completed-is_platform none e h = ground arith
completed-is_platform (some (a, b)) e h = ground arith

abbrev pub encode_usage : Usage → Result Bytes
encode_usage u = ok (u.uplink_bytes ∷ u.downlink_bytes ∷ [])

abbrev pub decode_usage : Bytes → Result Usage
decode_usage b = completed (
    then_read (take_number b) λ u. λ b1.
      then_read (take_number b1)
        λ d. λ b2. some (record { uplink_bytes = u; downlink_bytes = d }, b2))

pub decode-encode_usage : (u : Usage) (b : Bytes) → encode_usage u ≡ ok b → decode_usage b ≡ ok u
decode-encode_usage u [] h = ground arith
decode-encode_usage u (x ∷ []) h = ground arith
decode-encode_usage u (x ∷ y ∷ b) h = ground arith

abbrev put_event : Event → Bytes
put_event e = put_number e.id (
    put_text e.type_name
      (put_text e.resource_id (put_time e.at (length e.details ∷ put_details e.details []))))

abbrev pub encode_event : Event → Result Bytes
encode_event e = ok (put_event e)

abbrev pub decode_event : Bytes → Result Event
decode_event b = completed (
    then_read (take_number b) λ n. λ b1. then_read (take_text b1) λ t. λ b2.
      then_read (take_text b2) λ r. λ b3. then_read (take_time b3) λ a. λ b4.
        then_read (take_number b4) λ k. λ b5. then_read (take_details k b5) λ ds.
          λ b6. some (record { id = n; type_name = t; resource_id = r; at = a; details = ds }, b6))

decode-put_event : (e : Event) → decode_event (put_event e) ≡ ok e
decode-put_event e = rw (
  take-put_text e.type_name
      (put_text e.resource_id (put_time e.at (length e.details ∷ put_details e.details []))),
  take-put_text e.resource_id (put_time e.at (length e.details ∷ put_details e.details [])),
  take-put_time e.at (length e.details ∷ put_details e.details []),
  take-put_details e.details [],
)

ok-injective : {A : Type 0} {a b : A} → ok a ≡ ok b → a ≡ b
ok-injective h = ground arith

pub decode-encode_event : (e : Event) (b : Bytes) → encode_event e ≡ ok b → decode_event b ≡ ok e
decode-encode_event e b h = subst (λ c. decode_event c ≡ ok e) (ok-injective h) (decode-put_event e)

abbrev put_applied : Instance → Bytes
put_applied i =
    put_number i.applied_generation
      (put_text i.applied_digest (put_text i.phase (put_text i.reason [])))

abbrev put_desired : Instance → Bytes
put_desired i =
    put_number i.desired_generation
      (put_text i.desired_digest (put_text i.desired_spec (put_applied i)))

abbrev put_agent : Instance → Bytes
put_agent i =
    put_time i.last_seen_at
      (put_text i.agent_version (length i.capabilities ∷ put_texts i.capabilities (put_desired i)))

abbrev put_instance : Instance → Bytes
put_instance i = put_text i.id (put_text i.name (put_number i.created_at (put_agent i)))

abbrev pub encode_instance : Instance → Result Bytes
encode_instance i = ok (put_instance i)

abbrev take_applied : (ℕ → Text → Text → Text → Instance) → Reads Instance
take_applied make b = then_read (take_number b) λ n. λ b1. then_read (take_text b1) λ d. λ b2.
    then_read (take_text b2) λ p. λ b3. then_read (take_text b3) λ r. λ b4. some (make n d p r, b4)

abbrev take_desired : (ℕ → Text → Bytes → ℕ → Text → Text → Text → Instance) → Reads Instance
take_desired make b = then_read (take_number b) λ n. λ b1.
    then_read (take_text b1)
      λ d. λ b2. then_read (take_text b2) λ s. λ b3. take_applied (make n d s) b3

abbrev take_instance : Reads Instance
take_instance b = then_read (take_text b) λ id. λ b1. then_read (take_text b1) λ name. λ b2.
    then_read (take_number b2) λ created. λ b3. then_read (take_time b3) λ seen. λ b4.
      then_read (take_text b4) λ version. λ b5. then_read (take_number b5) λ k. λ b6.
        then_read (take_texts k b6) λ cs. λ b7.
          take_desired
            (λ dg dd ds ag ad ph re. record {
              id = id;
              name = name;
              created_at = created;
              last_seen_at = seen;
              agent_version = version;
              capabilities = cs;
              desired_generation = dg;
              desired_digest = dd;
              desired_spec = ds;
              applied_generation = ag;
              applied_digest = ad;
              phase = ph;
              reason = re;
            })
            b7

abbrev pub decode_instance : Bytes → Result Instance
decode_instance b = completed (take_instance b)

take_applied_lem :
    (make : ℕ → Text → Text → Text → Instance) (i : Instance)
    → take_applied make (put_applied i)
      ≡ some (make i.applied_generation i.applied_digest i.phase i.reason, [])
take_applied_lem make i = rw (
  take-put_text i.applied_digest (put_text i.phase (put_text i.reason [])),
  take-put_text i.phase (put_text i.reason []),
  take-put_text i.reason [],
)

take_desired_lem :
    (make : ℕ → Text → Bytes → ℕ → Text → Text → Text → Instance) (i : Instance)
    → take_desired make (put_desired i)
      ≡ some (
        make i.desired_generation i.desired_digest i.desired_spec i.applied_generation
            i.applied_digest i.phase i.reason,
        [],
      )
take_desired_lem make i = rw (
  take-put_text i.desired_digest (put_text i.desired_spec (put_applied i)),
  take-put_text i.desired_spec (put_applied i),
  take_applied_lem (make i.desired_generation i.desired_digest i.desired_spec) i,
)

decode-put_instance : (i : Instance) → decode_instance (put_instance i) ≡ ok i
decode-put_instance i = rw (
  take-put_text i.id (put_text i.name (put_number i.created_at (put_agent i))),
  take-put_text i.name (put_number i.created_at (put_agent i)),
  take-put_time i.last_seen_at
      (put_text i.agent_version (length i.capabilities ∷ put_texts i.capabilities (put_desired i))),
  take-put_text i.agent_version (length i.capabilities ∷ put_texts i.capabilities (put_desired i)),
  take-put_texts i.capabilities (put_desired i),
  take_desired_lem
      (λ dg dd ds ag ad ph re. record {
        id = i.id;
        name = i.name;
        created_at = i.created_at;
        last_seen_at = i.last_seen_at;
        agent_version = i.agent_version;
        capabilities = i.capabilities;
        desired_generation = dg;
        desired_digest = dd;
        desired_spec = ds;
        applied_generation = ag;
        applied_digest = ad;
        phase = ph;
        reason = re;
      })
      i,
)

pub decode-encode_instance :
    (i : Instance) (b : Bytes) → encode_instance i ≡ ok b → decode_instance b ≡ ok i
decode-encode_instance i b h =
    subst (λ c. decode_instance c ≡ ok i) (ok-injective h) (decode-put_instance i)

pub decode_instance_error :
    (b : Bytes) (e : Error) → decode_instance b ≡ err e → is_platform e ≡ true
decode_instance_error b e h = completed-is_platform (take_instance b) e h

pub encode_instance_error :
    (i : Instance) (e : Error) → encode_instance i ≡ err e → is_platform e ≡ true
encode_instance_error i e h = ground arith

abbrev put_state : RuntimeState → Bytes
put_state s =
    put_number s.applied_generation
      (put_text s.spec_digest (put_text s.phase (put_text s.reason [])))

abbrev pub encode_state : RuntimeState → Result Bytes
encode_state s = ok (put_state s)

abbrev pub decode_state : Bytes → Result RuntimeState
decode_state b = completed (
    then_read (take_number b) λ n. λ b1. then_read (take_text b1) λ d. λ b2.
      then_read (take_text b2) λ p. λ b3. then_read (take_text b3) λ r.
        λ b4. some (record { applied_generation = n; spec_digest = d; phase = p; reason = r }, b4))

decode-put_state : (s : RuntimeState) → decode_state (put_state s) ≡ ok s
decode-put_state s = rw (
  take-put_text s.spec_digest (put_text s.phase (put_text s.reason [])),
  take-put_text s.phase (put_text s.reason []),
  take-put_text s.reason [],
)

pub decode-encode_state :
    (s : RuntimeState) (b : Bytes) → encode_state s ≡ ok b → decode_state b ≡ ok s
decode-encode_state s b h = subst (λ c. decode_state c ≡ ok s) (ok-injective h) (decode-put_state s)
