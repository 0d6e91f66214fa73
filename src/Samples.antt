-- ===== src/Samples.antt =====
-- A concrete database and concrete encodings, at which the theorems are run.
pub mod Keyed
pub mod Codec
pub mod Net
pub mod Server
pub mod Files
use ulcer.Prelude.{ℕ, ◌≡◌, refl, Text, text, Option, none, some, List, [], ◌∷◌, arith}
use ulcer.Result.{Result, Error, ok, err, is_platform}
use ulcer.Model.{Instance, Usage, Event}
use ulcer.Platform.{Platform, Entry}
use ulcer.Agent.{StateCodec, AgentSpec}
use Keyed.{
  Cells, entry_at, put_cell, drop_cell, cell_keys, entry_at-drop_cell, cell_keys-IsAscending,
  cell_keys_entries,
}
use Codec.{
  encode_instance, decode_instance, encode_usage, decode_usage, encode_event, decode_event,
  encode_state, decode_state, decode-encode_state, decode-encode_instance, decode-encode_usage,
  decode-encode_event, decode_instance_error, encode_instance_error,
}

-- No call fails, no commit is refused and nothing else commits; the hash keeps its input.
instance abbrev pub sample_platform : Platform
sample_platform = record {
  Db = Cells;
  entry = entry_at;
  write = put_cell;
  erase = drop_cell;
  keys = cell_keys;
  fault = λ d c. none;
  refusal = λ before after. none;
  later = λ d. d;
  encode_instance = encode_instance;
  decode_instance = decode_instance;
  encode_usage = encode_usage;
  decode_usage = decode_usage;
  encode_event = encode_event;
  decode_event = decode_event;
  sha256_hex = λ s. s;
  entry-write = λ d k j e. refl;
  entry-erase = entry_at-drop_cell;
  keys_ascending = cell_keys-IsAscending;
  keys_entries = cell_keys_entries;
  decode-encode_instance = decode-encode_instance;
  decode-encode_usage = decode-encode_usage;
  decode-encode_event = decode-encode_event;
  decode_instance_error = decode_instance_error;
  encode_instance_error = encode_instance_error;
}

-- A specification names its engine and asks for a stop.
abbrev pub stopping : Text → Result AgentSpec
stopping engine = ok (record { engine = engine; desired_phase = text "stopped" })

instance abbrev pub sample_codec : StateCodec
sample_codec = record {
  encode_state = encode_state;
  decode_state = decode_state;
  decode_spec = stopping;
  decode-encode_state = decode-encode_state;
}
