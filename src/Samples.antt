-- ===== src/Samples.antt =====
-- Concrete values for the witnesses: an instance of what comes from outside, a signer, a database.
use Prim.Native.String as Str
use logryph.Base.{
  ℕ, zero, suc, ◌<◌, ◌%◌, refl, true, Option, none, some, [], ◌∷◌, String, length, replicate,
  nat_eq, arith,
}
use logryph.Json.{Value, null, text, object, end}
use logryph.Event.{Event, empty_event}
use logryph.Externals.{Externals, JsonLaws, CryptoLaws, IsBytes}
use logryph.Crypto.{Signer}
use logryph.Repository.Laws.{IsStorable, MapReadsBack}
use logryph.Store.{Db}
use logryph.Ring.{Buffer}
use logryph.Ring.Bounds.{IsValid}
use logryph.Event.{Map}

abbrev text_of : Value → Option String
text_of null = some "null"
text_of (text s) = some s
text_of _ = some "{}"

-- Times have one text here, and objects too; a digest and a signature repeat a length.
abbrev pub externals : Externals
externals = record {
  strict = true;
  format_time = λ t. "2026-01-01T00:00:00Z";
  parse_time = λ s. some (record { wall = 1; zone = 0; monotonic = none });
  marshal = text_of;
  unmarshal = λ s. some (object end);
  jcs_format = text_of;
  sha256 = λ s. replicate 32 (Str.len s % 256);
  public_of = λ k. k;
  ed25519_sign = λ k s. replicate 64 (Str.len s % 256);
  ed25519_verify = λ k s g. nat_eq (length g) 64;
  new_uuid = λ n. "00000000-0000-4000-8000-000000000000";
  now = λ n. record { wall = n; zone = 0; monotonic = some n };
}

pub json_laws : JsonLaws externals
json_laws = record { marshal_object = λ m n h. refl; marshal_null = refl }

pub replicate-IsBytes : (n b : ℕ) → b < 256 → IsBytes (replicate n b)
replicate-IsBytes zero b h = tt
replicate-IsBytes (suc n) b h = (h, replicate-IsBytes n b h)

pub crypto_laws : CryptoLaws externals
crypto_laws = record {
  digest_bytes = λ s. replicate-IsBytes 32 (Str.len s % 256) (omega arith);
  digest_length = λ s. refl;
  signature_bytes = λ k s. replicate-IsBytes 64 (Str.len s % 256) (omega arith);
  signature_length = λ k s. refl;
  signed = λ k s. refl;
}

map-ReadsBack : (m : Map) → MapReadsBack externals m
map-ReadsBack none = tt
map-ReadsBack (some m) = record {
  written = "{}";
  read = end;
  marshals = refl;
  not_empty = refl;
  not_null = refl;
  unmarshals = refl;
  stable = refl;
}

pub all-IsStorable : (e : Event) → IsStorable externals e
all-IsStorable e = record {
  time_read = record { wall = 1; zone = 0; monotonic = none };
  time_parses = refl;
  time_stable = refl;
  params_read = map-ReadsBack e.params;
  response_read = map-ReadsBack e.response;
}

abbrev pub signer : Signer
signer = record { private_key = 7 ∷ []; public_key = 7 ∷ [] }

abbrev pub empty_db : Db
empty_db = record { runs = []; events = []; clock = 0; faults = [] }

abbrev pub tool_call : Event
tool_call = record empty_event {
  id = "e1";
  actor = "agent";
  event_type = "tool_call";
  method = "tools/list";
  task_id = "t1";
  task_state = "working";
}

abbrev pub finished_call : Event
finished_call = record tool_call {
  id = "e2";
  event_type = "tool_response";
  task_state = "completed";
}

abbrev pub two_events : Buffer Event
two_events = record {
  slots = tool_call ∷ finished_call ∷ [];
  capacity = 2;
  head = 0;
  tail = 0;
  count = 2;
}

pub two_events-IsValid : IsValid two_events
two_events-IsValid = record {
  storage = refl;
  small = omega arith;
  head_in = omega arith;
  count_in = omega arith;
  tail_at = refl;
}
