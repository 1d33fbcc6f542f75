-- ===== src/Store/Readback.antt =====
-- internal/ledger/store/events.go: a row, and the event that GetAllEvents reads of it.
use logryph.Base.{◌≡◌, refl, sym, ◌∙◌, subst, none, some, String}
use mathlib.Core.Option.{some-injective}
use logryph.Json.{Value, null, text, object, Fields, field}
use logryph.Event.{Event, Map, map_value}
use logryph.Externals.{Externals, JsonLaws, SameText, same_end, same_field}
use logryph.Crypto.{calculate_event_hash, canonical_json, is_present}
use logryph.Audit.{fields_of}
use logryph.Repository.Laws.{MapReadsBack, IsStorable, Reads}
use logryph.Store.Read.{scan_event, parse_map, time_of}
use logryph.Store.Sqlite.{row_of}

module _ (x : Externals) where
  -- The hash of an object depends on its JSON text alone.
  digest_of_text :
      (prev : String) (m n : Fields)
      → x.marshal (object m) ≡ x.marshal (object n)
      → calculate_event_hash x prev (object m) ≡ calculate_event_hash x prev (object n)
  unfolding calculate_event_hash canonical_json is_present
  digest_of_text prev m n e = rw e

  module _ (json : JsonLaws x) where
    parse_map-text :
        (o : Map) (p : String)
        → MapReadsBack x o
        → x.marshal (map_value o) ≡ some p
        → x.marshal (map_value (parse_map x p)) ≡ x.marshal (map_value o)
    unfolding parse_map
    parse_map-text none p h e =
        subst (λ s. x.marshal (map_value (parse_map x s)) ≡ x.marshal null)
          (some-injective _ _ (sym json.marshal_null ∙ e)) refl
    parse_map-text (some m) p h e =
        subst (λ s. x.marshal (map_value (parse_map x s)) ≡ x.marshal (object m))
          (some-injective _ _ (sym h.marshals ∙ e)) read_back
      where
        read_back : x.marshal (map_value (parse_map x h.written)) ≡ x.marshal (object m)
        read_back = rw (h.not_empty, h.not_null, h.unmarshals) (h.stable ∙ sym h.marshals)

    same_map :
        (k : String) (o : Map) (p : String) {m n : Fields}
        → MapReadsBack x o
        → x.marshal (map_value o) ≡ some p
        → SameText x m n
        → SameText x (field k (map_value (parse_map x p)) m) (field k (map_value o) n)
    same_map k o p h e rest = same_field k _ _ (parse_map-text o p h e) rest

    -- A text field that both objects have.
    same :
        (k : String) (v : Value) {m n : Fields}
        → SameText x m n
        → SameText x (field k v m) (field k v n)
    same k v rest = same_field k v v refl rest

    same_time :
        (e : Event)
        → IsStorable x e
        → x.marshal (text (x.format_time (time_of (x.parse_time (x.format_time e.timestamp)))))
          ≡ x.marshal (text (x.format_time e.timestamp))
    unfolding time_of
    same_time e st = rw (st.time_parses, st.time_stable) refl

    same_text :
        (e : Event) (p r : String)
        → x.marshal (map_value e.params) ≡ some p
        → x.marshal (map_value e.response) ≡ some r
        → IsStorable x e
        → SameText x (fields_of x (scan_event x (row_of x e p r))) (fields_of x e)
    unfolding scan_event row_of
    same_text e p r hp hr st = same "id" _ (
        same "run_id" _ (
          same "seq_index" _ (
            same_field "timestamp" _ _ (same_time e st) (
              same "actor" _ (
                same "event_type" _ (
                  same "method" _ (
                    same_map "params" e.params p st.params_read hp (
                      same_map "response" e.response r st.response_read hr (
                        same "task_id" _ (
                          same "task_state" _ (
                            same "parent_id" _
                              (same "policy_id" _ (same "risk_level" _ same_end)))))))))))))

    -- Where JSON objects are written from the texts of their values, the row of an event, with
    -- the JSON texts of its two maps, is read back with the event's index, hashes and
    -- signature, and, if the timestamp and the maps survive their own texts, with the content
    -- hash of the event.
    pub row_of-Reads :
        (e : Event) (p r : String)
        → x.marshal (map_value e.params) ≡ some p
        → x.marshal (map_value e.response) ≡ some r
        → Reads x e (scan_event x (row_of x e p r))
    unfolding scan_event row_of
    row_of-Reads e p r hp hr = record {
      same_index = refl;
      same_prev = refl;
      same_hash = refl;
      same_signature = refl;
      same_digest =
          λ st. digest_of_text e.prev_hash _ _ (json.marshal_object _ _ (same_text e p r hp hr st));
    }
