-- ===== src/Interceptor/Redact.antt =====
-- internal/interceptor/server.go: what is left of the parameters of a request that is scrubbed.
use Prim.Native.String as Str
use logryph.Base.{
  ◌<◌, ◌≤◌, ◌≡◌, refl, sym, ap, ◌∙◌, subst, Bool, true, false, ◌||◌, Option, none, some, List, [],
  ◌∷◌, String, ◌==◌, eq_iff, eq_refl, Bool-cases, inl, inr, length, lt→ltb, le→leb,
}
use logryph.Base.Result.{ok}
use logryph.Json.{Value, Fields, get, put}
use logryph.Json.Put.{get-put_self, get-put_other}
use logryph.Event.{Map}
use logryph.Externals.{Externals}
use logryph.Pool.{map_size}
use logryph.Interceptor.{
  McpRequest, McpJson, redacted, redact_key, redact_keys, redact_params, redact_sensitive_data,
  scrub, with_keys, parsed, printed,
}

-- Whether a key is one of the list.
abbrev pub is_listed : String → List String → Bool
is_listed k [] = false
is_listed k (j ∷ js) = (j == k) || is_listed k js

-- A value that is there, and is to be hidden, is the replacement.
abbrev pub mask : Bool → Option Value → Option Value
mask true (some v) = some redacted
mask b o = o

abbrev pub param : String → Map → Option Value
param k none = none
param k (some m) = get k m

mask-mask : (a b : Bool) (o : Option Value) → mask a (mask b o) ≡ mask (b || a) o
mask-mask true true none = refl
mask-mask true true (some v) = refl
mask-mask true false o = refl
mask-mask false true none = refl
mask-mask false true (some v) = refl
mask-mask false false o = refl

get-redact_key : (j k : String) (m : Fields) → get k (redact_key j m) ≡ mask (j == k) (get k m)
unfolding redact_key
get-redact_key j k m = elim (Bool-cases (j == k)) [
  | inl e ↦
      subst (λ i. get k (redact_key i m) ≡ mask (i == k) (get k m)) (sym ((eq_iff j k).0 e)) own
  | inr e ↦ rw e (other e)
]
  where
    replaced :
        (o : Option Value)
        → get k m ≡ o
        → get k (elim o [ none ↦ m | some v ↦ put k redacted m ]) ≡ mask true o
    replaced none e = e
    replaced (some v) e = get-put_self k redacted m

    own : get k (redact_key k m) ≡ mask (k == k) (get k m)
    own = rw (eq_refl k) (replaced (get k m) refl)

    other : (j == k) ≡ false → get k (redact_key j m) ≡ mask false (get k m)
    other e = unmasked (get j m) ∙ same (get k m)
      where
        same : (o : Option Value) → o ≡ mask false o
        same none = refl
        same (some v) = refl

        unmasked :
            (o : Option Value) → get k (elim o [ none ↦ m | some v ↦ put j redacted m ]) ≡ get k m
        unmasked none = refl
        unmasked (some v) = get-put_other j k redacted m e

get-redact_keys :
    (js : List String) (k : String) (m : Fields)
    → get k (redact_keys js m) ≡ mask (is_listed k js) (get k m)
unfolding redact_keys
get-redact_keys [] k m = by_value (get k m)
  where
    by_value : (o : Option Value) → o ≡ mask false o
    by_value none = refl
    by_value (some v) = refl
get-redact_keys (j ∷ js) k m =
    get-redact_keys js k (redact_key j m)
    ∙ ap (mask (is_listed k js)) (get-redact_key j k m)
    ∙ mask-mask (is_listed k js) (j == k) (get k m)

param-redact_params :
    (js : List String) (k : String) (m : Map)
    → param k (redact_params js m) ≡ mask (is_listed k js) (param k m)
unfolding redact_params
param-redact_params js k none = by_test (is_listed k js)
  where
    by_test : (b : Bool) → none ≡ mask b none
    by_test true = refl
    by_test false = refl
param-redact_params js k (some m) = get-redact_keys js k m

-- A request whose text is read back as a request with the same parameters.
pub record ReadsBack (json : McpJson) (r : McpRequest) : Type 0 where
  pub written : String
  pub read : McpRequest
  pub prints : json.print_request r ≡ some written
  pub parses : json.parse_request written ≡ some read
  pub same_rpc : read.json_rpc ≡ r.json_rpc
  pub same_method : read.method ≡ r.method
  pub same_params : (k : String) → param k read.params ≡ param k r.params

module _ (x : Externals) (json : McpJson) where
  -- For a body that is a request of at most 256 parameters, and 1 to 128 keys,
  -- `redactSensitiveData` gives the text of a request with the same method, whose parameters
  -- are those of the body, but with "[REDACTED]" for each key of the list that is there, and no
  -- others. The scrubbed request's text is read back with its parameters.
  pub redact_sensitive_data-masks :
      (body : String) (keys : List String) (r : McpRequest)
      → 0 < Str.len body
      → 0 < length keys
      → length keys ≤ 128
      → json.parse_request body ≡ some r
      → map_size r.params ≤ 256
      → (back : ReadsBack json (record r { params = redact_params keys r.params }))
      → (redact_sensitive_data x json body keys ≡ ok back.written)
        × (back.read.method ≡ r.method)
        × ((k : String) → param k back.read.params ≡ mask (is_listed k keys) (param k r.params))
  unfolding redact_sensitive_data scrub with_keys parsed printed
  redact_sensitive_data-masks body keys r long some_keys few p small back = (
    rw
        (
          lt→ltb 0 (Str.len body) long,
          lt→ltb 0 (length keys) some_keys,
          le→leb (length keys) 128 few,
          p,
          le→leb (map_size r.params) 256 small,
          back.prints,
        )
        refl,
    back.same_method,
    λ k. back.same_params k ∙ param-redact_params keys k r.params,
  )
