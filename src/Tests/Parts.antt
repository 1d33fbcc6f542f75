-- ===== src/Tests/Parts.antt =====
-- Concrete values on which the theorems of the buffer, the pool, the encodings and the policies apply.
use Prim.Native.String as Str
use logryph.Base.{ltb, leb, has_prefix}
use logryph.Json.{Fields, field, end, int, get}
use logryph.Base.{select, not, ◌==◌, ◌↔◌, is_set}
use logryph.Json.{text, float64}
use logryph.Event.{Event}
use logryph.Samples.{finished_call}
use logryph.Genesis.{Anchor}
use logryph.Audit.Anchors.{check_anchors, check_anchors_iff, AllLive}
use logryph.Trace.{Tree, build_tree, children_of, build_tree_lem}
use logryph.Observer.{
  Numbers, Condition, Rule, check_conditions, match_pattern, all_hold, condition_holds, to_float,
}
use logryph.Observer.Laws.{AllHold, check_conditions_iff}
use logryph.Policy.{action_tag, evaluate_policy, first_rule, applies, action_of}
use logryph.Policy.First.{IsFirst, evaluate_policy_iff}
use logryph.Base.{◌≡◌, ◌↔◌, refl, true, some, [], ◌∷◌, String, is_set, arith}
use logryph.Base.Result.{ok}
use logryph.Crypto.{sign_hash, verify_signature}
use logryph.Crypto.Hex.{hex_encode, hex_decode}
use logryph.Samples.{externals, crypto_laws, signer, two_events, two_events-IsValid, tool_call}
use logryph.Pool.{get_event, put_event}
use logryph.Ring.Refine.{contents}
use logryph.Ring.Queue.{Call, answers}
use logryph.Ring.Refine.{replies, replies_refine}
use logryph.Crypto.Hex.{hex_decode-hex_encode}
use logryph.Crypto.Laws.{verify_signature-sign_hash}
use logryph.Pool.{EventPool}
use logryph.Pool.Clean.{IsClean, puts, unused, Use-IsClean}

abbrev signature_text : String
signature_text = hex_encode (externals.ed25519_sign signer.private_key "ab")

replies_refine_example :
    replies true (Call.push tool_call ∷ Call.pop ∷ Call.len ∷ []) two_events
    ≡ answers 2 (Call.push tool_call ∷ Call.pop ∷ Call.len ∷ []) (contents two_events)
replies_refine_example =
    replies_refine true (Call.push tool_call ∷ Call.pop ∷ Call.len ∷ []) two_events-IsValid

verify_signature-sign_hash_example :
    (verify_signature externals signer "ab" signature_text ≡ true) × (is_set signature_text ≡ true)
unfolding sign_hash
verify_signature-sign_hash_example =
    verify_signature-sign_hash externals crypto_laws signer "ab" {sig = signature_text} refl refl

hex_decode-hex_encode_example : hex_decode (hex_encode (222 ∷ 173 ∷ [])) ≡ some (222 ∷ 173 ∷ [])
hex_decode-hex_encode_example =
    hex_decode-hex_encode (222 ∷ 173 ∷ []) (omega arith, (omega arith, tt))

abbrev pool : EventPool
pool = record { free = []; choices = []; event_hits = 0; event_misses = 0 }

-- A call is put back, and the next event is the one at the first place.
abbrev reused : EventPool
reused = record pool { choices = some 0 ∷ [] }

Use-IsClean_example : IsClean (get_event (put_event true (some tool_call) reused).1).0
Use-IsClean_example =
    Use-IsClean reused (put_event true (some tool_call) reused).1 refl
      (puts true (some tool_call) unused)

-- A float64 is its number here, and a text has none.
abbrev pub numbers : Numbers
numbers = record {
  sprint = λ v. "x";
  parse_float = λ s. some (Str.len s);
  of_float32 = λ f. f;
  of_int = λ i. i;
  less = ltb;
  less_eq = leb;
}

abbrev amount_over_three : Condition
amount_over_three = record { key = "amount"; operator = "gt"; value = "123" }

abbrev pub rule : Rule
rule = record {
  id = "p1";
  match_methods = "aws:*" ∷ [];
  risk_level = "high";
  log_level = "";
  match_conditions = amount_over_three ∷ [];
  redact = [];
}

abbrev amount_five : Fields
amount_five = field "amount" (int 5) end

check_conditions_iff_example :
    (check_conditions numbers true (amount_over_three ∷ []) (some amount_five) ≡ ok true)
    ↔ AllHold numbers amount_five (amount_over_three ∷ [])
check_conditions_iff_example =
    check_conditions_iff numbers amount_five true (amount_over_three ∷ []) (omega arith)

evaluate_policy_iff_example :
    (evaluate_policy numbers true (rule ∷ []) "aws:run" (some amount_five)
      ≡ ok (action_tag, some rule))
    ↔ IsFirst numbers true "aws:run" (some amount_five) (rule ∷ []) (action_tag, some rule)
evaluate_policy_iff_example =
    evaluate_policy_iff numbers true "aws:run" (some amount_five) (rule ∷ [])
      (action_tag, some rule) refl (omega arith)

-- The rule is taken.
tagged :
    evaluate_policy numbers true (rule ∷ []) "aws:run" (some amount_five)
    ≡ ok (action_tag, some rule)
unfolding evaluate_policy first_rule applies match_pattern check_conditions all_hold condition_holds
    action_of get to_float has_prefix
tagged = refl

abbrev child_call : Event
child_call = record finished_call { parent_id = "e1" }

build_tree_lem_example :
    (t : Tree) × (build_tree true (tool_call ∷ child_call ∷ []) ≡ ok t)
    × (t.0 ≡ select (λ e. not (is_set e.parent_id)) (tool_call ∷ child_call ∷ []))
    × ((k : String)
        → is_set k ≡ true
        → children_of k (t.1) ≡ select (λ e. e.parent_id == k) (tool_call ∷ child_call ∷ []))
build_tree_lem_example = build_tree_lem true (tool_call ∷ child_call ∷ []) (omega arith)

abbrev anchored_call : Event
anchored_call = record tool_call {
  event_type = "anchor";
  params = some (field "anchor_hash" (text "h") (field "anchor_height" (float64 7) end));
}

abbrev anchor : Anchor
anchor = record { source = "live"; block_height = 7; block_hash = "h"; timestamp = 0 }

check_anchors_iff_example :
    ((check_anchors (λ n. some anchor) (λ b. b) (anchored_call ∷ []) 0).valid ≡ true)
    ↔ AllLive (λ n. some anchor) (λ b. b) (anchored_call ∷ [])
check_anchors_iff_example = check_anchors_iff (λ n. some anchor) (λ b. b) (anchored_call ∷ [])
