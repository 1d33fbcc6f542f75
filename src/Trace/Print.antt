-- ===== src/Trace/Print.antt =====
-- cmd/logyctl/commands/trace.go: the lines that `printTraceTree` prints, by a stack of nodes to
-- come. The top of the stack is the head of the list.
use Prim.Native.String as Str
use logryph.Base.{
  ℕ, zero, suc, Bool, true, false, List, [], ◌∷◌, ◌++◌, String, ◌==◌, if◌then◌else◌, ltb, leb,
  length,
}
use logryph.Base.Result.{message, Result, ok, err, panic}
use logryph.Base.Exec.{Exec, pure, lift, ◌>>=◌, ◌>>◌}
use logryph.Assert.{check}
use logryph.Event.{Event, Time}
use logryph.Processor.{text_take}
use logryph.Trace.{children_of}

pub record TraceFrame : Type 0 where
  pub node : Event
  pub prefix : String
  pub is_last : Bool

-- What one `Printf` prints.
pub record TraceLine : Type 0 where
  pub prefix : String
  pub marker : String
  pub status_sym : String
  pub method : String
  pub short_id : String
  pub delta : String

abbrev pub max_trace_nodes : ℕ
max_trace_nodes = 100000

abbrev pub max_children : ℕ
max_children = 10000

abbrev pub is_empty_list {ℓ} : {A : Type ℓ} → List A → Bool
is_empty_list [] = true
is_empty_list (x ∷ xs) = false

-- The frames of some nodes, of which the last one is marked.
abbrev pub frames_of : String → List Event → List TraceFrame
frames_of prefix [] = []
frames_of prefix (e ∷ es) =
    record { node = e; prefix = prefix; is_last = is_empty_list es } ∷ frames_of prefix es

-- The last frame is pushed first. A full stack takes no more of them.
unfoldable pub push_frames : List TraceFrame → List TraceFrame → List TraceFrame
push_frames [] stack = stack
push_frames (f ∷ fs) stack =
    let pushed = push_frames fs stack in
    if leb max_trace_nodes (length pushed) then pushed else f ∷ pushed

unfoldable pub status_sym_of : Event → String
status_sym_of e =
    if e.risk_level == "critical"
    then "[!!]"
    else if e.was_blocked
    then "[X]"
    else if e.event_type == "tool_response"
    then "[x]"
    else "[ ]"

-- `since t` is the time from the first event to `t`, as it is printed.
module _ (strict : Bool) (since : Time → String) (children : List (String × List Event)) where
  unfoldable pub line_of : String → Bool → Event → TraceLine
  unfolding status_sym_of text_take
  line_of prefix is_last e = record {
    prefix = prefix;
    marker = if is_last then "`-- " else "|-- ";
    status_sym = status_sym_of e;
    method = e.method;
    short_id = text_take 6 e.id;
    delta = since e.timestamp;
  }

  unfoldable pub child_prefix : String → Bool → String
  child_prefix prefix is_last = Str.◌++◌ prefix (if is_last then "    " else "|   ")

  -- `e.ID[:6]` panics on a shorter text.
  unfoldable pub print_line : TraceFrame → Exec (List TraceLine) (Unit {0})
  unfolding line_of
  print_line f lines =
      if ltb (Str.len f.node.id) 6
      then (panic (message "slice bounds out of range"), lines)
      else (ok tt, lines ++ line_of f.prefix f.is_last f.node ∷ [])

  -- With too many children the loop goes on without them.
  unfoldable pub push_unless :
      Result (Unit {0}) → List TraceFrame → List TraceFrame → Result (List TraceFrame)
  unfolding push_frames
  push_unless (ok u) fs stack = ok (push_frames fs stack)
  push_unless (err e) fs stack = ok stack
  push_unless (panic e) fs stack = panic e

  unfoldable pub push_children : TraceFrame → List TraceFrame → Result (List TraceFrame)
  unfolding push_unless child_prefix
  push_children f stack =
      let nodes = children_of f.node.id children in
      push_unless (check strict (leb (length nodes) max_children) "children exceed max")
        (frames_of (child_prefix f.prefix f.is_last) nodes) stack

  -- The loop; one node is processed at a time.
  unfoldable pub trace_loop : ℕ → List TraceFrame → Exec (List TraceLine) (Unit {0})
  unfolding print_line push_children
  trace_loop zero stack = pure tt
  trace_loop (suc n) [] = pure tt
  trace_loop (suc n) (f ∷ stack) = do
    print_line f
    pushed ← lift (push_children f stack)
    trace_loop n pushed

  -- An assertion that fails ends the call.
  unfoldable pub on_roots : Result (Unit {0}) → List Event → Exec (List TraceLine) (Unit {0})
  unfolding trace_loop push_frames
  on_roots (ok u) roots = trace_loop max_trace_nodes (push_frames (frames_of "" roots) [])
  on_roots (err e) roots = pure tt
  on_roots (panic e) roots = lift (panic e)

  -- `printTraceTree`
  unfoldable pub print_trace_tree : List Event → Exec (List TraceLine) (Unit {0})
  unfolding on_roots
  print_trace_tree roots =
      on_roots (check strict (leb (length roots) max_trace_nodes) "roots exceed max") roots
