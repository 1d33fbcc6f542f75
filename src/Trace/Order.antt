-- ===== src/Trace/Order.antt =====
-- cmd/logyctl/commands/trace.go: the order in which `printTraceTree` prints a forest.
use Prim.Native.String as Str
use logryph.Base.{
  ℕ, zero, suc, ◌+◌, ◌-◌, ◌≤◌, ◌≡◌, refl, sym, ap, ◌∙◌, Bool, true, false, List, [], ◌∷◌, ◌++◌,
  String, ltb, leb, le→leb, length, length-append, append-nil, append_assoc, arith,
}
use logryph.Base.Result.{ok}
use logryph.Event.{Event, Time}
use logryph.Trace.{children_of}
use logryph.Trace.Print.{
  TraceFrame, TraceLine, max_trace_nodes, max_children, is_empty_list, frames_of, push_frames,
  line_of, child_prefix, print_line, push_unless, push_children, trace_loop, on_roots,
  print_trace_tree,
}

-- Events with the events below them.
mutual
  pub data Node : Type 0 where
    node : Event → Forest → Node

  pub data Forest : Type 0 where
    nil : Forest
    cons : Node → Forest → Forest

abbrev pub event_of : Node → Event
event_of (node e f) = e

abbrev pub heads : Forest → List Event
heads nil = []
heads (cons t f) = event_of t ∷ heads f

abbrev pub nodes : Forest → ℕ
nodes nil = 0
nodes (cons (node e below) f) = suc (nodes below + nodes f)

heads-le-nodes : (f : Forest) → length (heads f) ≤ nodes f
heads-le-nodes nil = omega arith
heads-le-nodes (cons (node e below) f) = omega (arith, heads-le-nodes f)

length-frames_of : (prefix : String) (es : List Event) → length (frames_of prefix es) ≡ length es
length-frames_of prefix [] = refl
length-frames_of prefix (e ∷ es) = ap suc (length-frames_of prefix es)

-- Frames that fit are all pushed, in their order.
push_frames-append :
    (fs stack : List TraceFrame)
    → length fs + length stack ≤ max_trace_nodes
    → push_frames fs stack ≡ fs ++ stack
unfolding push_frames
push_frames-append [] stack h = refl
push_frames-append (f ∷ fs) stack h =
    let fits : leb max_trace_nodes (length (fs ++ stack)) ≡ false =
      ground (arith, length-append fs stack) in
    rw (push_frames-append fs stack (omega arith), fits) refl

fuel : (a b n : ℕ) → suc (a + b) + n ≡ suc (a + (b + n))
fuel a b n = omega arith

joined {ℓ} :
    {A : Type ℓ} (ls : List A) (l : A) (a b : List A)
    → ((ls ++ l ∷ []) ++ a) ++ b ≡ ls ++ l ∷ (a ++ b)
joined ls l a b = append_assoc (ls ++ l ∷ []) a b ∙ append_assoc ls (l ∷ []) (a ++ b)

module _ (strict : Bool) (since : Time → String) (children : List (String × List Event)) where
  -- The children of every node are what the map has for it, and their texts can be cut.
  abbrev pub IsForest : Forest → Type 0
  IsForest nil = Unit
  IsForest (cons (node e below) f) =
      (6 ≤ Str.len e.id)
      × (children_of e.id children ≡ heads below)
      × (length (heads below) ≤ max_children)
      × IsForest below
      × IsForest f

  -- Every node, and then what is below it, before the next node.
  abbrev pub preorder : String → Forest → List TraceLine
  preorder prefix nil = []
  preorder prefix (cons (node e below) f) =
      let is_last = is_empty_list (heads f) in
      line_of strict since children prefix is_last e
        ∷ preorder (child_prefix strict since children prefix is_last) below
      ++ preorder prefix f

  step :
      (n : ℕ) (prefix : String) (is_last : Bool) (e : Event) (below : Forest)
      (stack : List TraceFrame) (lines : List TraceLine)
      → 6 ≤ Str.len e.id
      → children_of e.id children ≡ heads below
      → length (heads below) ≤ max_children
      → nodes below + length stack ≤ max_trace_nodes
      → trace_loop strict since children
          (suc n)
          (record { node = e; prefix = prefix; is_last = is_last } ∷ stack)
          lines
        ≡ trace_loop strict since children n
            (frames_of (child_prefix strict since children prefix is_last) (heads below) ++ stack)
            (lines ++ line_of strict since children prefix is_last e ∷ [])
  unfolding trace_loop print_line push_children push_unless
  step n prefix is_last e below stack lines long same few fits =
      let enough : ltb (Str.len e.id) 6 ≡ false = ground arith in
      let frames = frames_of (child_prefix strict since children prefix is_last) (heads below) in
      let pushes : push_frames frames stack ≡ frames ++ stack =
        push_frames-append frames stack
          (omega (arith, length-frames_of _ (heads below), heads-le-nodes below)) in
      rw (enough, same, le→leb (length (heads below)) max_children few, pushes) refl

  trace_loop-preorder :
      (f : Forest) (n : ℕ) (prefix : String) (stack : List TraceFrame) (lines : List TraceLine)
      → IsForest f
      → nodes f + length stack ≤ max_trace_nodes
      → trace_loop strict since children (nodes f + n) (frames_of prefix (heads f) ++ stack) lines
        ≡ trace_loop strict since children n stack (lines ++ preorder prefix f)
  trace_loop-preorder nil n prefix stack lines h fits =
      ap (λ k. trace_loop strict since children k stack lines) (omega arith)
      ∙ ap (trace_loop strict since children n stack) (sym (append-nil lines))
  trace_loop-preorder (cons (node e below) f) n prefix stack lines (long, same, few, hb, hf) fits =
      let is_last = is_empty_list (heads f) in
      let line = line_of strict since children prefix is_last e in
      let inner = child_prefix strict since children prefix is_last in
      let rest = frames_of prefix (heads f) ++ stack in
      let few_rest : length rest ≤ nodes f + length stack = omega (
        arith,
        length-append (frames_of prefix (heads f)) stack,
        length-frames_of prefix (heads f),
        heads-le-nodes f,
      ) in
      ap
        (λ k.
          trace_loop strict since children k
            (record { node = e; prefix = prefix; is_last = is_last } ∷ rest) lines)
        (fuel (nodes below) (nodes f) n)
      ∙ step (nodes below + (nodes f + n)) prefix is_last e below rest lines long same few
          (omega arith)
      ∙ trace_loop-preorder below (nodes f + n) inner rest (lines ++ line ∷ []) hb (omega arith)
      ∙ trace_loop-preorder f n prefix stack ((lines ++ line ∷ []) ++ preorder inner below) hf
          (omega arith)
      ∙ ap (trace_loop strict since children n stack)
          (joined lines line (preorder inner below) (preorder prefix f))

  loop_done :
      (n : ℕ) (lines : List TraceLine)
      → trace_loop strict since children n [] lines ≡ (ok tt, lines)
  unfolding trace_loop
  loop_done zero lines = refl
  loop_done (suc n) lines = refl

  -- On the roots of a forest of at most 100000 events, with at most 10000 children each and
  -- identifiers of at least 6 characters, where the map of children has for every event those
  -- below it, `printTraceTree` ends without a panic and prints each event, with its prefix and
  -- marker, before the events below it and those before its next sibling, in either assertion
  -- mode.
  pub print_trace_tree-preorder :
      (f : Forest)
      → IsForest f
      → nodes f ≤ max_trace_nodes
      → print_trace_tree strict since children (heads f) [] ≡ (ok tt, preorder "" f)
  unfolding print_trace_tree on_roots
  print_trace_tree-preorder f h small =
      let roots : leb (length (heads f)) max_trace_nodes ≡ true =
        le→leb (length (heads f)) max_trace_nodes (omega (arith, heads-le-nodes f)) in
      let frames = frames_of "" (heads f) in
      let pushed : push_frames frames [] ≡ frames ++ [] =
        push_frames-append frames []
          (omega (arith, length-frames_of "" (heads f), heads-le-nodes f)) in
      rw (roots, pushed)
        (ap (λ k. trace_loop strict since children k (frames ++ []) []) (enough (nodes f) small)
          ∙ trace_loop-preorder f (max_trace_nodes - nodes f) "" [] [] h (omega arith)
          ∙ loop_done (max_trace_nodes - nodes f) (preorder "" f))
    where
      enough : (k : ℕ) → k ≤ max_trace_nodes → max_trace_nodes ≡ k + (max_trace_nodes - k)
      enough k le = omega arith
