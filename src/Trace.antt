-- ===== src/Trace.antt =====
-- cmd/logyctl/commands/trace.go: the tree of a task's events.
pub mod Print
pub mod Order
use logryph.Base.{
  ◌≤◌, ◌≡◌, refl, sym, ap, ◌∙◌, Bool, true, false, not, Option, none, some, List, [], ◌∷◌, ◌++◌,
  String, ◌==◌, is_set, if◌then◌else◌, leb, le→leb, length, select, select-append, append-nil,
  append_assoc, Bool-cases, inl, inr, eq_iff, arith,
}
use logryph.Base.Result.{Result, ok, err, panic}
use logryph.Base.Assoc.{lookup, insert}
use logryph.Assert.{check}
use logryph.Event.{Event}

abbrev pub Tree : Type 0
Tree = List Event × List (String × List Event)

-- `m[k]` of a map of slices: a missing key reads as nil.
or_nil : Option (List Event) → List Event
or_nil none = []
or_nil (some es) = es

unfoldable pub children_of : String → List (String × List Event) → List Event
unfolding or_nil
children_of k m = or_nil (lookup k m)

unfoldable pub place : Event → Tree → Tree
place e (roots, children) =
    if is_set e.parent_id
    then (roots, insert e.parent_id (children_of e.parent_id children ++ e ∷ []) children)
    else (roots ++ e ∷ [], children)

-- The loop
unfoldable pub place_all : List Event → Tree → Tree
place_all [] t = t
place_all (e ∷ es) t = place_all es (place e t)

-- An assertion that fails gives the empty tree.
or_empty_tree : Result (Unit {0}) → Result Tree → Result Tree
or_empty_tree (ok u) rest = rest
or_empty_tree (err e) rest = ok ([], [])
or_empty_tree (panic e) rest = panic e

unfoldable pub build_tree : Bool → List Event → Result Tree
unfolding or_empty_tree
build_tree strict events =
    or_empty_tree (check strict (leb (length events) 100000) "events exceed max")
      (ok (place_all events ([], [])))

children_of-insert :
    (j k : String) (v : List Event) (m : List (String × List Event))
    → children_of j (insert k v m) ≡ (if k == j then v else children_of j m)
unfolding children_of lookup insert
children_of-insert j k v [] = ground arith
children_of-insert j k v (entry ∷ m) =
    ground (arith, eq_iff k j, eq_iff entry.0 k, eq_iff entry.0 j, children_of-insert j k v m)

abbrev is_child : String → Event → Bool
is_child k e = e.parent_id == k

abbrev is_root : Event → Bool
is_root e = not (is_set e.parent_id)

place-roots : (e : Event) (t : Tree) → (place e t).0 ≡ t.0 ++ select is_root (e ∷ [])
unfolding place
place-roots e t = elim (Bool-cases (is_set e.parent_id)) [
  | inl h ↦ rw h (sym (append-nil (t.0)))
  | inr h ↦ rw h
]

set_differs : (p k : String) → is_set p ≡ false → is_set k ≡ true → (p == k) ≡ false
set_differs p k unset set = elim (Bool-cases (p == k)) [
  | inl e ↦ absurd (clash (sym unset ∙ ap is_set ((eq_iff p k).0 e) ∙ set))
  | inr e ↦ e
]
  where
    clash : false ≡ true → ⊥
    clash h = cc

place-children :
    (k : String) (e : Event) (t : Tree)
    → is_set k ≡ true
    → children_of k (place e t).1 ≡ children_of k (t.1) ++ select (is_child k) (e ∷ [])
unfolding place
place-children k e t set = elim (Bool-cases (is_set e.parent_id)) [
  | inl h ↦
      rw (h, children_of-insert k e.parent_id (children_of e.parent_id (t.1) ++ e ∷ []) (t.1))
        (by_parent (e.parent_id == k) refl)
  | inr h ↦ rw (h, set_differs e.parent_id k h set) (sym (append-nil (children_of k (t.1))))
]
  where
    by_parent :
        (b : Bool)
        → (e.parent_id == k) ≡ b
        → (if b then children_of e.parent_id (t.1) ++ e ∷ [] else children_of k (t.1))
          ≡ children_of k (t.1) ++ (if b then e ∷ [] else [])
    by_parent true q = ap (λ j. children_of j (t.1) ++ e ∷ []) ((eq_iff e.parent_id k).0 q)
    by_parent false q = sym (append-nil (children_of k (t.1)))

place_all-roots : (es : List Event) (t : Tree) → (place_all es t).0 ≡ t.0 ++ select is_root es
unfolding place_all
place_all-roots [] t = sym (append-nil (t.0))
place_all-roots (e ∷ es) t =
    place_all-roots es (place e t)
    ∙ ap (λ l. l ++ select is_root es) (place-roots e t)
    ∙ append_assoc (t.0) (select is_root (e ∷ [])) (select is_root es)
    ∙ ap (λ l. t.0 ++ l) (sym (select-append is_root (e ∷ []) es))

place_all-children :
    (k : String) (es : List Event) (t : Tree)
    → is_set k ≡ true
    → children_of k (place_all es t).1 ≡ children_of k (t.1) ++ select (is_child k) es
unfolding place_all
place_all-children k [] t set = sym (append-nil (children_of k (t.1)))
place_all-children k (e ∷ es) t set =
    place_all-children k es (place e t) set
    ∙ ap (λ l. l ++ select (is_child k) es) (place-children k e t set)
    ∙ append_assoc (children_of k (t.1)) (select (is_child k) (e ∷ [])) (select (is_child k) es)
    ∙ ap (λ l. children_of k (t.1) ++ l) (sym (select-append (is_child k) (e ∷ []) es))

-- Of at most 100000 events `buildTree` returns a tree, in either assertion mode, whose roots
-- are the events without a parent, and whose children of a parent that is set are the events
-- that name it, each in the order of the events.
pub build_tree_lem :
    (strict : Bool) (events : List Event)
    → length events ≤ 100000
    → (t : Tree) × (build_tree strict events ≡ ok t)
      × (t.0 ≡ select (λ e. not (is_set e.parent_id)) events)
      × ((k : String)
          → is_set k ≡ true
          → children_of k (t.1) ≡ select (λ e. e.parent_id == k) events)
unfolding build_tree children_of lookup
build_tree_lem strict events few = (
  place_all events ([], []),
  rw (le→leb (length events) 100000 few),
  place_all-roots events ([], []),
  λ k set. place_all-children k events ([], []) set,
)
