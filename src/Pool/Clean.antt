-- ===== src/Pool/Clean.antt =====
-- internal/pool/pool.go: clean events, and what the pool hands out.
use mathlib.Core.Option.{some-injective}
use logryph.Base.{
  ℕ, zero, suc, ◌≤◌, ◌≡◌, refl, sym, subst, Bool, true, false, Option, none, some, List, [], ◌∷◌,
  leb, leb→le, get_elem?, arith,
}
use logryph.Assert.{check}
use logryph.Json.{Fields, end, field, size}
use logryph.Event.{Event, Map, empty_event}
use logryph.Pool.{
  EventPool, from_new, take_at, remove_at, pool_get, get_event, put_event, pool_put, or_return,
  clear_map, clear_maps, reset_fields, delete_rounds, map_size, max_event_fields,
}

-- Nothing of an earlier request is left, but for the timestamp: a map is nil or empty.
pub record IsClean (e : Event) : Type 0 where
  pub blank :
      e ≡ record empty_event { timestamp = e.timestamp; params = e.params; response = e.response }
  pub params_empty : map_size e.params ≡ 0
  pub response_empty : map_size e.response ≡ 0

abbrev pub AllClean : List Event → Type 0
AllClean [] = Unit
AllClean (e ∷ es) = IsClean e × AllClean es

abbrev pub Gives : Event × EventPool → Type 0
Gives o = IsClean o.0 × AllClean o.1.free

size-delete_rounds : (n : ℕ) (m : Fields) → size m ≤ n → size (delete_rounds n m) ≡ 0
unfolding delete_rounds size
size-delete_rounds zero m h = omega arith
size-delete_rounds (suc n) end h = size-delete_rounds n end (omega arith)
size-delete_rounds (suc n) (field k v m) h = size-delete_rounds n m (omega arith)

size-clear_map : (m : Map) → map_size m ≤ max_event_fields → map_size (clear_map m) ≡ 0
unfolding clear_map
size-clear_map none h = refl
size-clear_map (some m) h = size-delete_rounds 256 m h

new-IsClean : (p : EventPool) → AllClean p.free → Gives (from_new p)
unfolding from_new
new-IsClean p h =
    (record { blank = refl; params_empty = unfold size in refl; response_empty = refl }, h)

found-IsClean :
    (es : List Event) (i : ℕ) (e : Event)
    → AllClean es
    → get_elem? es i ≡ some e
    → IsClean e × AllClean (remove_at i es)
unfolding remove_at
found-IsClean [] i e h k = cc
found-IsClean (f ∷ es) zero e h k = (subst IsClean (some-injective f e k) h.0, h.1)
found-IsClean (f ∷ es) (suc i) e h k =
    let (clean, rest) = found-IsClean es i e h.1 k in (clean, (h.0, rest))

take_at-IsClean :
    (i : ℕ) (o : Option Event) (p : EventPool)
    → AllClean p.free
    → get_elem? p.free i ≡ o
    → Gives (take_at i o p)
unfolding take_at
take_at-IsClean i none p h k = new-IsClean p h
take_at-IsClean i (some e) p h k = found-IsClean p.free i e h k

pool_get-IsClean :
    (choices : List (Option ℕ)) (p : EventPool) → AllClean p.free → Gives (pool_get choices p)
unfolding pool_get
pool_get-IsClean [] p h = new-IsClean p h
pool_get-IsClean (none ∷ cs) p h = new-IsClean (record p { choices = cs }) h
pool_get-IsClean (some i ∷ cs) p h =
    take_at-IsClean i (get_elem? p.free i) (record p { choices = cs }) h refl

-- A pool whose events are clean hands out a clean event, and keeps clean ones.
pub get_event-IsClean : (p : EventPool) → AllClean p.free → Gives (get_event p)
unfolding get_event
get_event-IsClean p h = pool_get-IsClean p.choices p h

reset-IsClean :
    (e : Event)
    → map_size e.params ≤ max_event_fields
    → map_size e.response ≤ max_event_fields
    → IsClean (clear_maps (reset_fields e))
unfolding clear_maps reset_fields
reset-IsClean e hp hr = record {
  blank = refl;
  params_empty = size-clear_map e.params hp;
  response_empty = size-clear_map e.response hr;
}

-- Whatever event is put, and whether the call returns or panics, the pool keeps clean events.
pub put_event-AllClean :
    (strict : Bool) (o : Option Event) (p : EventPool)
    → AllClean p.free
    → AllClean ((put_event strict o p).1.free)
unfolding put_event pool_put
put_event-AllClean strict none p h = h
put_event-AllClean strict (some e) p h =
    by_sizes strict (leb (map_size e.params) max_event_fields)
      (leb (map_size e.response) max_event_fields) refl refl
  where
    by_sizes :
        (s b c : Bool)
        → leb (map_size e.params) max_event_fields ≡ b
        → leb (map_size e.response) max_event_fields ≡ c
        → AllClean (
            (or_return
              (check s b "params map too large")
              (or_return
                (check s c "response map too large")
                (pool_put (clear_maps (reset_fields e))))
              p).1.free)
    by_sizes true false c k l = h
    by_sizes false false c k l = h
    by_sizes true true false k l = h
    by_sizes false true false k l = h
    by_sizes s true true k l =
        (reset-IsClean e (leb→le _ max_event_fields k) (leb→le _ max_event_fields l), h)

-- The pools that calls of `GetEvent` and `PutEvent` lead to.
pub data Use (p : EventPool) : EventPool → Type 0 where
  unused : Use p p
  gets : {q : EventPool} → Use p q → Use p (get_event q).1
  puts :
      {q : EventPool} (strict : Bool) (o : Option Event) → Use p q → Use p (put_event strict o q).1

Use-AllClean : (p q : EventPool) → Use p q → AllClean p.free → AllClean q.free
Use-AllClean p q unused h = h
Use-AllClean p q (gets {q = r} before) h = (get_event-IsClean r (Use-AllClean p r before h)).1
Use-AllClean p q (puts {q = r} strict o before) h =
    put_event-AllClean strict o r (Use-AllClean p r before h)

-- Whatever calls of `GetEvent` and `PutEvent` are made on a pool without events, in any order,
-- of any events, and whichever events or new ones `sync.Pool` hands out, the next event that it
-- hands out is blank but for its timestamp, and its maps are nil or empty.
pub Use-IsClean : (p q : EventPool) → p.free ≡ [] → Use p q → IsClean (get_event q).0
Use-IsClean p q none_yet used =
    (get_event-IsClean q (Use-AllClean p q used (subst AllClean (sym none_yet) tt))).0
