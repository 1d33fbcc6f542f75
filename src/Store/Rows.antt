-- ===== src/Store/Rows.antt =====
-- internal/ledger/store/events.go: the rows of a run, their order, and the last of them.
use mathlib.Core.List.{head?, map}
use mathlib.Core.Option.{some-injective}
use logryph.Base.{ℕ, zero, suc, ◌≡◌, refl, ap, ◌∙◌, some, List, [], ◌∷◌, length, last?, take, arith}
use logryph.Base.Sort.{
  sort_by, descending, IsRising, head?-sort_by-IsRising, ascending, sort_by-IsRising,
}
use logryph.Externals.{Externals}
use logryph.Repository.Laws.{IsSequential, IsLast}
use logryph.Store.{Row, last_or_empty}
use logryph.Store.Read.{scan_event}

abbrev pub index_of : Row → ℕ
index_of r = r.seq_index

module _ {A B : Type 0} (f : A → B) where
  pub length-map : (xs : List A) → length (map f xs) ≡ length xs
  length-map [] = refl
  length-map (x ∷ xs) = ap suc (length-map xs)

  pub map-take : (n : ℕ) (xs : List A) → map f (take n xs) ≡ take n (map f xs)
  map-take zero xs = refl
  map-take (suc n) [] = refl
  map-take (suc n) (x ∷ xs) = ap (λ l. f x ∷ l) (map-take n xs)

pub last?-in : {A : Type 0} (x : A) (xs : List A) → (l : A) × (last? (x ∷ xs) ≡ some l)
last?-in x [] = (x, refl)
last?-in x (y ∷ ys) = last?-in y ys

module _ (x : Externals) where
  pub IsSequential-IsRising :
      (n : ℕ) (rows : List Row) → IsSequential n (map (scan_event x) rows) → IsRising index_of rows
  unfolding scan_event
  IsSequential-IsRising n [] h = tt
  IsSequential-IsRising n (r ∷ []) h = tt
  IsSequential-IsRising n (r ∷ s ∷ rows) h =
      let lower : r.seq_index ≡ n = h.0 in
      let upper : s.seq_index ≡ suc n = h.1.0 in
      (omega arith, IsSequential-IsRising (suc n) (s ∷ rows) h.1)

  last?-scan :
      (rows : List Row) {l : Row}
      → last? rows ≡ some l
      → last? (map (scan_event x) rows) ≡ some (scan_event x l)
  last?-scan [] e = cc
  last?-scan (r ∷ []) {l} e = ap (λ k. some (scan_event x k)) (some-injective r l e)
  last?-scan (r ∷ s ∷ rows) e = last?-scan (s ∷ rows) e

  -- The first row in descending order is the last event.
  pub descending-IsLast :
      (rows : List Row)
      → IsRising index_of rows
      → IsLast
          (last? (map (scan_event x) rows))
          (last_or_empty (head? (sort_by (descending index_of) rows)))
  unfolding last_or_empty scan_event sort_by
  descending-IsLast [] h = refl
  descending-IsLast (r ∷ rows) h =
      let (l, e) = last?-in r rows in
      rw (last?-scan (r ∷ rows) e, head?-sort_by-IsRising index_of (r ∷ rows) h e) refl

  -- Rows in sequence are in ascending order already.
  pub scan-sorted :
      (n : ℕ) (rows : List Row)
      → IsSequential 0 (map (scan_event x) rows)
      → map (scan_event x) (take n (sort_by (ascending index_of) rows))
        ≡ take n (map (scan_event x) rows)
  scan-sorted n rows h =
      ap (λ rs. map (scan_event x) (take n rs))
        (sort_by-IsRising index_of rows (IsSequential-IsRising 0 rows h))
      ∙ map-take (scan_event x) n rows
