-- ===== src/Audit/Append.antt =====
-- internal/ledger/audit/verify.go: parts of chains, and chains that are joined.
use logryph.Base.{◌≡◌, refl, Option, none, some, List, [], ◌∷◌, ◌++◌, last?}
use logryph.Event.{Event}
use logryph.Externals.{Externals}
use logryph.Crypto.{Signer}
use logryph.Audit.Chain.{IsChain}

-- The last of the events, or `prev` where there is none.
abbrev pub last_from : Option Event → List Event → Option Event
last_from prev [] = prev
last_from prev (e ∷ es) = last_from (some e) es

last_from-last? : (e : Event) (es : List Event) → last_from (some e) es ≡ last? (e ∷ es)
last_from-last? e [] = refl
last_from-last? e (f ∷ es) = last_from-last? f es

pub last_from-none : (es : List Event) → last_from none es ≡ last? es
last_from-none [] = refl
last_from-none (e ∷ es) = last_from-last? e es

module _ (x : Externals) (signer : Signer) where
  -- A chain is a chain up to any place, and from there on.
  pub IsChain-append :
      (prev : Option Event) (es fs : List Event)
      → IsChain x signer prev es
      → IsChain x signer (last_from prev es) fs
      → IsChain x signer prev (es ++ fs)
  IsChain-append prev [] fs c d = d
  IsChain-append prev (e ∷ es) fs c d = (c.0, c.1, IsChain-append (some e) es fs c.2 d)

  pub IsChain-prefix :
      (prev : Option Event) (es fs : List Event)
      → IsChain x signer prev (es ++ fs)
      → IsChain x signer prev es
  IsChain-prefix prev [] fs c = tt
  IsChain-prefix prev (e ∷ es) fs c = (c.0, c.1, IsChain-prefix (some e) es fs c.2)

  pub IsChain-suffix :
      (prev : Option Event) (es fs : List Event)
      → IsChain x signer prev (es ++ fs)
      → IsChain x signer (last_from prev es) fs
  IsChain-suffix prev [] fs c = c
  IsChain-suffix prev (e ∷ es) fs c = IsChain-suffix (some e) es fs c.2

  -- The events behind a place are a chain of their own: nothing says that a first event is missing.
  pub IsChain-none :
      (prev : Option Event) (fs : List Event) → IsChain x signer prev fs → IsChain x signer none fs
  IsChain-none prev [] c = tt
  IsChain-none prev (f ∷ fs) c = (tt, c.1, c.2)
