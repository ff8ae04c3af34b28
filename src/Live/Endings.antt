-- ===== src/Live/Endings.antt =====
-- The errors that leave the `async with` block of a session.
use xret.Live.{is_failure, Session, Ending}
use xret.Prelude.{◌⊎◌, some, none, false, [], Option, List, Bool, ◌∷◌, ◌≡◌}

abbrev pub HasError : {E : Type 0} → E → List E → Type 0
HasError e [] = ⊥
HasError e (x ∷ xs) = (x ≡ e) ⊎ HasError e xs

-- What leaves the block: what `__aexit__` raises, or else the error of the block itself.
unfoldable pub leaves : {E : Type 0} → Option E → Ending E → List E
leaves none Ending.returns_none = []
leaves (some exc) Ending.returns_none = exc ∷ []
leaves exc (Ending.raises_one e) = e ∷ []
leaves exc (Ending.raises_group e f) = e ∷ f ∷ []

-- The errors of the block and of the session that are to leave it.
abbrev pub IsPrimary : {K U E : Type 0} → E → Option E → Session K U E → Type 0
IsPrimary e exc s =
    (exc ≡ some e) ⊎ ((exc ≡ none) × (s.failure ≡ some e) × (s.failure_observed ≡ false))

-- The errors of the cleanup that are to leave it.
abbrev pub IsCleanup :
    {E : Type 0} → (E → E → Bool) → E → Option E → Option E → Option E → Option E → Type 0
IsCleanup same e exc failure reader runtime =
    (runtime ≡ some e)
    ⊎ ((runtime ≡ none) × (exc ≡ none) × (reader ≡ some e) × (is_failure same failure e ≡ false))

module _ {E : Type 0} (e : E) where
  both : Option E → Option E → List E
  both none none = []
  both none (some c) = c ∷ []
  both (some p) none = p ∷ []
  both (some p) (some c) = p ∷ c ∷ []
