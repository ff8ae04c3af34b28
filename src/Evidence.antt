-- ===== src/Evidence.antt =====
-- `ProviderEvidence` of models.py: the provenance that a fetch carries to the catalog.
use mathlib.Core.Path.{subst}
use xret.Timeframe.{Datetime}
use xret.Prelude.{
  refl, ltb→lt, inr, inl, guarded, arith, ◌⊎◌, ◌≢◌, ◌||◌, ◌==◌, ◌<◌, ◌+◌, ◌&&◌, ℕ, true, some,
  same_text, ok, not, none, ltb, invalid_request, if◌then◌else◌, false, err, codes, [], Text,
  Result, Option, List, Bool, ◌∷◌, ◌≡◌,
}

pub record ProviderEvidence : Type 0 where
  pub provider_name : Text
  pub provider_version : Text
  pub provider_api_version : ℕ
  pub native_market_id : Text
  pub native_symbol : Text
  pub normalizations : List Text
  pub reference_target_scope : Option Text
  pub derivative_linear : Option Bool
  pub derivative_inverse : Option Bool
  pub contract_size : Option Text
  pub source_field_mapping : Option Text
  pub contributed_start : Option Datetime
  pub contributed_end : Option Datetime
  pub source_route : Option Text
  pub object_key : Option Text
  pub checksum_algorithm : Option Text
  pub checksum_value : Option Text
  pub source_revision : Option Text
  pub retrieved_at : Option Datetime
  pub source_rows : Option ℕ
  pub canonical_rows : Option ℕ
  pub duplicate_rows : Option ℕ

abbrev is_given : Text → Bool
is_given [] = false
is_given (c ∷ t) = true

-- `None`, or nonempty.
abbrev is_given_or_none : Option Text → Bool
is_given_or_none none = true
is_given_or_none (some t) = is_given t

all_given : List Text → Bool
all_given [] = true
all_given (t ∷ rest) = is_given t && all_given rest

pub has_text : Text → List Text → Bool
has_text t [] = false
has_text t (u ∷ rest) = same_text t u || has_text t rest

-- `len(set(…)) == len(…)`
no_duplicates : List Text → Bool
unfolding has_text
no_duplicates [] = true
no_duplicates (t ∷ rest) = not (has_text t rest) && no_duplicates rest

is_scope : Option Text → Bool
is_scope none = true
is_scope (some t) = same_text t (codes "contract") || same_text t (codes "pair")

-- Both ends or none, and the range is not empty.
is_range : Option Datetime → Option Datetime → Bool
is_range none none = true
is_range (some a) (some b) = ltb a b
is_range _ _ = false

are_paired : Option Text → Option Text → Bool
are_paired none none = true
are_paired (some a) (some b) = true
are_paired _ _ = false

-- All three counts or none, and they add up.
are_counts : Option ℕ → Option ℕ → Option ℕ → Bool
are_counts none none none = true
are_counts (some source) (some canonical) (some duplicate) = canonical + duplicate == source
are_counts _ _ _ = false

is_evidence : ProviderEvidence → Bool
unfolding all_given no_duplicates is_scope is_range are_paired are_counts
is_evidence e =
    is_given e.provider_name
    && is_given e.provider_version
    && is_given e.native_market_id
    && is_given e.native_symbol
    && ltb 0 e.provider_api_version
    && all_given e.normalizations
    && no_duplicates e.normalizations
    && is_scope e.reference_target_scope
    && is_given_or_none e.contract_size
    && is_given_or_none e.source_field_mapping
    && is_range e.contributed_start e.contributed_end
    && is_given_or_none e.source_route
    && is_given_or_none e.source_revision
    && are_paired e.checksum_algorithm e.checksum_value
    && are_counts e.source_rows e.canonical_rows e.duplicate_rows

-- `ProviderEvidence.__post_init__`: every check raises the same error.
unfoldable pub provider_evidence : ProviderEvidence → Result ProviderEvidence
unfolding is_evidence
provider_evidence e = if is_evidence e then ok e else err invalid_request

-- What the rest of the program relies on.
pub record IsEvidence (e : ProviderEvidence) : Type 0 where
  pub named : e.provider_name ≢ []
  pub versioned : 0 < e.provider_api_version
  pub ranged :
      ((e.contributed_start ≡ none) × (e.contributed_end ≡ none))
      ⊎ ((a : Datetime) × (b : Datetime) × (e.contributed_start ≡ some a)
          × (e.contributed_end ≡ some b)
          × (a < b))
  pub counted :
      (e.source_rows ≡ none)
      ⊎ ((s : ℕ) × (c : ℕ) × (d : ℕ) × (e.source_rows ≡ some s)
          × (e.canonical_rows ≡ some c)
          × (e.duplicate_rows ≡ some d)
          × (c + d ≡ s))

abbrev IsRange : Option Datetime → Option Datetime → Type 0
IsRange start end =
    ((start ≡ none) × (end ≡ none))
    ⊎ ((a : Datetime) × (b : Datetime) × (start ≡ some a) × (end ≡ some b) × (a < b))

is_range-IsRange : (start end : Option Datetime) → is_range start end ≡ true → IsRange start end
unfolding is_range
is_range-IsRange none none h = inl (refl, refl)
is_range-IsRange none (some b) h = cc
is_range-IsRange (some a) none h = cc
is_range-IsRange (some a) (some b) h = inr (a, b, refl, refl, ltb→lt a b h)

abbrev AreCounts : Option ℕ → Option ℕ → Option ℕ → Type 0
AreCounts source canonical duplicate =
    (source ≡ none)
    ⊎ ((s : ℕ) × (c : ℕ) × (d : ℕ) × (source ≡ some s)
        × (canonical ≡ some c)
        × (duplicate ≡ some d)
        × (c + d ≡ s))

are_counts-AreCounts : (s c d : Option ℕ) → are_counts s c d ≡ true → AreCounts s c d
unfolding are_counts
are_counts-AreCounts none c d h = inl refl
are_counts-AreCounts (some s) none d h = cc
are_counts-AreCounts (some s) (some c) none h = cc
are_counts-AreCounts (some s) (some c) (some d) h = inr (s, c, d, refl, refl, refl, ground arith)

given-named : (t : Text) → is_given t ≡ true → t ≢ []
given-named [] h e = cc
given-named (c ∷ t) h e = cc

-- The checks that the later ones hang on.
checked :
    (e : ProviderEvidence)
    → is_evidence e ≡ true
    → (is_given e.provider_name ≡ true)
      × (ltb 0 e.provider_api_version ≡ true)
      × (is_range e.contributed_start e.contributed_end ≡ true)
      × (are_counts e.source_rows e.canonical_rows e.duplicate_rows ≡ true)
unfolding is_evidence
checked e h = (ground arith, ground arith, ground arith, ground arith)

-- Evidence is accepted unchanged, and what is accepted names its provider, has a positive version of
-- the interface, both ends of a nonempty contributed range or none, and counts that add up or none.
pub provider_evidence-IsEvidence :
    (e f : ProviderEvidence) → provider_evidence e ≡ ok f → (e ≡ f) × IsEvidence f
unfolding provider_evidence
provider_evidence-IsEvidence e f h =
    let g = guarded invalid_request (is_evidence e) e f h in
    let c = checked e g.0 in
    (
      g.1,
      subst IsEvidence g.1 (record {
        named = given-named e.provider_name c.0;
        versioned = ltb→lt 0 e.provider_api_version c.1;
        ranged = is_range-IsRange e.contributed_start e.contributed_end c.2;
        counted = are_counts-AreCounts e.source_rows e.canonical_rows e.duplicate_rows c.3;
      }),
    )
