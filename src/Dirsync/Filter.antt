-- ===== src/Dirsync/Filter.antt =====
-- internal/dirsync/filter.go: which paths take part. The pattern engine, moby's `patternmatcher`, is
-- not part of the repository's code: a matcher is a parameter, `none` where it reports an error.
use bons_ci.Base.{
  Str, has_prefix, ℕ, Bool, true, false, ◌&&◌, ◌||◌, List, [], ◌∷◌, ◌++◌, any, Option, none, some,
  if◌then◌else◌, ◌==◌,
}
use bons_ci.Dirsync.Paths.{slash}

-- The interface `Filter`.
pub record Filter : Type 0 where
  pub include : Str → Bool → Bool
  pub required_paths : List Str

unfoldable pub noop_filter : Filter
noop_filter = record { include = λ _ _. true; required_paths = [] }

-- `MatchesOrParentMatches` of a compiled pattern list.
abbrev pub Matcher : Type 0
Matcher = Str → Option Bool

pub record PatternFilter : Type 0 where
  pub include_patterns : List Str
  pub exclude_patterns : List Str
  pub required : List Str
  pub include_matcher : Option Matcher
  pub exclude_matcher : Option Matcher

-- `matched, err := m.MatchesOrParentMatches(relPath); err == nil && matched`
abbrev pub hit : Option Bool → Bool
hit none = false
hit (some b) = b

is_wildcard : ℕ → Bool
is_wildcard c = c == b'*' || (c == b'?' || c == b'[')

-- strings.TrimPrefix(raw, "!")
trim_negation : Str → Str
trim_negation [] = []
trim_negation (c ∷ s) = if c == b'!' then s else c ∷ s

unfoldable pub could_have_matching_descendant : PatternFilter → Str → Bool
unfolding is_wildcard trim_negation
could_have_matching_descendant f dir_path =
    any
      (λ raw.
        has_prefix (trim_negation raw) (dir_path ++ slash ∷ [])
        || any is_wildcard (trim_negation raw))
      f.include_patterns

-- Step 1 of `Include`: a nil matcher excludes nothing.
abbrev pub excluded : PatternFilter → Str → Bool
excluded f rel_path = elim f.exclude_matcher [ none ↦ false | some m ↦ hit (m rel_path) ]

unfoldable pub include : PatternFilter → Str → Bool → Bool
unfolding could_have_matching_descendant
include f rel_path is_directory = if excluded f rel_path then false else elim f.include_matcher [
  | none ↦ true
  | some m ↦
      if hit (m rel_path)
      then true
      else if is_directory && could_have_matching_descendant f rel_path
      then true
      else false
]

-- `NewPatternFilter` with `compile` for `patternmatcher.New`; `none` is its error.
unfoldable pub compile_patterns : (List Str → Option Matcher) → List Str → Option (Option Matcher)
compile_patterns compile [] = some none
compile_patterns compile (p ∷ ps) = elim (compile (p ∷ ps)) [ none ↦ none | some m ↦ some (some m) ]

unfoldable pub new_pattern_filter :
    (List Str → Option Matcher) → List Str → List Str → List Str → Option PatternFilter
unfolding compile_patterns
new_pattern_filter compile inc exc req = elim (compile_patterns compile inc) [
  | none ↦ none
  | some im ↦ elim (compile_patterns compile exc) [
    | none ↦ none
    | some em ↦ some (record {
      include_patterns = inc;
      exclude_patterns = exc;
      required = req;
      include_matcher = im;
      exclude_matcher = em;
    })
  ]
]

-- A pattern filter as a `Filter`.
unfoldable pub as_filter : PatternFilter → Filter
unfolding include
as_filter f = record { include = include f; required_paths = f.required }
