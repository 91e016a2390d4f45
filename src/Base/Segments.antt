-- ===== src/Base/Segments.antt =====
-- Slash-separated paths and their segments: strings.Split(p, "/").
use bons_ci.Base.{
  Str, ℕ, List, [], ◌∷◌, ◌++◌, if◌then◌else◌, ◌==◌, ◌≡◌, refl, ap, ◌∙◌, arith, Bool-cases, inl, inr,
}

-- A path as the list of its segments.
abbrev pub Segments : Type 0
Segments = List Str

push_byte : ℕ → Segments → Segments
push_byte c [] = (c ∷ []) ∷ []
push_byte c (s ∷ ss) = (c ∷ s) ∷ ss

unfoldable pub split : Str → Segments
unfolding push_byte
split [] = [] ∷ []
split (c ∷ s) = if c == b'/' then [] ∷ split s else push_byte c (split s)

-- strings.Join(segments, "/")
unfoldable pub join : Segments → Str
join [] = []
join (s ∷ []) = s
join (s ∷ t ∷ ss) = s ++ b'/' ∷ join (t ∷ ss)

join-push_byte : (c : ℕ) (s : Str) (ss : Segments) → join (push_byte c (s ∷ ss)) ≡ c ∷ join (s ∷ ss)
unfolding join push_byte
join-push_byte c s [] = refl
join-push_byte c s (t ∷ ss) = refl

split_cons : (p : Str) → (s : Str) × (ss : Segments) × (split p ≡ s ∷ ss)
unfolding split push_byte
split_cons [] = ([], [], refl)
split_cons (c ∷ p) =
    let (s, ss, e) = split_cons p in
    elim (Bool-cases (c == b'/')) [
      | inl h ↦ ([], s ∷ ss, rw (h, e))
      | inr h ↦ (c ∷ s, ss, rw (h, e))
    ]

-- Joining the segments of a path gives the path back.
pub join-split : (p : Str) → join (split p) ≡ p
unfolding split join
join-split [] = refl
join-split (c ∷ p) =
    let (s, ss, e) = split_cons p in
    let rest : join (s ∷ ss) ≡ p = rw e at (join-split p) in
    elim (Bool-cases (c == b'/')) [
      | inl h ↦ let is_slash : c ≡ b'/' = ground arith in rw (h, e, is_slash) (ap (◌∷◌ b'/') rest)
      | inr h ↦ rw (h, e) (join-push_byte c s ss ∙ ap (◌∷◌ c) rest)
    ]

-- Every path but the last segment, and the last segment.
abbrev pub parent : Segments → Segments
parent [] = []
parent (s ∷ []) = []
parent (s ∷ t ∷ ss) = s ∷ parent (t ∷ ss)

abbrev pub base : Segments → Str
base [] = []
base (s ∷ []) = s
base (s ∷ t ∷ ss) = base (t ∷ ss)
