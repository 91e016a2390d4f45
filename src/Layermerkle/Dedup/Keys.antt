-- ===== src/Layermerkle/Dedup/Keys.antt =====
-- pkg/layermerkle/deduplicator.go: the keys by which concurrent requests are joined.
use bons_ci.Base.{
  Str, ℕ, ◌==◌, true, false, List, [], ◌∷◌, ◌++◌, All, any, any-append, ◌≡◌, refl, ap, arith,
}
use bons_ci.Layermerkle.Types.{LayerId}
use bons_ci.Layermerkle.Dedup.{layer_stack_key, singleflight_key}

-- A text has no such byte.
abbrev pub Lacks : ℕ → Str → Type 0
Lacks c s = any (λ b. b == c) s ≡ false

-- The first place of a byte cuts a text in one way.
cut : (c : ℕ) (a b x y : Str) → Lacks c a → Lacks c b → a ++ c ∷ x ≡ b ++ c ∷ y → (a ≡ b) × (x ≡ y)
cut c [] [] x y h k e = (refl, ground (arith, e))
cut c [] (d ∷ b) x y h k e = absurd (ground (arith, e))
cut c (d ∷ a) [] x y h k e = absurd (ground (arith, e))
cut c (d ∷ a) (f ∷ b) x y h k e =
    let (p, q) = cut c a b x y (ground arith) (ground arith) (ground (arith, e)) in
    (ground (arith, e, p), q)

-- The names of layers that a key can hold.
abbrev pub IsName : LayerId → Type 0
IsName l = Lacks 124 l × Lacks 0 l

has_bar : (a x : Str) → any (λ b. b == 124) (a ++ 124 ∷ x) ≡ true
has_bar [] x = refl
has_bar (c ∷ a) x = ground (arith, has_bar a x)

layer_stack_key-inj :
    (k l : LayerId) (ks ls : List LayerId)
    → All IsName (k ∷ ks)
    → All IsName (l ∷ ls)
    → layer_stack_key (k ∷ ks) ≡ layer_stack_key (l ∷ ls)
    → ◌≡◌ {A = List LayerId} (k ∷ ks) (l ∷ ls)
layer_stack_key-inj k l [] [] h g e = ap (λ a. a ∷ []) e
layer_stack_key-inj k l [] (m ∷ ls) h g e =
    absurd (ground (arith, ap (any (λ b. b == 124)) e, has_bar l (layer_stack_key (m ∷ ls)), h.0.0))
layer_stack_key-inj k l (m ∷ ks) [] h g e =
    absurd (ground (arith, ap (any (λ b. b == 124)) e, has_bar k (layer_stack_key (m ∷ ks)), g.0.0))
layer_stack_key-inj k l (m ∷ ks) (n ∷ ls) h g e =
    let (p, q) = cut 124 k l (layer_stack_key (m ∷ ks)) (layer_stack_key (n ∷ ls)) h.0.0 g.0.0 e in
    cc (p, layer_stack_key-inj m n ks ls h.1 g.1 q)

layer_stack_key-Lacks : (ls : List LayerId) → All IsName ls → Lacks 0 (layer_stack_key ls)
layer_stack_key-Lacks [] h = refl
layer_stack_key-Lacks (l ∷ []) h = h.0.1
layer_stack_key-Lacks (l ∷ m ∷ ls) h = ground (
  arith,
  any-append (λ b. b == 0) l (124 ∷ layer_stack_key (m ∷ ls)),
  h.0.1,
  layer_stack_key-Lacks (m ∷ ls) h.1,
)

-- Requests are joined only if they are for one stack and one path, where the names of layers have no vertical bar and
-- no zero byte and no stack is empty.
pub singleflight_key-inj :
    (k l : LayerId) (ks ls : List LayerId) (p q : Str)
    → All IsName (k ∷ ks)
    → All IsName (l ∷ ls)
    → singleflight_key (k ∷ ks) p ≡ singleflight_key (l ∷ ls) q
    → (◌≡◌ {A = List LayerId} (k ∷ ks) (l ∷ ls)) × (p ≡ q)
singleflight_key-inj k l ks ls p q h g e =
    let (a, b) =
      cut 0 (layer_stack_key (k ∷ ks)) (layer_stack_key (l ∷ ls)) p q
        (layer_stack_key-Lacks (k ∷ ks) h) (layer_stack_key-Lacks (l ∷ ls) g) e in
    (layer_stack_key-inj k l ks ls h g a, b)
