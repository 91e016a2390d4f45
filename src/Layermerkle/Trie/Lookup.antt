-- ===== src/Layermerkle/Trie/Lookup.antt =====
-- pkg/layermerkle/internal/trie/trie.go: what stands at each path after an insertion.
use bons_ci.Base.{
  Str, str_key, str_eqb, str_eqb_iff, key_eq_sym, Bool, true, false, [], ◌∷◌, Option, none, some,
  if◌then◌else◌, ◌≡◌, refl, ◌∙◌, ap, arith, Bool-cases, Option-cases, inl, inr,
}
use bons_ci.Base.Segments.{Segments}
use bons_ci.Layermerkle.Trie.{
  Node, Children, node, empty, entry, new_child, set_file, set_dir, put_child, insert_at,
}

-- The entry of the map for a key.
abbrev pub child : Str → Children → Option Node
child k empty = none
child k (entry j n cs) = if str_eqb j k then some n else child k cs

abbrev pub below : (Node → Option (Str × Bool)) → Option Node → Option (Str × Bool)
below f none = none
below f (some n) = f n

-- The hash and the kind of the node at a path below a node.
abbrev pub find : Segments → Node → Option (Str × Bool)
find [] (node s h d cs) = some (h, d)
find (k ∷ p) (node s h d cs) = below (find p) (child k cs)

-- What an insertion at one path does to what stands at another: the last node is a file with the hash,
-- the nodes above it are directories, and no other node is changed.
abbrev pub write : Segments → Str → Segments → Option (Str × Bool) → Option (Str × Bool)
write [] hash [] old = some (hash, false)
write [] hash (k ∷ r) old = old
write (t ∷ p) hash [] none = some ([], true)
write (t ∷ p) hash [] (some (h, d)) = some (h, true)
write (t ∷ p) hash (k ∷ r) old = if str_eqb t k then write p hash r old else old

-- The change of the child on the way to a path.
abbrev change_of : Segments → Str → Node → Node
change_of [] hash n = set_file hash n
change_of (t ∷ rest) hash n = insert_at (t ∷ rest) hash (set_dir n)

insert_at-cons :
    (seg : Str) (rest : Segments) (hash s h : Str) (d : Bool) (cs : Children)
    → insert_at (seg ∷ rest) hash (node s h d cs)
      ≡ node s h d (put_child seg (new_child seg rest) (change_of rest hash) cs)
unfolding insert_at
insert_at-cons seg [] hash s h d cs = refl
insert_at-cons seg (t ∷ rest) hash s h d cs = refl

child-put_child :
    (seg k : Str) (fresh : Node) (f : Node → Node) (cs : Children)
    → child k (put_child seg fresh f cs) ≡ (
        if str_eqb seg k
        then elim (child seg cs) [ none ↦ some (f fresh) | some n ↦ some (f n) ]
        else child k cs)
unfolding put_child
child-put_child seg k fresh f empty = refl
child-put_child seg k fresh f (entry j n cs) =
    ground (
      arith,
      str_eqb_iff j seg,
      str_eqb_iff seg k,
      str_eqb_iff j k,
      child-put_child seg k fresh f cs,
    )

find_fresh :
    (seg : Str) (rest r : Segments) (hash : Str)
    → write rest hash r (find r (new_child seg rest)) ≡ write rest hash r none
find_fresh seg [] [] hash = refl
find_fresh seg (t ∷ p) [] hash = refl
find_fresh seg [] (k ∷ r) hash = refl
find_fresh seg (t ∷ p) (k ∷ r) hash = refl

-- A change of a node on the way, and what it does to what stands below.
find-change_of :
    (p : Segments) (hash : Str) (r : Segments) (n : Node)
    → find r (change_of p hash n) ≡ write p hash r (find r n)
find-change_of [] hash [] (node s h d cs) = refl
find-change_of [] hash (k ∷ r) (node s h d cs) = refl
find-change_of (t ∷ p) hash [] (node s h d cs) = rw (insert_at-cons t p hash s h true cs) refl
find-change_of (t ∷ p) hash (k ∷ r) (node s h d cs) =
    let f = change_of p hash in
    let there = find-change_of p hash r in
    let same = str_eqb_iff t k in
    rw (insert_at-cons t p hash s h true cs) (
      ap (below (find r)) (child-put_child t k (new_child t p) f cs)
      ∙ elim (Option-cases (child t cs)) [
        | inl e ↦ ground (arith, there (new_child t p), find_fresh t p r hash)
        | inr (n, e) ↦ ground (arith, there n)
      ])

-- After an insertion the last node of the path is a file with the hash, the nodes above it are
-- directories, and what stands at every other path below the root is as it was.
pub find-insert_at :
    (p : Segments) (hash k : Str) (r : Segments) (n : Node)
    → find (k ∷ r) (insert_at p hash n) ≡ write p hash (k ∷ r) (find (k ∷ r) n)
unfolding insert_at
find-insert_at [] hash k r n = refl
find-insert_at (t ∷ p) hash k r (node s h d cs) = rw (insert_at-cons t p hash s h d cs) (
    rw (insert_at-cons t p hash s h true cs) at
      (find-change_of (t ∷ p) hash (k ∷ r) (node s h d cs)))

-- No map has a key twice.
unfoldable mutual
  pub HasUniqueKeys : Node → Type 0
  HasUniqueKeys (node s h d cs) = UniqueChildren cs

  pub UniqueChildren : Children → Type 0
  UniqueChildren empty = Unit
  UniqueChildren (entry k n cs) = (child k cs ≡ none) × HasUniqueKeys n × UniqueChildren cs

put_child-UniqueChildren :
    (seg : Str) (fresh : Node) (f : Node → Node) (cs : Children)
    → HasUniqueKeys fresh
    → ((n : Node) → HasUniqueKeys n → HasUniqueKeys (f n))
    → UniqueChildren cs
    → UniqueChildren (put_child seg fresh f cs)
unfolding put_child HasUniqueKeys
put_child-UniqueChildren seg fresh f empty hf k h = (refl, k fresh hf, tt)
put_child-UniqueChildren seg fresh f (entry j n cs) hf k h = elim (Bool-cases (str_eqb j seg)) [
  | inl e ↦ rw e (h.0, k n h.1, h.2)
  | inr e ↦ rw e (
    ground (arith, child-put_child seg j fresh f cs, key_eq_sym j seg, h.0),
    h.1,
    put_child-UniqueChildren seg fresh f cs hf k h.2,
  )
]

fresh_keys : (seg : Str) (rest : Segments) → HasUniqueKeys (new_child seg rest)
unfolding HasUniqueKeys
fresh_keys seg [] = tt
fresh_keys seg (t ∷ rest) = tt

change_of-HasUniqueKeys :
    (p : Segments) (hash : Str) (n : Node) → HasUniqueKeys n → HasUniqueKeys (change_of p hash n)
unfolding HasUniqueKeys
change_of-HasUniqueKeys [] hash (node s h d cs) u = u
change_of-HasUniqueKeys (t ∷ p) hash (node s h d cs) u = rw (insert_at-cons t p hash s h true cs) (
    put_child-UniqueChildren t (new_child t p) (change_of p hash) cs (fresh_keys t p)
      (change_of-HasUniqueKeys p hash) u)

pub insert_at-HasUniqueKeys :
    (p : Segments) (hash : Str) (n : Node) → HasUniqueKeys n → HasUniqueKeys (insert_at p hash n)
unfolding insert_at HasUniqueKeys
insert_at-HasUniqueKeys [] hash n u = u
insert_at-HasUniqueKeys (t ∷ p) hash (node s h d cs) u = rw (insert_at-cons t p hash s h d cs) (
    put_child-UniqueChildren t (new_child t p) (change_of p hash) cs (fresh_keys t p)
      (change_of-HasUniqueKeys p hash) u)
