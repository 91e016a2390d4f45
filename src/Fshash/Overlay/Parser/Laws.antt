-- ===== src/Fshash/Overlay/Parser/Laws.antt =====
-- pkg/fshash/overlay/parser.go: the classification, and the names of markers read back.
use bons_ci.Base.{
  Str, codes, str_eqb, has_prefix_append, Bool, true, false, not, ◌||◌, [], ◌∷◌, ◌++◌,
  if◌then◌else◌, drop, length, ◌≡◌, refl, ap, arith,
}
use bons_ci.Base.Segments.{Segments, parent, base}
use bons_ci.Fshash.Layer.Chain.{LayerId}
use bons_ci.Fshash.Overlay.Parser.{
  EntryKind, Parser, file_base, trim_prefix, join_name, parse, is_whiteout, is_opaque_marker,
  whiteout_target, regular, whiteout, opaque_dir,
}

abbrev pub kind_of : Bool → Bool → EntryKind
kind_of true w = opaque_dir
kind_of false true = whiteout
kind_of false false = regular

-- The one-purpose tests agree with the classification, and `WhiteoutTarget` is its target, whatever the path,
-- but for an opaque marker, which `WhiteoutTarget` returns unchanged.
pub parse_agrees :
    (p : Parser) (path : Segments) (id : LayerId)
    → ((parse p path id).kind ≡ kind_of (is_opaque_marker p path) (is_whiteout p path))
      × ((parse p path id).raw_path ≡ path)
      × ((parse p path id).target_path
          ≡ (if is_opaque_marker p path then parent path else whiteout_target p path))
unfolding parse is_opaque_marker is_whiteout whiteout_target
parse_agrees p path id = ground arith

base_last : (dir : Segments) (name : Str) → base (dir ++ name ∷ []) ≡ name
base_last [] name = refl
base_last (s ∷ []) name = refl
base_last (s ∷ t ∷ ss) name = base_last (t ∷ ss) name

parent_last : (dir : Segments) (name : Str) → parent (dir ++ name ∷ []) ≡ dir
parent_last [] name = refl
parent_last (s ∷ []) name = refl
parent_last (s ∷ t ∷ ss) name = ap (◌∷◌ s) (parent_last (t ∷ ss) name)

file_base_last : (dir : Segments) (name : Str) → file_base (dir ++ name ∷ []) ≡ name
unfolding file_base
file_base_last [] name = refl
file_base_last (s ∷ ss) name = base_last (s ∷ ss) name

drop_prefix : (p s : Str) → drop (length p) (p ++ s) ≡ s
drop_prefix [] s = refl
drop_prefix (c ∷ p) s = drop_prefix p s

-- A name that a directory can hold.
abbrev pub is_name : Str → Bool
is_name n = not (str_eqb n [] || (str_eqb n (codes ".") || str_eqb n (codes "..")))

join_name_lem :
    (dir : Segments) (name : Str) → is_name name ≡ true → join_name dir name ≡ dir ++ name ∷ []
unfolding join_name
join_name_lem dir name h = ground arith

-- The marker of a name, unless it spells the opaque marker, is parsed as a whiteout of that name in the
-- same directory.
pub parse-whiteout :
    (p : Parser) (dir : Segments) (name : Str) (id : LayerId)
    → is_name name ≡ true
    → str_eqb (p.whiteout_prefix ++ name) p.opaque_marker ≡ false
    → parse p (dir ++ (p.whiteout_prefix ++ name) ∷ []) id ≡ record {
      raw_path = dir ++ (p.whiteout_prefix ++ name) ∷ [];
      target_path = dir ++ name ∷ [];
      kind = whiteout;
      layer_id = id;
    }
unfolding parse trim_prefix
parse-whiteout p dir name id h k =
    rw
      (
        parse,
        file_base_last dir (p.whiteout_prefix ++ name),
        k,
        has_prefix_append p.whiteout_prefix name,
        parent_last dir (p.whiteout_prefix ++ name),
        trim_prefix,
        drop_prefix p.whiteout_prefix name,
        join_name_lem dir name h,
      )
      refl
