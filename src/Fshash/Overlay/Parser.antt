-- ===== src/Fshash/Overlay/Parser.antt =====
-- pkg/fshash/overlay/parser.go, types.go and options.go. A path is absolute and clean, as the kernel
-- reports it: the list of its names below the root, which is the empty list.
pub mod Laws
use bons_ci.Base.{
  Str, codes, str_eqb, has_prefix, ℕ, Bool, true, false, not, ◌&&◌, ◌||◌, List, [], ◌∷◌, ◌++◌,
  Option, none, some, if◌then◌else◌, drop, length,
}
use bons_ci.Base.Segments.{Segments, parent, base}
use bons_ci.Fshash.Layer.Chain.{LayerId}

pub data EntryKind : Type 0 where
  regular whiteout opaque_dir copy_up : EntryKind

pub record OverlayEntry : Type 0 where
  pub raw_path : Segments
  pub target_path : Segments
  pub kind : EntryKind
  pub layer_id : LayerId

pub record Parser : Type 0 where
  pub whiteout_prefix : Str
  pub opaque_marker : Str

abbrev pub default_whiteout_prefix : Str
default_whiteout_prefix = codes ".wh."

abbrev pub default_opaque_marker : Str
default_opaque_marker = codes ".wh..wh..opq"

-- The options, in the order they are applied.
pub data ParserOption : Type 0 where
  with_whiteout_prefix with_opaque_marker : Str → ParserOption

abbrev pub apply_option : ParserOption → Parser → Parser
apply_option (with_whiteout_prefix x) p = record p { whiteout_prefix = x }
apply_option (with_opaque_marker m) p = record p { opaque_marker = m }

abbrev pub apply_options : List ParserOption → Parser → Parser
apply_options [] p = p
apply_options (o ∷ os) p = apply_options os (apply_option o p)

abbrev pub default_parser : Parser
default_parser = record {
  whiteout_prefix = default_whiteout_prefix;
  opaque_marker = default_opaque_marker;
}

unfoldable pub new_parser : List ParserOption → Parser
new_parser os = apply_options os default_parser

-- filepath.Base of such a path: the root's is the slash.
unfoldable pub file_base : Segments → Str
file_base [] = codes "/"
file_base (s ∷ ss) = base (s ∷ ss)

-- strings.TrimPrefix
unfoldable pub trim_prefix : Str → Str → Str
trim_prefix s p = if has_prefix s p then drop (length p) s else s

-- filepath.Join of a directory and a name, which drops an empty name and a dot, and goes up for two dots.
unfoldable pub join_name : Segments → Str → Segments
join_name dir name =
    if str_eqb name [] || str_eqb name (codes ".")
    then dir
    else if str_eqb name (codes "..")
    then parent dir
    else dir ++ name ∷ []

unfoldable pub parse : Parser → Segments → LayerId → OverlayEntry
unfolding file_base trim_prefix join_name
parse p path id =
    let b = file_base path in
    let dir = parent path in
    if str_eqb b p.opaque_marker
    then record { raw_path = path; target_path = dir; kind = opaque_dir; layer_id = id }
    else if has_prefix b p.whiteout_prefix
    then record {
      raw_path = path;
      target_path = join_name dir (trim_prefix b p.whiteout_prefix);
      kind = whiteout;
      layer_id = id;
    }
    else record { raw_path = path; target_path = path; kind = regular; layer_id = id }

unfoldable pub is_whiteout : Parser → Segments → Bool
unfolding file_base
is_whiteout p path =
    has_prefix (file_base path) p.whiteout_prefix && not (str_eqb (file_base path) p.opaque_marker)

unfoldable pub is_opaque_marker : Parser → Segments → Bool
unfolding file_base
is_opaque_marker p path = str_eqb (file_base path) p.opaque_marker

unfoldable pub whiteout_target : Parser → Segments → Segments
unfolding is_whiteout file_base trim_prefix join_name
whiteout_target p path =
    if is_whiteout p path
    then join_name (parent path) (trim_prefix (file_base path) p.whiteout_prefix)
    else path
