-- ===== src/Dirsync/Types.antt =====
-- internal/dirsync/types.go: the entries that the walker emits.
use bons_ci.Base.{Str, ℕ, Bool, true, false, Option}

-- What `fs.FileMode.Type()` can be; `regular` is the empty type.
pub data Mode : Type 0 where
  directory regular symlink device named_pipe socket irregular : Mode

-- Of an `fs.FileInfo` the walker and the handlers read the type; the size is kept with it.
pub record FileInfo : Type 0 where
  pub mode : Mode
  pub size : ℕ

pub data PathKind : Type 0 where
  unknown file dir link other : PathKind

-- A path found only in the lower tree. A collapsed entry stands for its whole subtree.
pub record ExclusivePath : Type 0 where
  pub path : Str
  pub kind : PathKind
  pub info : FileInfo
  pub collapsed : Bool

-- A path present in both trees; `hash_equal` is `none` until the contents were compared.
pub record CommonPath : Type 0 where
  pub path : Str
  pub kind : PathKind
  pub lower_info : Option FileInfo
  pub upper_info : Option FileInfo
  pub hash_equal : Option Bool

abbrev pub is_dir : FileInfo → Bool
is_dir i = elim i.mode [ directory ↦ true | _ ↦ false ]

abbrev pub path_kind_of : FileInfo → PathKind
path_kind_of i = elim i.mode [ directory ↦ dir | regular ↦ file | symlink ↦ link | _ ↦ other ]
