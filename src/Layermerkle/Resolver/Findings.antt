-- ===== src/Layermerkle/Resolver/Findings.antt =====
-- pkg/layermerkle/resolver.go: when a layer counts as holding a path.
use bons_ci.Base.{Str, true, false, ◌≡◌, ◌↔◌, arith}
use bons_ci.Base.Segments.{split, parent}
use bons_ci.Layermerkle.Layer.{LayerInfo, whiteout_name, opaque_whiteout_name}
use bons_ci.Layermerkle.Types.{StatResult}
use bons_ci.Layermerkle.Resolver.{Lstat, fs_stat}

-- A layer counts as holding a path exactly if the path exists in it, and neither a whiteout of the
-- path nor an opaque marker in its directory does.
pub fs_stat-present :
    (lstat : Lstat) (info : LayerInfo) (p : Str)
    → (fs_stat lstat info p ≡ StatResult.present) ↔ (
        (lstat info.diff_path (split p) ≡ true)
        × (lstat info.diff_path (whiteout_name (split p)) ≡ false)
        × (lstat info.diff_path (opaque_whiteout_name (parent (split p))) ≡ false))
unfolding fs_stat
fs_stat-present lstat info p = ground arith
