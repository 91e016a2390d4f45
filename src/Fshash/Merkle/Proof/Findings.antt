-- ===== src/Fshash/Merkle/Proof/Findings.antt =====
-- pkg/fshash/merkle/proof.go: proofs that do not verify.
use bons_ci.Base.{Str, codes, []}
use bons_ci.Fshash.Merkle.Tree.{Tree, new_tree, insert}
use bons_ci.Fshash.Merkle.Proof.{Proof}

-- The tree of three files.
unfoldable pub three : Str → Str → Str → Tree
unfolding new_tree insert
three a b c =
    insert (insert (insert (new_tree []) (codes "a") a []) (codes "b") b []) (codes "c") c []
