-- ===== src/Dirsync/Handlers.antt =====
-- internal/dirsync/handler.go and actions.go: handlers of entries, as functions on a state of their own, and
-- how they are combined. An error is a value of any type; contexts are left out.
pub mod Laws
use bons_ci.Base.{
  Str, ℕ, ◌+◌, Bool, true, false, not, ◌&&◌, List, [], ◌∷◌, ◌++◌, Option, none, some, if◌then◌else◌,
}
use bons_ci.Dirsync.Types.{
  ExclusivePath, CommonPath, PathKind, Mode, FileInfo, file, dir, link, other, unknown, directory,
  regular, symlink, device, named_pipe, socket, irregular,
}
use bons_ci.Dirsync.Pruning.{PruningSet, add}

-- `IsContentEqual`: the answer and whether there is one.
abbrev pub is_content_equal : CommonPath → Bool × Bool
is_content_equal c = elim c.hash_equal [ none ↦ (false, false) | some b ↦ (b, true) ]

abbrev pub same_mode : Mode → Mode → Bool
same_mode directory directory = true
same_mode regular regular = true
same_mode symlink symlink = true
same_mode device device = true
same_mode named_pipe named_pipe = true
same_mode socket socket = true
same_mode irregular irregular = true
same_mode _ _ = false

abbrev pub modes_differ : Option FileInfo → Option FileInfo → Bool
modes_differ (some l) (some u) = not (same_mode l.mode u.mode)
modes_differ _ _ = false

abbrev pub type_mismatch : CommonPath → Bool
type_mismatch c = modes_differ c.lower_info c.upper_info

-- `ExclusiveHandler` and `CommonHandler`, by the type of their entries.
abbrev pub Handler : (S E X : Type 0) → Type 0
Handler S E X = S → E → S × Option X

module _ {S E X : Type 0} where
  abbrev pub noop_handler : Handler S E X
  noop_handler s e = (s, none)

  -- `ChainExclusiveHandler` and `ChainCommonHandler`
  abbrev pub chain_handlers : List (Handler S E X) → Handler S E X
  chain_handlers [] s e = (s, none)
  chain_handlers (h ∷ hs) s e =
      let r = h s e in
      let rest = chain_handlers hs r.0 e in elim r.1 [ some x ↦ (r.0, some x) | none ↦ rest ]

  -- `MultiExclusiveHandler` and `MultiCommonHandler`: the errors that errors.Join puts together.
  abbrev pub multi_handlers : List (Handler S E X) → S → E → S × List X
  multi_handlers [] s e = (s, [])
  multi_handlers (h ∷ hs) s e =
      let r = h s e in
      let rest = multi_handlers hs r.0 e in elim r.1 [ some x ↦ (rest.0, x ∷ rest.1) | none ↦ rest ]

  -- `PredicateExclusiveHandler` and `PredicateCommonHandler`
  abbrev pub predicate_handler : (E → Bool) → Handler S E X → Handler S E X
  predicate_handler p h s e = if p e then h s e else (s, none)

  -- The calls of a handler for one entry after the other, up to the first error.
  abbrev pub handle_all : Handler S E X → S → List E → S × Option X
  handle_all h s [] = (s, none)
  handle_all h s (e ∷ es) =
      let r = h s e in
      let rest = handle_all h r.0 es in elim r.1 [ some x ↦ (r.0, some x) | none ↦ rest ]

abbrev pub same_kind : PathKind → PathKind → Bool
same_kind unknown unknown = true
same_kind file file = true
same_kind dir dir = true
same_kind link link = true
same_kind other other = true
same_kind _ _ = false

abbrev pub only_collapsed : ExclusivePath → Bool
only_collapsed ep = ep.collapsed

abbrev pub only_kind : PathKind → ExclusivePath → Bool
only_kind k ep = same_kind ep.kind k

abbrev pub only_changed : CommonPath → Bool
only_changed c = let (eq, checked) = is_content_equal c in checked && not eq

abbrev pub only_unchanged : CommonPath → Bool
only_unchanged c = let (eq, checked) = is_content_equal c in checked && eq

abbrev pub only_type_mismatched : CommonPath → Bool
only_type_mismatched c = type_mismatch c

pub record ExclusiveCounts : Type 0 where
  pub files : ℕ
  pub dirs : ℕ
  pub symlinks : ℕ
  pub others : ℕ
  pub collapsed : ℕ

abbrev pub total_exclusive : ExclusiveCounts → ℕ
total_exclusive c = c.files + c.dirs + c.symlinks + c.others

abbrev pub count_kind : ExclusiveCounts → PathKind → ExclusiveCounts
count_kind c file = record c { files = c.files + 1 }
count_kind c dir = record c { dirs = c.dirs + 1 }
count_kind c link = record c { symlinks = c.symlinks + 1 }
count_kind c _ = record c { others = c.others + 1 }

-- `CountingExclusiveHandler`
unfoldable pub count_exclusive : ExclusiveCounts → ExclusivePath → ExclusiveCounts
count_exclusive c ep =
    let d = count_kind c ep.kind in
    if ep.collapsed then record d { collapsed = d.collapsed + 1 } else d

pub record CommonCounts : Type 0 where
  pub total : ℕ
  pub equal : ℕ
  pub changed : ℕ
  pub unchecked : ℕ
  pub mismatch : ℕ

-- `CountingCommonHandler`
unfoldable pub count_common : CommonCounts → CommonPath → CommonCounts
count_common c0 cp =
    let c = record c0 { total = c0.total + 1 } in
    if type_mismatch cp
    then record c { mismatch = c.mismatch + 1 }
    else let (eq, checked) = is_content_equal cp in
      if not checked
      then record c { unchecked = c.unchecked + 1 }
      else if eq
      then record c { equal = c.equal + 1 }
      else record c { changed = c.changed + 1 }

-- `CollectingExclusiveHandler` and `CollectingCommonHandler`, whose state is the list of entries.
abbrev pub collect : {E : Type 0} → List E → E → List E
collect paths e = paths ++ e ∷ []

-- `AccumulatingExclusiveHandler`
abbrev pub accumulate : PruningSet → ExclusivePath → PruningSet
accumulate ps ep = (add ps ep).0
