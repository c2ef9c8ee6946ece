-- ===== src/ZoxFs/Paths.antt =====
-- `zox_fs_pwd_s` of lab7/src/zox-fs/zox-fs.c, `to_absolute_path` and `split_absolute_path` of
-- lab7/src/zox-fs/cluster.c.
use spovm4_labs.Base.{
  ℕ, zero, suc, Option, none, some, List, [], ◌∷◌, ◌++◌, ◌==◌, if◌then◌else◌, length, drop,
  minus_one,
}
use spovm4_labs.Base.Text.{Text, c_string}
use spovm4_labs.ZoxFs.Context.{Cmd, pure, undefined, ◌>>=◌, cluster}
use spovm4_labs.ZoxFs.Lookup.{copy_name, is_absolute}

-- `tree_path`, the root first: the names from `wd` up, in front of those below it. The loop makes at
-- most as many rounds as the first argument says.
unfoldable pub tree_path : ℕ → ℕ → List Text → Cmd (List Text)
tree_path zero wd below = do c ← cluster wd; pure (c.name ∷ below)
tree_path (suc k) wd below = do
  c ← cluster wd
  if c.parent == minus_one then pure (c.name ∷ below) else tree_path k c.parent (c.name ∷ below)

unfoldable pub join : List Text → Text
join [] = []
join (n ∷ []) = n
join (n ∷ m ∷ ns) = n ++ b'/' ∷ join (m ∷ ns)

-- No slash follows the first name, which is the root's.
unfoldable pub full_name : List Text → Text
unfolding join
full_name [] = []
full_name (root ∷ ns) = root ++ join ns

-- `path_size` goes from 1 to at most 1001
unfoldable pub zox_fs_pwd_s : Cmd Text
zox_fs_pwd_s c = (do names ← tree_path 1000 c.working_directory []; pure (full_name names)) c

-- the new contents of `path`
unfoldable pub to_absolute_path : Text → Cmd Text
to_absolute_path path = if is_absolute path then pure path else from_wd
  where
    from_wd : Cmd Text
    from_wd c =
        (do
          wd_name ← zox_fs_pwd_s
          wd ← cluster c.working_directory
          copy_name (wd_name ++ ((if wd.offset == 0 then [] else b'/' ∷ []) ++ path)))
          c

-- a text cut behind its last slash
unfoldable pub cut_last_slash : Text → Option (Text × Text)
cut_last_slash [] = none
cut_last_slash (c ∷ s) = elim (cut_last_slash s) [
  | some (d, n) ↦ some (c ∷ d, n)
  | none ↦ if c == b'/' then some (c ∷ [], s) else none
]

-- The text then held by the buffer `directory`, into which no NUL is written, and `subnode_name`.
-- `stale` is what lies in memory from `directory` on. With no slash `strchr` is given NULL + 1.
unfoldable pub split_absolute_path : List ℕ → Text → Cmd (Text × Text)
unfolding cut_last_slash
split_absolute_path stale path = elim (cut_last_slash path) [
  | none ↦ undefined
  | some (d, n) ↦ pure (c_string (d ++ drop (length d) stale), n)
]
