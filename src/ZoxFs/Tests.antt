-- ===== src/ZoxFs/Tests.antt =====
-- Runs of the file system on a small tree.
use spovm4_labs.Base.{ℕ, Bool, true, Option, none, some, List, [], ◌∷◌}
use spovm4_labs.Base.Text.{Text, codes}
use spovm4_labs.ZoxFs.Cluster.{Cluster}
use spovm4_labs.ZoxFs.Context.{Code, Write, Context, Run, done, pure, ◌>>=◌, ◌>>◌}
use spovm4_labs.ZoxFs.Create.{zox_fs_mkdir, zox_fs_cd}
use spovm4_labs.ZoxFs.Init.{format}
use spovm4_labs.ZoxFs.Load.{zox_fs_load_file, zox_fs_extract_file}
use spovm4_labs.ZoxFs.Move.{zox_fs_cp}
use spovm4_labs.ZoxFs.Paths.{zox_fs_pwd_s}
use spovm4_labs.ZoxFs.Remove.{zox_fs_rm_s}
use spovm4_labs.ZoxFs.Size.{zox_fs_free, zox_fs_ls}

abbrev pub garbage : ℕ → Cluster
garbage i = record { type = 0; parent = 7; offset = 9; name = []; filler = λ a. 255 }

abbrev pub fresh : Context
fresh = record { fs_file = []; working_directory = 0; fs = format garbage }

abbrev pub disk : List Write → Write → Bool
disk ws w = true

-- what a run returns
abbrev result : {A : Type 0} → Run A → Option A
result (done a c) = some a
result _ = none

abbrev script : Option (List ℕ × Text × (Code × List ℕ) × ℕ × Code × Code)
script = result (
    (do
      zox_fs_mkdir disk (codes "/tmp")
      zox_fs_mkdir disk (codes "mike")
      zox_fs_cd (codes "mike")
      zox_fs_mkdir disk (codes "spovm")
      c ← zox_fs_mkdir disk (codes "spovm")
      zox_fs_cd (codes "/mike/spovm")
      zox_fs_load_file disk (some (1 ∷ 2 ∷ 3 ∷ [])) (codes "/tmp/f")
      zox_fs_cp disk (0 ∷ 0 ∷ 0 ∷ 0 ∷ 0 ∷ 0 ∷ 0 ∷ 0 ∷ 0 ∷ 0 ∷ 0 ∷ []) (codes "/tmp/f") (codes "g")
      out ← zox_fs_extract_file (codes "g") true
      (c2, _) ← zox_fs_rm_s disk (codes "/tmp")
      wd ← zox_fs_pwd_s
      l ← zox_fs_ls
      n ← zox_fs_free
      pure (l, wd, out, n, c, c2))
      fresh)
