-- ===== src/Tests/Deletions.antt =====
-- The older version of a repository of two is deleted.
use c_dedup.Base.{◌≡◌, some, arith, erase, nat_eq}
use c_dedup.Store.{Store}
use c_dedup.Metadata.{fp_eq}
use c_dedup.Delete.{task_delete}
use c_dedup.Delete.Kept.{IsKept}
use c_dedup.Delete.Task.{task_delete-IsKept}
use c_dedup.Tests.Toy.{toy_sha1, toy_sha1-IsSha1}
use c_dedup.Tests.Kept.{versions, store, store-IsKept}

task_delete-IsKept_example :
    (s' : Store) × (task_delete 0 store ≡ some s') × IsKept toy_sha1 (erase 0 versions) s'
task_delete-IsKept_example =
    task_delete-IsKept toy_sha1 0 versions store toy_sha1-IsSha1 store-IsKept (omega arith)
