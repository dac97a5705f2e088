-- ===== src/Tests/Configs.antt =====
-- Parameters of a configuration, and one with a task that is not known.
use c_dedup.Base.{ℕ, ◌≡◌, refl, none, some, [], ◌∷◌}
use c_dedup.Config.{pos, new_config, Param, set_params, parse_argument, task_write}
use c_dedup.Config.Parse.{set_params-config_of, parse_argument-illegal}

abbrev size : ℕ → Param
size n = record { name = "Size"; valuestring = none; valueint = pos n }

abbrev task : Param
task = record { name = "Task"; valuestring = some "write"; valueint = pos 0 }

abbrev wrong_task : Param
wrong_task = record { name = "Task"; valuestring = some "wrong"; valueint = pos 0 }

abbrev comment : Param
comment = record { name = "Comment"; valuestring = none; valueint = pos 3 }

set_params-config_of_example :
    set_params (size 8192 ∷ task ∷ comment ∷ size 16384 ∷ []) new_config
    ≡ some (record new_config { task_type = task_write; avg_chunk_size = pos 16384 })
set_params-config_of_example =
    set_params-config_of (size 8192 ∷ task ∷ comment ∷ size 16384 ∷ []) new_config

parse_argument-illegal_example :
    parse_argument (λ source. some (task ∷ wrong_task ∷ size 8192 ∷ [])) (123 ∷ 125 ∷ []) new_config
    ≡ none
parse_argument-illegal_example =
    parse_argument-illegal (λ source. some (task ∷ wrong_task ∷ size 8192 ∷ [])) (123 ∷ 125 ∷ [])
      (task ∷ []) (size 8192 ∷ []) wrong_task new_config refl refl
