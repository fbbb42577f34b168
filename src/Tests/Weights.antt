-- ===== src/Tests/Weights.antt =====
-- Official weights at concrete generations.
use ikg_studio_model_trainin.Common.{◌≡◌, refl, [], some}
use ikg_studio_model_trainin.Weights.{
  YoloTask, able, official_weights_problem, official_weight_name,
}
use ikg_studio_model_trainin.Weights.Laws.{is_none, is_published, no_problem_published}

no_problem_published_example :
    is_none (official_weights_problem (some "v12") (some "n") YoloTask.obb)
    ≡ is_published "v12" "n" YoloTask.obb
no_problem_published_example = no_problem_published "v12" "n" YoloTask.obb refl refl

name_of_a_file : official_weight_name "v11" "n" YoloTask.obb ≡ "yolo11n-obb.pt"
unfolding official_weight_name
name_of_a_file = refl

-- No generation is named for a task that none has.
nobody_segments : able YoloTask.segment ≡ []
nobody_segments = refl
