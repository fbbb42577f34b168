-- ===== src/Weights.antt =====
-- Which official weights exist (packages/shared-types/src/yolo-weights.ts).
pub mod Laws
use Prim.Native.Char.{code}
use Prim.Native.String
use ikg_studio_model_trainin.Common.{
  ℕ, Bool, true, false, not, ◌||◌, List, [], ◌∷◌, Option, none, some, String, any, select,
  take_first, str_eq, ◌==◌, if◌then◌else◌,
}

pub data YoloTask : Type 0 where
  detect obb segment pose classify : YoloTask

abbrev task_index : YoloTask → ℕ
task_index detect = 0
task_index obb = 1
task_index segment = 2
task_index pose = 3
task_index classify = 4

abbrev pub task_name : YoloTask → String
task_name detect = "DETECT"
task_name obb = "OBB"
task_name segment = "SEGMENT"
task_name pose = "POSE"
task_name classify = "CLASSIFY"

-- `YOLO_TASK_SUFFIX`.
unfoldable pub yolo_task_suffix : YoloTask → String
yolo_task_suffix detect = ""
yolo_task_suffix obb = "-obb"
yolo_task_suffix segment = "-seg"
yolo_task_suffix pose = "-pose"
yolo_task_suffix classify = "-cls"

pub record YoloGeneration : Type 0 where
  pub id : String
  pub label : String
  pub keep_v : Bool
  pub sizes : List String
  pub tasks : List YoloTask

abbrev generation : String → String → Bool → List String → List YoloTask → YoloGeneration
generation i l v s t = record { id = i; label = l; keep_v = v; sizes = s; tasks = t }

abbrev usual_sizes : List String
usual_sizes = "n" ∷ "s" ∷ "m" ∷ "l" ∷ "x" ∷ []

-- `YOLO_GENERATIONS`.
abbrev pub yolo_generations : List YoloGeneration
yolo_generations =
    generation "v8" "YOLOv8" true usual_sizes (detect ∷ obb ∷ [])
    ∷ generation "v9" "YOLOv9" true ("t" ∷ "s" ∷ "m" ∷ "c" ∷ "e" ∷ []) (detect ∷ [])
    ∷ generation "v10" "YOLOv10" true ("n" ∷ "s" ∷ "m" ∷ "b" ∷ "l" ∷ "x" ∷ []) (detect ∷ [])
    ∷ generation "v11" "YOLO11" false usual_sizes (detect ∷ obb ∷ [])
    ∷ generation "v12" "YOLO12" false usual_sizes (detect ∷ [])
    ∷ generation "v26" "YOLO26" false usual_sizes (detect ∷ obb ∷ [])
    ∷ []

-- `findYoloGeneration`.
unfoldable pub find_yolo_generation : String → Option YoloGeneration
find_yolo_generation v = take_first (λ g. str_eq g.id v) yolo_generations

-- `sizes.includes(size)` and `tasks.includes(task)`.
abbrev pub has_size : YoloGeneration → String → Bool
has_size g size = any (λ s. str_eq s size) g.sizes

abbrev pub has_task : YoloGeneration → YoloTask → Bool
has_task g task = any (λ t. task_index t == task_index task) g.tasks

-- `!versionId`: null or the empty string.
abbrev pub is_unchosen : Option String → Bool
is_unchosen none = true
is_unchosen (some String.[]) = true
is_unchosen (some (String.◌∷◌ c s)) = false

joined : List String → String
joined [] = ""
joined (s ∷ []) = s
joined (s ∷ t ∷ more) = String.◌++◌ s (String.◌++◌ ", " (joined (t ∷ more)))

labels : List YoloGeneration → List String
labels [] = []
labels (g ∷ gs) = g.label ∷ labels gs

-- The generations that a message about a task names.
abbrev pub able : YoloTask → List YoloGeneration
able task = select (λ g. has_task g task) yolo_generations

unfoldable pub problem_of : String → String → YoloTask → Option YoloGeneration → Option String
unfolding joined labels
problem_of v size task none =
    some (String.◌++◌ v " is not a YOLO generation this platform trains from.")
problem_of v size task (some g) =
    if not (has_size g size)
    then some (
        String.◌++◌ g.label (
          String.◌++◌ " has no \"" (
            String.◌++◌ size
              (String.◌++◌ "\" scale — it publishes " (String.◌++◌ (joined g.sizes) ".")))))
    else if not (has_task g task)
    then some (
        String.◌++◌ "Ultralytics publishes no official " (
          String.◌++◌ (task_name task) (
            String.◌++◌ " weights for " (
              String.◌++◌ g.label (
                String.◌++◌ ". Pick " (
                  String.◌++◌ (joined (labels (able task)))
                    ", or start from a registered model instead."))))))
    else none

problem_chosen : Option String → Option String → YoloTask → Option String
unfolding problem_of find_yolo_generation
problem_chosen (some v) (some size) task = problem_of v size task (find_yolo_generation v)
problem_chosen _ _ task = none

-- `officialWeightsProblem`.
unfoldable pub official_weights_problem : Option String → Option String → YoloTask → Option String
unfolding problem_chosen
official_weights_problem v size task =
    if is_unchosen v || is_unchosen size then none else problem_chosen v size task

strip_v : String → String
strip_v String.[] = String.[]
strip_v (String.◌∷◌ c s) = if code c == b'v' then s else String.◌∷◌ c s

keeps_v : Option YoloGeneration → Bool
keeps_v none = true
keeps_v (some g) = g.keep_v

-- `officialWeightName`.
unfoldable pub official_weight_name : String → String → YoloTask → String
unfolding strip_v keeps_v find_yolo_generation yolo_task_suffix
official_weight_name v size task =
    let version = if keeps_v (find_yolo_generation v) then v else strip_v v in
    String.◌++◌ "yolo"
      (String.◌++◌ version (String.◌++◌ size (String.◌++◌ (yolo_task_suffix task) ".pt")))
