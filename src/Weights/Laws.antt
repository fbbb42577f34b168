-- ===== src/Weights/Laws.antt =====
-- When there is no problem with official weights (packages/shared-types/src/yolo-weights.ts).
use ikg_studio_model_trainin.Common.{
  ◌≡◌, refl, subst, ◌∙◌, inl, inr, Bool, true, false, ◌&&◌, Option, none, some, String, any, str_eq,
  eq_iff, arith, Bool-cases,
}
use ikg_studio_model_trainin.Weights.{
  YoloTask, YoloGeneration, yolo_generations, find_yolo_generation, has_size, has_task, is_unchosen,
  problem_of, official_weights_problem,
}

-- Some generation of the table has the id, the size and the task.
abbrev pub is_published : String → String → YoloTask → Bool
is_published v size task =
    any (λ g. str_eq g.id v && has_size g size && has_task g task) yolo_generations

abbrev pub is_none : Option String → Bool
is_none none = true
is_none (some s) = false

problem_of-published :
    (v size : String) (task : YoloTask) (o : Option YoloGeneration)
    → is_none (problem_of v size task o)
      ≡ elim o [ none ↦ false | some g ↦ has_size g size && has_task g task ]
unfolding problem_of
problem_of-published v size task none = refl
problem_of-published v size task (some g) = elim (Bool-cases (has_size g size)) [
  | inr no_size ↦ rw no_size refl
  | inl size_there ↦ elim (Bool-cases (has_task g task)) [
    | inr no_task ↦ rw size_there (rw no_task refl)
    | inl task_there ↦ rw size_there (rw task_there refl)
  ]
]

by_id : (v w : String) (P : String → Type 0) → P v → str_eq v w ≡ true → P w
by_id v w P p h = subst P ((eq_iff v w).0 h) p

-- Looking a generation up and then testing it is testing the whole table.
abbrev Agreeing : String → String → YoloTask → Type 0
Agreeing v size task =
    elim (find_yolo_generation v) [ none ↦ false | some g ↦ has_size g size && has_task g task ]
    ≡ is_published v size task

found-published : (v size : String) (task : YoloTask) → Agreeing v size task
unfolding find_yolo_generation
found-published v size task = elim (Bool-cases (str_eq "v8" v)) [
  | inl is_v8 ↦ by_id "v8" v (λ w. Agreeing w size task) (ground arith) is_v8
  | inr not_v8 ↦ elim (Bool-cases (str_eq "v9" v)) [
    | inl is_v9 ↦ by_id "v9" v (λ w. Agreeing w size task) (ground arith) is_v9
    | inr not_v9 ↦ elim (Bool-cases (str_eq "v10" v)) [
      | inl is_v10 ↦ by_id "v10" v (λ w. Agreeing w size task) (ground arith) is_v10
      | inr not_v10 ↦ elim (Bool-cases (str_eq "v11" v)) [
        | inl is_v11 ↦ by_id "v11" v (λ w. Agreeing w size task) (ground arith) is_v11
        | inr not_v11 ↦ elim (Bool-cases (str_eq "v12" v)) [
          | inl is_v12 ↦ by_id "v12" v (λ w. Agreeing w size task) (ground arith) is_v12
          | inr not_v12 ↦ elim (Bool-cases (str_eq "v26" v)) [
            | inl is_v26 ↦ by_id "v26" v (λ w. Agreeing w size task) (ground arith) is_v26
            | inr not_v26 ↦
                rw not_v8 (rw not_v9 (rw not_v10 (rw not_v11 (rw not_v12 (rw not_v26 (refl))))))
          ]
        ]
      ]
    ]
  ]
]

-- For a generation and a size that are chosen there is no problem exactly where some generation of
-- the table has that id, publishes that size and publishes weights for the task.
pub no_problem_published :
    (v size : String) (task : YoloTask)
    → is_unchosen (some v) ≡ false
    → is_unchosen (some size) ≡ false
    → is_none (official_weights_problem (some v) (some size) task) ≡ is_published v size task
unfolding official_weights_problem
no_problem_published v size task chosen sized = rw chosen (
    rw sized
      (problem_of-published v size task (find_yolo_generation v) ∙ found-published v size task))
