-- ===== src/Loop/Postgres.antt =====
-- internal/application/loop/service.go: PostgresRepository, with its statements and the JSON encodings
-- as parameters over the contents `W` of the database.
use keelmesh.Prelude.{
  String, Map, Option, none, some, List, [], ◌∷◌, ℤ, Result, ok, err, Error, wrap,
}
use keelmesh.Loop.Types.{Step, Run, RunRepository}

-- A row of `keelmesh_loop_runs`, but for its key and its date; metadata and steps are JSON texts.
pub record RunRow : Type 0 where
  pub task_id : String
  pub channel_id : String
  pub target_id : String
  pub input : String
  pub metadata : String
  pub state : String
  pub current_step_id : String
  pub iteration : ℤ
  pub output : String
  pub error : String
  pub steps : String

pub record RunCodec : Type 0 where
  pub marshal_metadata : Map String → Result String
  pub unmarshal_metadata : String → Result (Map String)
  pub marshal_steps : List Step → Result String
  pub unmarshal_steps : String → Result (List Step)

-- A query for no row answers `ok none`.
pub record RunSql (W : Type 0) : Type 0 where
  pub select_run : W → String → Result (Option RunRow)
  pub upsert_run : W → String → RunRow → W × Option Error

unfoldable pub row_of_run : String → String → Run → RunRow
row_of_run metadata steps run = record {
  task_id = run.task_id;
  channel_id = run.channel_id;
  target_id = run.target_id;
  input = run.input;
  metadata = metadata;
  state = run.state;
  current_step_id = run.current_step_id;
  iteration = run.iteration;
  output = run.output;
  error = run.error;
  steps = steps;
}

unfoldable pub run_of_row : Map String → List Step → RunRow → Run
run_of_row metadata steps row = record {
  task_id = row.task_id;
  channel_id = row.channel_id;
  target_id = row.target_id;
  input = row.input;
  metadata = metadata;
  state = row.state;
  current_step_id = row.current_step_id;
  iteration = row.iteration;
  output = row.output;
  error = row.error;
  steps = steps;
}

module _ {W : Type 0} (codec : RunCodec) (sql : RunSql W) where
  unfoldable pub get : W → String → Result (Option Run)
  unfolding run_of_row
  get w id = elim (sql.select_run w id) [
    | err e ↦ err (wrap "loopcore: get run %q: %w" (id ∷ []) e)
    | ok none ↦ ok none
    | ok (some row) ↦ elim (codec.unmarshal_metadata row.metadata) [
      | err e ↦ err (wrap "loopcore: decode run metadata: %w" [] e)
      | ok metadata ↦ elim (codec.unmarshal_steps row.steps) [
        | err e ↦ err (wrap "loopcore: decode run steps: %w" [] e)
        | ok steps ↦ ok (some (run_of_row metadata steps row))
      ]
    ]
  ]

  unfoldable pub put : W → String → Run → W × Option Error
  unfolding row_of_run
  put w id run = elim (codec.marshal_metadata run.metadata) [
    | err e ↦ (w, some (wrap "loopcore: encode run metadata: %w" [] e))
    | ok metadata ↦ elim (codec.marshal_steps run.steps) [
      | err e ↦ (w, some (wrap "loopcore: encode run steps: %w" [] e))
      | ok steps ↦
          let (w', failure) = sql.upsert_run w id (row_of_run metadata steps run) in
          elim failure [
            | none ↦ (w', none)
            | some e ↦ (w', some (wrap "loopcore: persist run %q: %w" (id ∷ []) e))
          ]
    ]
  ]

  -- `PostgresRepository`, as the repository of the service.
  unfoldable pub postgres_repository : RunRepository W
  unfolding get put
  postgres_repository = record { get = get; put = put }
