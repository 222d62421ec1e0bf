-- ===== src/Pipelines/Retries.antt =====
-- `_run_node`: a node's attempts. Clocks and durations are not modelled; lengths of time are whole
-- numbers of milliseconds. What a handler does with the context is a parameter.
use mathlib.Core.Option
use flavor_rag.Prelude.Optional.{◌>>=◌}
use flavor_rag.Chunker.Typed.Parts.{decimal_from}
use flavor_rag.Pipelines.Nodes.{PipelineNode, Setting, json_null, truth, number, text, nested}
use Prim.Native.Nat.{ℕ, min, suc, max}
use flavor_rag.Prelude.Int.{ℤ, pos, negsuc}
use flavor_rag.Prelude.{
  List, Bool, Option, if◌then◌else◌, ◌∷◌, ◌+◌, ◌==◌, [], some, in_list, none, ◌++◌, is_nil, take,
  ◌*◌, ◌^◌, ◌-◌, zero,
}
use flavor_rag.Prelude.Dict.{Dict, get}
use Prim.Native.String.{String}

-- The text of an error is a list of code points.
pub record NodeResult : Type 0 where
  pub node_id : String
  pub node_type : String
  pub status : String
  pub message : List ℕ
  pub error_message : List ℕ

-- Of the context the engine reads the settings and the number of chunks.
pub record Context (C : Type 0) : Type 0 where
  pub settings : Dict Setting
  pub chunk_count : ℕ
  pub content : C

-- How one call of a handler ends: with a result, by the time limit, or by an exception of the text.
pub data Attempt : Type 0 where
  finished : NodeResult → Attempt
  timed_out : Attempt
  raised : List ℕ → Attempt

-- What `int` and `float` make of a text, and what the handlers do.
pub record Handlers (C : Type 0) : Type 0 where
  pub int_of_text : String → Option ℤ
  pub float_of_text : String → Option ℤ
  pub call_handler : String → Context C → Attempt × Context C

-- `_DEFAULT_RETRIES`; of an unknown node type the source raises KeyError, and the validation refuses
-- such a node before anything runs.
abbrev pub default_retries : String → ℕ
default_retries node_type =
    if in_list node_type ("fetcher" ∷ "enricher" ∷ "enhancer" ∷ [])
    then 2
    else if node_type == "parser"
    then 1
    else 0

-- `int(value)` or `float(value)`; `none` is an exception.
abbrev pub number_of : (String → Option ℤ) → Setting → Option ℤ
number_of of_text json_null = none
number_of of_text (truth b) = some (pos (if b then 1 else 0))
number_of of_text (number z) = some z
number_of of_text (text s) = of_text s
number_of of_text (nested filled) = none

-- `max(0, z)`
abbrev pub at_least_zero : ℤ → ℕ
at_least_zero (pos n) = n
at_least_zero (negsuc n) = 0

-- `settings.get(key, default)` as a number that is not negative.
abbrev pub setting_or : (String → Option ℤ) → Dict Setting → String → ℕ → Option ℕ
setting_or of_text settings key default = elim (get settings key) [
  | none ↦ some default
  | some v ↦ Option.map at_least_zero (number_of of_text v)
]

-- The limits of `_run_node`.
pub record Limits : Type 0 where
  pub max_retries : ℕ
  pub timeout_ms : ℕ
  pub backoff_ms : ℕ

abbrev pub settings_of : PipelineNode → Dict Setting
settings_of n = elim n.settings_json [ none ↦ [] | some d ↦ d ]

-- `str(n)`
abbrev pub decimal : ℕ → List ℕ
decimal n = decimal_from (n + 1) n

-- "节点超时（…ms）"
abbrev pub timeout_message : ℕ → List ℕ
timeout_message ms =
    (33410 ∷ 28857 ∷ 36229 ∷ 26102 ∷ 65288 ∷ []) ++ (decimal ms ++ (109 ∷ 115 ∷ 65289 ∷ []))

-- "节点执行失败"
abbrev pub failure_message : List ℕ
failure_message = 33410 ∷ 28857 ∷ 25191 ∷ 34892 ∷ 22833 ∷ 36133 ∷ []

abbrev pub or_text : List ℕ → List ℕ → List ℕ
or_text s t = if is_nil s then t else s

-- The outcome of `_run_node`, with the time slept between the attempts.
pub record NodeRun (C : Type 0) : Type 0 where
  pub result : NodeResult
  pub attempts : ℕ
  pub context : Context C
  pub slept_ms : ℕ

abbrev pub slept_before : {C : Type 0} → ℕ → NodeRun C → NodeRun C
slept_before ms r = record r { slept_ms = ms + r.slept_ms }

abbrev pub is_error : NodeResult → Bool
is_error r = r.status == "error"

abbrev pub error_result : List ℕ → NodeResult
error_result m = record {
  node_id = "";
  node_type = "";
  status = "error";
  message = [];
  error_message = take 2000 m;
}

module _ {C : Type 0} (handlers : Handlers C) where
  unfoldable pub limits_of : PipelineNode → Option Limits
  unfolding get
  limits_of n =
      let settings = settings_of n in
      do
        retries ←
            setting_or handlers.int_of_text settings "max_retries" (default_retries n.node_type)
        timeout ← setting_or handlers.float_of_text settings "timeout_ms" 120000
        backoff ← setting_or handlers.int_of_text settings "retry_backoff_ms" 250
        some (record {
          max_retries = min 5 retries;
          timeout_ms = min 600000 (max 1000 timeout);
          backoff_ms = min 10000 backoff;
        })

  -- `last_error` after a call that does not succeed.
  abbrev pub error_text : Limits → Attempt → List ℕ
  error_text l (finished r) = or_text r.error_message (or_text r.message failure_message)
  error_text l timed_out = timeout_message l.timeout_ms
  error_text l (raised m) = m

  abbrev pub success_of : Attempt → Option NodeResult
  success_of (finished r) = if is_error r then none else some r
  success_of timed_out = none
  success_of (raised m) = none

  -- The loop over the attempts; the first number is how many are left behind `attempt`.
  unfoldable pub attempts_from : Limits → String → ℕ → ℕ → Context C → NodeRun C
  attempts_from l node_type zero attempt context =
      let (outcome, after) = handlers.call_handler node_type context in
      elim (success_of outcome) [
        | some r ↦ record { result = r; attempts = attempt; context = after; slept_ms = 0 }
        | none ↦ record {
          result = error_result (error_text l outcome);
          attempts = attempt;
          context = after;
          slept_ms = 0;
        }
      ]
  attempts_from l node_type (suc left) attempt context =
      let (outcome, after) = handlers.call_handler node_type context in
      elim (success_of outcome) [
        | some r ↦ record { result = r; attempts = attempt; context = after; slept_ms = 0 }
        | none ↦
            slept_before (l.backoff_ms * 2 ^ (attempt - 1))
              (attempts_from l node_type left (attempt + 1) after)
      ]

  -- `none` is the exception of a setting that is no number.
  unfoldable pub run_node : PipelineNode → Context C → Option (NodeRun C)
  unfolding limits_of attempts_from
  run_node n context =
      Option.map (λ l. attempts_from l n.node_type l.max_retries 1 context) (limits_of n)
