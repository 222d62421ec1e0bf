-- ===== src/Pipelines/Bounds.antt =====
-- How long `_run_node` tries.
use flavor_rag.Pipelines.Nodes.{PipelineNode}
use flavor_rag.Prelude.{
  arith, ◌*◌, String, zero, ◌≡◌, true, some, ◌^◌, length, false, Option-cases, inr, Bool-cases, inl,
  length-take, ◌-◌, subst, refl, Option, none, ◌⊎◌,
}
use flavor_rag.Pipelines.Retries.{
  timed_out, Handlers, NodeRun, Attempt, attempts_from, NodeResult, Limits, is_error, success_of,
  Context, finished, raised, error_text, limits_of, run_node, settings_of, setting_or,
  default_retries,
}
use Prim.Native.Nat.{ℕ, suc, ◌≤◌, ◌+◌, min, max}
use flavor_rag.Prelude.Optional.{◌>>=◌}
use native.Mathlib.Numerals.{unary_clauses}

-- The sleeps before `left` further attempts, of which the first is of length `ms`.
abbrev pauses : ℕ → ℕ → ℕ
pauses zero ms = 0
pauses (suc left) ms = ms + pauses left (2 * ms)

pauses-le : (left ms : ℕ) → left ≤ 5 → ms ≤ 10000 → pauses left ms ≤ 310000
pauses-le zero ms h k = omega arith
pauses-le (suc zero) ms h k = omega arith
pauses-le (suc (suc zero)) ms h k = omega arith
pauses-le (suc (suc (suc zero))) ms h k = omega arith
pauses-le (suc (suc (suc (suc zero)))) ms h k = omega arith
pauses-le (suc (suc (suc (suc (suc zero))))) ms h k = omega arith
pauses-le (suc (suc (suc (suc (suc (suc left)))))) ms h k = absurd (omega arith)

-- What `_run_node` returns, when `left` attempts may follow the one of the number `attempt`.
pub record Tried {C : Type 0} (pause left attempt : ℕ) (run : NodeRun C) : Type 0 where
  pub first : attempt ≤ run.attempts
  pub last : run.attempts ≤ attempt + left
  pub slept : run.slept_ms ≤ pauses left pause
  pub exhausted : is_error run.result ≡ true → run.attempts ≡ attempt + left
  pub cut : is_error run.result ≡ true → length run.result.error_message ≤ 2000

doubled : (b a : ℕ) → 1 ≤ a → b * 2 ^ (a + 1 - 1) ≡ 2 * (b * 2 ^ (a - 1))
doubled b zero h = absurd (omega arith)
doubled b (suc k) h =
    let e : suc k + 1 - 1 ≡ suc k = omega arith in
    let f : suc k - 1 ≡ k = omega arith in rw (e, f) (simp unary_clauses (grind arith))

clamped-bounds :
    (retries timeout backoff : Option ℕ) (l : Limits)
    → (do
      r ← retries
      t ← timeout
      b ← backoff
      some (record {
        max_retries = min 5 r;
        timeout_ms = min 600000 (max 1000 t);
        backoff_ms = min 10000 b;
      }))
      ≡ some l
    → (l.max_retries ≤ 5) × (l.backoff_ms ≤ 10000)
clamped-bounds none timeout backoff l h = absurd (cc)
clamped-bounds (some r) none backoff l h = absurd (cc)
clamped-bounds (some r) (some t) none l h = absurd (cc)
clamped-bounds (some r) (some t) (some b) l h = ground arith

module _ {C : Type 0} (handlers : Handlers C) where
  success_of-IsError :
      (o : Attempt) (r : NodeResult) → success_of handlers o ≡ some r → is_error r ≡ false
  success_of-IsError (finished s) r h = elim (Bool-cases (is_error s)) [
    | inl e ↦ absurd (cc (rw (success_of, e) at h))
    | inr e ↦ let same : s ≡ r = cc (rw (success_of, e) at h) in rw (← same) e
  ]
  success_of-IsError timed_out r h = absurd (cc)
  success_of-IsError (raised m) r h = absurd (cc)

  limits_of-bounds :
      (n : PipelineNode) (l : Limits)
      → limits_of handlers n ≡ some l
      → (l.max_retries ≤ 5) × (l.backoff_ms ≤ 10000)
  unfolding limits_of
  limits_of-bounds n l h =
      let settings = settings_of n in
      clamped-bounds
        (setting_or handlers.int_of_text settings "max_retries" (default_retries n.node_type))
        (setting_or handlers.float_of_text settings "timeout_ms" 120000)
        (setting_or handlers.int_of_text settings "retry_backoff_ms" 250) l h

  at_once :
      {pause left a : ℕ} (context : Context C) (r : NodeResult)
      → is_error r ≡ false
      → Tried pause left a (record { result = r; attempts = a; context = context; slept_ms = 0 })
  at_once context r fine = record {
    first = omega arith;
    last = omega arith;
    slept = omega arith;
    exhausted = λ h. absurd (cc);
    cut = λ h. absurd (cc);
  }

  longer :
      (l : Limits) (context : Context C) (left a : ℕ) (node_type : String)
      → 1 ≤ a
      → Tried
          (l.backoff_ms * 2 ^ (a + 1 - 1))
          left
          (a + 1)
          (attempts_from handlers l node_type left (a + 1) context)
      → (attempts_from handlers l node_type left (a + 1) context).slept_ms
        ≤ pauses left (2 * (l.backoff_ms * 2 ^ (a - 1)))
  longer l context left a node_type pos t =
      subst
        (λ ms. (attempts_from handlers l node_type left (a + 1) context).slept_ms ≤ pauses left ms)
        (doubled l.backoff_ms a pos) t.slept

  attempts_from-Tried :
      (l : Limits) (node_type : String) (left a : ℕ) (context : Context C)
      → 1 ≤ a
      → Tried
          (l.backoff_ms * 2 ^ (a - 1))
          left
          a
          (attempts_from handlers l node_type left a context)
  unfolding attempts_from
  attempts_from-Tried l node_type zero a context pos =
      let outcome = (handlers.call_handler node_type context).0 in
      elim (Option-cases (success_of handlers outcome)) [
        | inr (r, e) ↦
            rw (attempts_from, e)
              (at_once (handlers.call_handler node_type context).1 r
                (success_of-IsError outcome r e))
        | inl e ↦
            rw (attempts_from, e)
              (record {
                first = omega arith;
                last = omega arith;
                slept = omega arith;
                exhausted = λ h. omega arith;
                cut = λ h. omega (arith, length-take 2000 (error_text handlers l outcome));
              })
      ]
  attempts_from-Tried l node_type (suc left) a context pos =
      let outcome = (handlers.call_handler node_type context).0 in
      let after = (handlers.call_handler node_type context).1 in
      let rest = attempts_from-Tried l node_type left (a + 1) after (omega arith) in
      elim (Option-cases (success_of handlers outcome)) [
        | inr (r, e) ↦ rw (attempts_from, e) (at_once after r (success_of-IsError outcome r e))
        | inl e ↦
            rw (attempts_from, e)
              (record {
                first = omega (arith, rest.first);
                last = omega (arith, rest.last);
                slept = omega (arith, longer l after left a node_type pos rest);
                exhausted = λ h. omega (arith, rest.exhausted h);
                cut = rest.cut;
              })
      ]

-- A node with readable limits is tried at least once and at most six times, one time more than
-- `max_retries` says; the time slept between the attempts is at most 310,000 ms. A result of status
-- "error" is only returned after the last attempt, with a message of at most 2,000 characters.
pub run_node_bounds :
    {C : Type 0} (handlers : Handlers C) (n : PipelineNode) (context : Context C) (l : Limits)
    → limits_of handlers n ≡ some l
    → (run : NodeRun C) × (run_node handlers n context ≡ some run)
      × (1 ≤ run.attempts)
      × (run.attempts ≤ l.max_retries + 1)
      × (l.max_retries ≤ 5)
      × (run.slept_ms ≤ 310000)
      × ((is_error run.result ≡ false)
          ⊎ (run.attempts ≡ l.max_retries + 1) × (length run.result.error_message ≤ 2000))
unfolding run_node
run_node_bounds handlers n context l h =
    let t = attempts_from-Tried handlers l n.node_type l.max_retries 1 context (omega arith) in
    let run = attempts_from handlers l n.node_type l.max_retries 1 context in
    let (retries, backoff) = limits_of-bounds handlers n l h in
    (
      run,
      rw h refl,
      t.first,
      omega (arith, t.last),
      retries,
      omega (
        arith,
        t.slept,
        pauses-le l.max_retries (l.backoff_ms * 2 ^ (1 - 1)) retries (omega arith),
      ),
      elim (Bool-cases (is_error run.result)) [
        | inl e ↦ inr (omega (arith, t.exhausted e), t.cut e)
        | inr e ↦ inl e
      ],
    )
