-- ===== src/Engine/Generate.antt =====
-- src/engine/llm_engine.cpp: `generate_stream`, but for its timing.
-- The calls of the callback are the list `calls`, in their order; `streams` says that there is one.
-- `decode` is the tokenizer's. The fuel bounds the number of steps, and `none` says that it ran out.
use nano_vllm_cpp.Base.{
  ℕ, zero, suc, ◌<◌, ◌≡◌, List, [], ◌∷◌, ◌++◌, Bool, true, false, not, Option, none, some, arith,
  Result, ok, invalid, guard, ◌>>=◌, ◌>>◌, ltb, ◌==◌, if◌then◌else◌, IfOk, IfOk-bind, Bool-cases,
  inl, inr, subst, sym, ==→eq, bind-ok,
}
use nano_vllm_cpp.Base.Counting.{contains}
use nano_vllm_cpp.Sequence.{Sequence, SamplingParams}
use nano_vllm_cpp.Scheduler
use nano_vllm_cpp.Scheduler.{is_empty}
use nano_vllm_cpp.Engine.{Engine, add_request, step}

pub record Call : Type 0 where
  pub seq_id : ℕ
  pub token_id : ℕ
  pub text : List ℕ
  pub finished : Bool

pub record Output : Type 0 where
  pub token_ids : List ℕ
  pub text : List ℕ

-- `std::map`, by increasing keys.
unfoldable pub put : ℕ → List ℕ → List (ℕ × List ℕ) → List (ℕ × List ℕ)
put k v [] = (k, v) ∷ []
put k v ((j, w) ∷ m) =
    let rest = put k v m in
    if ltb k j then (k, v) ∷ (j, w) ∷ m else if k == j then (k, v) ∷ m else (j, w) ∷ rest

unfoldable pub collect : List (ℕ × List ℕ) → List (ℕ × List ℕ) → List (ℕ × List ℕ)
collect [] collected = collected
collect ((seq_id, tids) ∷ finished) collected = collect finished (put seq_id tids collected)

unfoldable pub ids_of_outputs : List (ℕ × List ℕ) → List ℕ
ids_of_outputs [] = []
ids_of_outputs ((seq_id, tids) ∷ finished) = seq_id ∷ ids_of_outputs finished

unfoldable pub add_requests : Engine → List (List ℕ) → SamplingParams → Engine
add_requests e [] params = e
add_requests e (tids ∷ prompts) params = add_requests (add_request e tids params) prompts params

-- The tokens of the prompts, none of them without a token.
unfoldable pub tokenize : (List ℕ → List ℕ) → List (List ℕ) → Result (List (List ℕ))
tokenize encode [] = ok []
tokenize encode (prompt ∷ prompts) = do
  let token_ids = encode prompt
  guard (not (is_empty token_ids)) invalid
  rest ← tokenize encode prompts
  ok (token_ids ∷ rest)

pub record Generated : Type 0 where
  pub engine : Engine
  pub collected : List (ℕ × List ℕ)
  pub calls : List Call

module _ (xxh64 : List ℕ → ℕ) (run : List Sequence → Bool → Result (List ℕ))
    (decode : List ℕ → List ℕ) where
  unfoldable pub calls_of : List ℕ → List (ℕ × ℕ) → List Call
  calls_of finished_ids [] = []
  calls_of finished_ids ((seq_id, token_id) ∷ tokens) =
      record {
        seq_id = seq_id;
        token_id = token_id;
        text = decode (token_id ∷ []);
        finished = contains seq_id finished_ids;
      }
      ∷ calls_of finished_ids tokens

  -- One round of the loop.
  unfoldable pub generate_step : Bool → Generated → Result Generated
  generate_step streams g = do
    r ← step xxh64 run g.engine
    let calls = calls_of (ids_of_outputs r.outputs) r.tokens
    ok (record {
      engine = r.engine;
      collected = collect r.outputs g.collected;
      calls = if streams then g.calls ++ calls else g.calls;
    })

  unfoldable pub generate_loop : ℕ → Bool → Generated → Result (Option Generated)
  generate_loop zero streams g = ok none
  generate_loop (suc fuel) streams g = elim (Scheduler.is_finished g.engine.scheduler) [
    | true ↦ ok (some g)
    | false ↦ (do g' ← generate_step streams g; generate_loop fuel streams g')
  ]

  unfoldable pub outputs : List (ℕ × List ℕ) → List Output
  outputs [] = []
  outputs ((seq_id, tids) ∷ collected) =
      record { token_ids = tids; text = decode tids } ∷ outputs collected

  unfoldable pub generate_stream :
      ℕ → Bool → Engine → List (List ℕ) → SamplingParams → Result (Option (List Output × List Call))
  generate_stream fuel streams e prompts params = do
    let start : Generated = record {
      engine = add_requests e prompts params;
      collected = [];
      calls = [];
    }
    g ← generate_loop fuel streams start
    elim g [ none ↦ ok none | some g ↦ ok (some (outputs g.collected, g.calls)) ]

  -- The overload that takes texts.
  unfoldable pub generate_stream_texts :
      (List ℕ → List ℕ)
      → ℕ
      → Bool
      → Engine
      → List (List ℕ)
      → SamplingParams
      → Result (Option (List Output × List Call))
  generate_stream_texts encode fuel streams e prompts params = do
    tokenized ← tokenize encode prompts
    generate_stream fuel streams e tokenized params

-- Keys that increase, all above a bound.
abbrev pub Above : ℕ → List (ℕ × List ℕ) → Type 0
Above low [] = Unit
Above low ((k, v) ∷ m) = (low < k) × Above k m

abbrev pub Increasing : List (ℕ × List ℕ) → Type 0
Increasing [] = Unit
Increasing ((k, v) ∷ m) = Above k m

put-Above :
    (low k : ℕ) (v : List ℕ) (m : List (ℕ × List ℕ)) → low < k → Above low m → Above low (put k v m)
unfolding put
put-Above low k v [] h a = (h, tt)
put-Above low k v ((j, w) ∷ m) h (b, a) = elim (Bool-cases (ltb k j)) [
  | inl less ↦ rw less (h, (ground arith, a))
  | inr more ↦ elim (Bool-cases (k == j)) [
    | inl same ↦ rw (more, same) (h, subst (λ x. Above x m) (sym (==→eq k j same)) a)
    | inr apart ↦ rw (more, apart) (b, put-Above j k v m (ground arith) a)
  ]
]

put-Increasing :
    (k : ℕ) (v : List ℕ) (m : List (ℕ × List ℕ)) → Increasing m → Increasing (put k v m)
unfolding put
put-Increasing k v [] a = tt
put-Increasing k v ((j, w) ∷ m) a = elim (Bool-cases (ltb k j)) [
  | inl less ↦ rw less (ground arith, a)
  | inr more ↦ elim (Bool-cases (k == j)) [
    | inl same ↦ rw (more, same) (subst (λ x. Above x m) (sym (==→eq k j same)) a)
    | inr apart ↦ rw (more, apart) (put-Above j k v m (ground arith) a)
  ]
]

collect-Increasing :
    (finished m : List (ℕ × List ℕ)) → Increasing m → Increasing (collect finished m)
unfolding collect
collect-Increasing [] m a = a
collect-Increasing ((k, v) ∷ finished) m a =
    collect-Increasing finished (put k v m) (put-Increasing k v m a)

-- Where the loop has ended, the collected outputs come by increasing ids.
abbrev pub Ordered : Option Generated → Type 0
Ordered none = Unit
Ordered (some g) = Increasing g.collected

module _ (xxh64 : List ℕ → ℕ) (run : List Sequence → Bool → Result (List ℕ))
    (decode : List ℕ → List ℕ) where
  pub generate_loop-over :
      (fuel : ℕ) (streams : Bool) (g : Generated)
      → Scheduler.is_finished g.engine.scheduler ≡ true
      → generate_loop xxh64 run decode (suc fuel) streams g ≡ ok (some g)
  unfolding generate_loop
  generate_loop-over fuel streams g h = ground arith

  pub generate_loop-more :
      (fuel : ℕ) (streams : Bool) (g : Generated)
      → Scheduler.is_finished g.engine.scheduler ≡ false
      → generate_loop xxh64 run decode (suc fuel) streams g
        ≡ generate_step xxh64 run decode streams g >>= λ g'.
            generate_loop xxh64 run decode fuel streams g'
  unfolding generate_loop
  generate_loop-more fuel streams g h = ground arith

  generate_step-Increasing :
      (streams : Bool) (g g' : Generated)
      → Increasing g.collected
      → generate_step xxh64 run decode streams g ≡ ok g'
      → Increasing g'.collected
  unfolding generate_step
  generate_step-Increasing streams g g' a h =
      let (r, stepped, rest) = bind-ok (step xxh64 run g.engine) _ g' h in
      let same : collect r.outputs g.collected ≡ g'.collected = ground arith in
      subst Increasing same (collect-Increasing r.outputs g.collected a)

  -- For any fuel, where the loop starts with outputs by increasing ids and returns, so are the
  -- collected outputs.
  pub generate_loop-Ordered :
      (fuel : ℕ) (streams : Bool) (g : Generated)
      → Increasing g.collected
      → IfOk (generate_loop xxh64 run decode fuel streams g) Ordered
  generate_loop-Ordered zero streams g a = unfold generate_loop in tt
  generate_loop-Ordered (suc fuel) streams g a =
      elim (Bool-cases (Scheduler.is_finished g.engine.scheduler)) [
        | inl over ↦ subst (λ r. IfOk r Ordered) (sym (generate_loop-over fuel streams g over)) a
        | inr more ↦
            subst (λ r. IfOk r Ordered) (sym (generate_loop-more fuel streams g more))
              (IfOk-bind (generate_step xxh64 run decode streams g) _ Ordered λ g' stepped.
                generate_loop-Ordered fuel streams g'
                  (generate_step-Increasing streams g g' a stepped))
      ]
