-- ===== src/Tests/Devices.antt =====
-- The runner's buffers and the tensor-parallel group at concrete inputs.
use nano_vllm_cpp.Base.{
  ℕ, ◌+◌, ◌*◌, ◌≤◌, ◌<◌, ◌≡◌, refl, List, [], ◌∷◌, true, false, Option, some, arith, get_elem?,
  take, drop, ok, inr,
}
use nano_vllm_cpp.Base.Maps.{bytes_key}
use nano_vllm_cpp.Sequence.{Sequence}
use nano_vllm_cpp.Allocator.{Memory}
use nano_vllm_cpp.Tensor.{ScalarType, Tensor, all_non_negative}
use nano_vllm_cpp.Runner.Scratch.{
  ScratchAllocator, new_scratch, scratch_allocate, scratch_run, align_up, scratch_size, probe_bytes,
  Stacked, SameOffsets, probe_replays,
}
use nano_vllm_cpp.Runner.Captured.{
  Chain, captured_sizes, most_seqs, select_bs, available, select_captured,
}
use nano_vllm_cpp.Runner.Pinned.{Staging, Staged, pinned_alloc, pinned_alloc_lem}
use nano_vllm_cpp.Runner.Cache.{CachePlan, Views, layer_views, layer_elements, scale_layer_elements}
use nano_vllm_cpp.Runner.CacheViews.{Layers, layer_views-Layers}
use nano_vllm_cpp.Runner.Samples.{
  Penalty, has_penalty, prepare_sample, longest_penalized, prepare_sample-penalized,
}
use nano_vllm_cpp.Parallel.{Communicator}
use nano_vllm_cpp.Tests.{waiting_one}
use nano_vllm_cpp.Copy.{DeviceType}
use nano_vllm_cpp.Parallel.{Device}
use nano_vllm_cpp.Transformer.{Shape}
use nano_vllm_cpp.Transformer.Checkpoint.{LoadsLayer, checkpoint_loads}

abbrev two_requests : List ℕ
two_requests = 1000 ∷ 0 ∷ 300 ∷ []

abbrev pieces : List Memory
pieces =
    record { data_ptr = 4096; bytes = 1024; owned = false }
    ∷ record { data_ptr = 0; bytes = 0; owned = false }
    ∷ record { data_ptr = 5120; bytes = 512; owned = false }
    ∷ []

abbrev after_probe : ScratchAllocator
after_probe = record { base = 4096; capacity = probe_bytes; offset = 1536; peak = 1536 }

probe_replays_example :
    Stacked 4096 0 1536 two_requests pieces
    × ((ms' : List Memory) × (u' : ScratchAllocator) × (scratch_run
            (new_scratch 65536 (scratch_size 1536))
            two_requests
          ≡ ok (ms', u'))
        × SameOffsets 4096 65536 pieces ms'
        × Stacked 65536 0 (scratch_size 1536) two_requests ms')
unfolding new_scratch scratch_run scratch_allocate align_up
probe_replays_example =
    probe_replays 4096 65536 two_requests pieces after_probe
      (omega arith, (omega arith, (omega arith, tt))) refl

select_captured_example :
    Chain 0 (captured_sizes 18) (most_seqs 18)
    × (9 ≤ most_seqs 18
        → (available (captured_sizes 18) 9 ≡ true)
          × (9 ≤ select_bs (captured_sizes 18) 9)
          × (select_bs (captured_sizes 18) 9 ≤ most_seqs 18)
          × (select_bs (captured_sizes 18) 9 < 9 + 4))
    × (most_seqs 18 < 9 → available (captured_sizes 18) 9 ≡ false)
select_captured_example = select_captured 18 9 (omega arith) (omega arith)

abbrev nearly_full : Staging
nearly_full = record {
  buffer = some (record { data_ptr = 8192; bytes = 64 });
  offset = 48;
  buffers = 1;
}

abbrev host_memory : ℕ → ℕ → Option ℕ
host_memory n size = some (1048576 * (n + 1))

pinned_alloc_lem_example :
    (ptr : ℕ) × (t : Staging) × (pinned_alloc host_memory nearly_full 20 ≡ ok (ptr, t))
    × Staged nearly_full 20 ptr t
pinned_alloc_lem_example =
    pinned_alloc_lem host_memory (λ n size. (1048576 * (n + 1), refl)) nearly_full 20
      (record {
        within = omega arith;
        small = omega arith;
        aligned = refl;
        some_bytes = inr (omega arith);
      })
      (omega arith)

abbrev small_cache : CachePlan
small_cache = record {
  layers = 2;
  block_size = 16;
  heads = 2;
  head_dim = 4;
  blocks = 3;
  int8 = true;
  dtype = ScalarType.float16;
}

layer_views-Layers_example :
    (ls : List (Views × Option Views)) × (layer_views small_cache (some 4096) (some 65536) 2 0
      ≡ ok ls)
    × Layers small_cache (some 4096) (some 65536) 0 ls
unfolding all_non_negative layer_elements scale_layer_elements
layer_views-Layers_example =
    layer_views-Layers small_cache (some 4096) (some 65536)
      (record { sizes = refl; elements = omega arith; scales = omega arith })

abbrev penalized : Sequence
penalized = record waiting_one { repetition_penalty = 0x3FA00000 }

abbrev plain : Sequence
plain = record waiting_one { repetition_penalty = 0x3F800000; token_ids = 9 ∷ [] }

prepare_sample-penalized_example :
    (m : Penalty) × ((prepare_sample (plain ∷ penalized ∷ [])).penalty ≡ some m)
    × (take 3 (drop (1 * longest_penalized (plain ∷ penalized ∷ [])) m.token_ids)
        ≡ 11 ∷ 12 ∷ 13 ∷ [])
    × (get_elem? m.token_counts 1 ≡ some 3)
    × (get_elem? m.penalties 1 ≡ some 0x3FA00000)
unfolding has_penalty
prepare_sample-penalized_example =
    prepare_sample-penalized (plain ∷ penalized ∷ []) 1 penalized refl refl (omega arith)

abbrev on_device : ℕ → Tensor
on_device address = record {
  memory = some address;
  sizes = 2 ∷ 3 ∷ [];
  strides = 3 ∷ 1 ∷ [];
  dtype = ScalarType.float32;
  memory_offset = 0;
}

abbrev first_cuda : ℕ → Device
first_cuda base = record { type = DeviceType.cuda; index = 0 }

abbrev idle : Communicator (λ a b. a + b)
idle = record { pending_all_reduce = []; memory = λ a. a * 2 }

abbrev two_layers : Shape
two_layers = record {
  num_layers = 2;
  qkv_bias = false;
  o_bias = false;
  qk_norm = true;
  gate_up_bias = false;
  down_bias = false;
}

checkpoint_loads_example : LoadsLayer two_layers 1
checkpoint_loads_example = checkpoint_loads two_layers 1 (omega arith)
