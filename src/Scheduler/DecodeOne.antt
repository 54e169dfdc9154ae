-- ===== src/Scheduler/DecodeOne.antt =====
-- One sequence of a decode step gets its place for the new token.
use nano_vllm_cpp.Base.{
  ℕ, ◌+◌, ◌≤◌, ◌≡◌, refl, sym, ap, subst, List, ◌∷◌, true, some, arith, length, get_elem?, set,
  Safe, Safe-bind, length-set,
}
use nano_vllm_cpp.Base.Counting.{count}
use nano_vllm_cpp.Sequence.{Sequence, SequenceStatus}
use nano_vllm_cpp.BlockManager
use nano_vllm_cpp.BlockManager.{BlockManager}
use nano_vllm_cpp.BlockManager.Append.{Appended, may_append-Safe}
use nano_vllm_cpp.Scheduler.{Scheduler, decode_one}
use nano_vllm_cpp.Scheduler.Invariant.{SchedInv, Fits, split_holders, join_holders, rest_of}
use nano_vllm_cpp.Scheduler.Moves.{SameLimits, Placed-after}

-- A sequence with room gets its place for the new token.
module _ (xxh64 : List ℕ → ℕ) (s : Scheduler) (aside : List ℕ) (p : ℕ) (v : SchedInv s (p ∷ aside))
    (q : Sequence) (at : get_elem? s.sequences p ≡ some q) (tokens : 1 ≤ q.num_tokens)
    (held : 1 ≤ length q.block_table) (w0 : count p s.waiting ≡ 0)
    (r1 : count p s.running + count p (p ∷ aside) ≡ 1)
    (running : q.status ≡ SequenceStatus.running) where
  abbrev decoding : List ℕ → Sequence
  decoding table = record q { block_table = table; num_tokens_to_process = 0 }

  decoding-Inv :
      (m : BlockManager) (q' : Sequence)
      (a : Appended s.block_manager q (rest_of s.sequences q) m q')
      → SchedInv
          (record s {
            block_manager = m;
            sequences = set s.sequences p (record q' { num_tokens_to_process = 0 });
          })
          (p ∷ aside)
  unfolding count
  decoding-Inv m q' a =
      let same : record q' { num_tokens_to_process = 0 } ≡ decoding a.table =
        ap (λ (x : Sequence). record x { num_tokens_to_process = 0 }) a.seq_after in
      subst
        (λ x.
          SchedInv (record s { block_manager = m; sequences = set s.sequences p x }) (p ∷ aside))
        (sym same)
        (record {
          blocks = join_holders s.sequences p q (decoding a.table) at a.inv;
          placed =
              Placed-after s p q (decoding a.table) at (p ∷ aside) (p ∷ aside) s.waiting s.running v
                (
                  tokens,
                  subst
                      (λ st.
                        Fits st (decoding a.table) (count p s.waiting)
                          (count p s.running + count p (p ∷ aside)))
                      (sym running) (w0, r1, omega (arith, a.longer)),
                )
                (λ k ne. (refl, refl));
        })

  pub decode_one-Safe :
      BlockManager.can_append s.block_manager q ≡ true
      → Safe
          (decode_one xxh64 s p)
          (λ s'. SchedInv s' (p ∷ aside) × (s'.running ≡ s.running) × SameLimits s s')
  unfolding decode_one
  decode_one-Safe room = rw at (
      Safe-bind (BlockManager.may_append xxh64 s.block_manager q) _ _ _
        (may_append-Safe xxh64 s.block_manager q (rest_of s.sequences q)
          (split_holders s.sequences p q at v.blocks) tokens held room)
        λ r a. (
          decoding-Inv r.0 r.1 a,
          refl,
          record {
            seqs = refl;
            batched = refl;
            prefill = refl;
            eos_token = refl;
            size = a.size_kept;
            many = length-set s.sequences p (record (r.1) { num_tokens_to_process = 0 });
          },
        ))
