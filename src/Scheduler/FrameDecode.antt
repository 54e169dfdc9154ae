-- ===== src/Scheduler/FrameDecode.antt =====
-- What the decode path of a step leaves alone, and that its sequences end without a chunk.
use nano_vllm_cpp.Base.{
  ℕ, zero, suc, ◌-◌, ◌%◌, ◌≡◌, refl, ap, List, [], ◌∷◌, ◌++◌, Bool, true, false, not, none, some,
  arith, length, get_elem?, get_elem?-lt, last?, pop_back, ok, err, IfOk, IfOk-bind, IfOk-ok,
  IfOk-map, Option-cases, inl, inr, guard, assertion, ◌==◌, if◌then◌else◌, subst, sym, Bool-cases,
  ltb, or_fail, out_of_range, ◌>>=◌, Result, Fault, ◌≤◌, get_elem?-set_self,
}
use nano_vllm_cpp.Base.Counting.{count, count-append}
use nano_vllm_cpp.Sequence
use nano_vllm_cpp.Sequence.{Sequence}
use nano_vllm_cpp.BlockManager
use nano_vllm_cpp.BlockManager.{Block, BlockManager}
use nano_vllm_cpp.Scheduler.{Scheduler, Batch, preempt, make_room, decode_one, decode_loop, seq_at}
use nano_vllm_cpp.Scheduler.Room.{pop_back-last, make_room_fits}
use nano_vllm_cpp.Scheduler.Decode.{
  one_more, decode_loop_stops, decode_loop_full, decode_loop_preempted, decode_loop_runs,
}
use native.Mathlib.Decide.{ℕ_discrete}
use nano_vllm_cpp.Scheduler.Frame.{
  Keeps, Keeps-refl, Keeps-trans, StaysIdle, SameNumbers, PreemptKeeps, preempt-Keeps, seq_at-ok,
  set-SameBudget, set-StaysIdle, chunk_at,
}

module _ (xxh64 : List ℕ → ℕ) (m : BlockManager) (q : Sequence) where
  abbrev AppendKeeps : BlockManager × Sequence → Type 0
  AppendKeeps r = SameNumbers q r.1

  append_block-SameNumbers : (last : Block) → IfOk (BlockManager.append_block m q last) AppendKeeps
  unfolding BlockManager.append_block
  append_block-SameNumbers last =
      IfOk-bind (guard (not (last.hash == BlockManager.no_hash)) assertion) _ AppendKeeps λ u e₁.
        IfOk-bind (or_fail (BlockManager.front m.free_block_ids) out_of_range) _ AppendKeeps
          λ id e₂.
            IfOk-bind (BlockManager.allocate_block m id) _ AppendKeeps
              λ m' e₃. (refl, refl, refl, refl)

  seal_block-SameNumbers :
      (id : ℕ) (last : Block) → IfOk (BlockManager.seal_block xxh64 m q id last) AppendKeeps
  unfolding BlockManager.seal_block
  seal_block-SameNumbers id last =
      IfOk-bind (guard (last.hash == BlockManager.no_hash) assertion) _ AppendKeeps λ u e₁.
        IfOk-bind (Sequence.block q (Sequence.num_blocks q - 1)) _ AppendKeeps λ token_ids e₂.
          IfOk-bind (BlockManager.prefix_hash m q.block_table) _ AppendKeeps
            λ h e₃. (refl, refl, refl, refl)

  may_append-SameNumbers : IfOk (BlockManager.may_append xxh64 m q) AppendKeeps
  unfolding BlockManager.may_append
  may_append-SameNumbers =
      IfOk-bind (or_fail (last? q.block_table) out_of_range) _ AppendKeeps λ id e₁.
        IfOk-bind (or_fail (get_elem? m.blocks id) out_of_range) _ AppendKeeps λ last e₂.
          elim (Bool-cases (q.num_tokens % m.block_size == 1)) [
            | inl one ↦ rw one (append_block-SameNumbers last)
            | inr other ↦ elim (Bool-cases (q.num_tokens % m.block_size == 0)) [
              | inl full ↦ rw (other, full) (seal_block-SameNumbers id last)
              | inr inside ↦
                  rw (other, inside)
                    (IfOk-bind (guard (last.hash == BlockManager.no_hash) assertion) _ AppendKeeps
                      λ u e₃. (refl, refl, refl, refl))
            ]
          ]

-- What a round of the decode loop leaves of the sequence `p`, and of the others.
abbrev OneKeeps : Scheduler → List ℕ → ℕ → Scheduler → Type 0
OneKeeps s aside p s' =
    Keeps s aside s' aside × StaysIdle s s' × (chunk_at (get_elem? s'.sequences p) ≡ 0)

decode_one-Keeps :
    (xxh64 : List ℕ → ℕ) (s : Scheduler) (aside : List ℕ) (p : ℕ)
    → IfOk (decode_one xxh64 s p) (OneKeeps s aside p)
unfolding decode_one
decode_one-Keeps xxh64 s aside p = IfOk-bind (seq_at s p) _ (OneKeeps s aside p) λ q at₀.
    let at = seq_at-ok s p q at₀ in
    IfOk-bind (BlockManager.may_append xxh64 s.block_manager q) _ (OneKeeps s aside p) λ r e.
      let same =
        IfOk-ok (BlockManager.may_append xxh64 s.block_manager q)
          (AppendKeeps xxh64 s.block_manager q) r (may_append-SameNumbers xxh64 s.block_manager q)
          e in
      let q' : Sequence = record (r.1) { num_tokens_to_process = 0 } in
      (
        record {
          budget = set-SameBudget s.sequences p q q' at same.0 same.1 same.2 same.3;
          in_flight = λ k. refl;
          mode = refl;
        },
        set-StaysIdle s.sequences p q q' at (λ h. refl),
        ap chunk_at (get_elem?-set_self s.sequences p q' (get_elem?-lt s.sequences p q at)),
      )

-- Where the loop that makes room leaves `p`: still aside, or not.
abbrev RoomKeeps : Scheduler → List ℕ → ℕ → Scheduler × Bool → Type 0
RoomKeeps s aside p r =
    Keeps s (p ∷ aside) (r.0) (if r.1 then aside else p ∷ aside) × StaysIdle s (r.0)

make_room-gone :
    (fuel : ℕ) (s : Scheduler) (p : ℕ)
    → get_elem? s.sequences p ≡ none
    → make_room (suc fuel) s p ≡ err out_of_range
unfolding make_room
make_room-gone fuel s p gone = ground arith

module _ (fuel : ℕ) (s : Scheduler) (p : ℕ) (q : Sequence) (at : get_elem? s.sequences p ≡ some q)
    (full : BlockManager.can_append s.block_manager q ≡ false) where
  make_room-alone :
      last? s.running ≡ none → make_room (suc fuel) s p ≡ preempt s p >>= λ s'. ok (s', true)
  unfolding make_room
  make_room-alone nobody = ground arith

  make_room-evicts :
      (victim : ℕ)
      → last? s.running ≡ some victim
      → make_room (suc fuel) s p
        ≡ preempt (record s { running = pop_back s.running }) victim >>= λ s₁. make_room fuel s₁ p
  unfolding make_room
  make_room-evicts victim last = ground arith

make_room-Keeps :
    (fuel : ℕ) (s : Scheduler) (aside : List ℕ) (p : ℕ)
    → IfOk (make_room fuel s p) (RoomKeeps s aside p)
unfolding count
make_room-Keeps zero s aside p = unfold make_room in tt
make_room-Keeps (suc fuel) s aside p = elim (Option-cases (get_elem? s.sequences p)) [
  | inl gone ↦ subst (λ r. IfOk r (RoomKeeps s aside p)) (sym (make_room-gone fuel s p gone)) tt
  | inr (q, at) ↦ elim (Bool-cases (BlockManager.can_append s.block_manager q)) [
    | inl fits ↦
        subst (λ r. IfOk r (RoomKeeps s aside p)) (sym (make_room_fits fuel s p q at fits))
          (Keeps-refl s (p ∷ aside), λ k h. h)
    | inr full ↦ elim (Option-cases (last? s.running)) [
      | inl nobody ↦
          subst (λ r. IfOk r (RoomKeeps s aside p))
            (sym (make_room-alone fuel s p q at full nobody))
            (IfOk-bind (preempt s p) _ (RoomKeeps s aside p) λ s' e.
              let kept =
                IfOk-ok (preempt s p) (PreemptKeeps s aside p) s' (preempt-Keeps s aside p) e in
              (kept.0, kept.1))
      | inr (victim, last) ↦
          let t : Scheduler = record s { running = pop_back s.running } in
          subst (λ r. IfOk r (RoomKeeps s aside p))
            (sym (make_room-evicts fuel s p q at full victim last))
            (IfOk-bind (preempt t victim) _ (RoomKeeps s aside p) λ s₁ e.
              let kept =
                IfOk-ok (preempt t victim) (PreemptKeeps t (p ∷ aside) victim) s₁
                  (preempt-Keeps t (p ∷ aside) victim) e in
              let popped : Keeps s (p ∷ aside) t (victim ∷ p ∷ aside) = record {
                budget = λ k. (refl, refl, refl, refl);
                in_flight = λ k. omega (arith, pop_back-last s.running victim k last);
                mode = refl;
              } in
              IfOk-map (make_room fuel s₁ p) (make_room-Keeps fuel s₁ aside p) λ r rest.
                (Keeps-trans popped (Keeps-trans kept.0 rest.0), λ k h. rest.1 k (kept.1 k h)))
    ]
  ]
]

-- What the decode loop has done to a batch: the scheduled sequences have no chunk.
pub record DecodeKeeps (b c : Batch) : Type 0 where
  pub keeps : Keeps b.sched b.scheduled c.sched c.scheduled
  pub idle :
      ((k : ℕ) → 1 ≤ count k b.scheduled → chunk_at (get_elem? b.sched.sequences k) ≡ 0)
      → (k : ℕ) → 1 ≤ count k c.scheduled
      → chunk_at (get_elem? c.sched.sequences k) ≡ 0

DecodeKeeps-refl : (b : Batch) → DecodeKeeps b b
DecodeKeeps-refl b = record { keeps = Keeps-refl b.sched b.scheduled; idle = λ h. h }

module _ (xxh64 : List ℕ → ℕ) where
  decode_loop-fails :
      (fuel p : ℕ) (rest : List ℕ) (b : Batch) (f : Fault)
      → b.sched.running ≡ p ∷ rest
      → ltb b.num_seqs b.sched.max_num_seqs ≡ true
      → make_room (suc (length rest)) (record (b.sched) { running = rest }) p ≡ err f
      → decode_loop xxh64 (suc fuel) b ≡ err f
  unfolding decode_loop
  decode_loop-fails fuel p rest b f e more g = ground arith

  module _ (fuel p : ℕ) (rest : List ℕ) (b : Batch) (e : b.sched.running ≡ p ∷ rest)
      (more : ltb b.num_seqs b.sched.max_num_seqs ≡ true)
      (ih : (b' : Batch) → IfOk (decode_loop xxh64 fuel b') (DecodeKeeps b')) where
    abbrev off_front : Scheduler
    off_front = record (b.sched) { running = rest }

    popped-Keeps : Keeps b.sched b.scheduled off_front (p ∷ b.scheduled)
    unfolding count
    popped-Keeps = record {
      budget = λ k. (refl, refl, refl, refl);
      in_flight = λ k. omega (arith, ap (λ xs. count k xs) e);
      mode = refl;
    }

    to_back : (s' : Scheduler) → Keeps s' (p ∷ b.scheduled) s' (b.scheduled ++ p ∷ [])
    unfolding count
    to_back s' = record {
      budget = λ k. (refl, refl, refl, refl);
      in_flight = λ k. omega (arith, count-append k b.scheduled (p ∷ []));
      mode = refl;
    }

    still_idle :
        (s s' : Scheduler)
        → ((k : ℕ) → 1 ≤ count k b.scheduled → chunk_at (get_elem? b.sched.sequences k) ≡ 0)
        → StaysIdle off_front s
        → StaysIdle s s'
        → chunk_at (get_elem? s'.sequences p) ≡ 0
        → (k : ℕ) → 1 ≤ count k (b.scheduled ++ p ∷ [])
        → chunk_at (get_elem? s'.sequences k) ≡ 0
    unfolding count
    still_idle s s' h first second here k n = elim (ℕ_discrete p k) [
      | yes same ↦ subst (λ j. chunk_at (get_elem? s'.sequences j) ≡ 0) same here
      | no ne ↦ second k (first k (h k (ground (arith, count-append k b.scheduled (p ∷ [])))))
    ]

    round-preempted :
        (s : Scheduler)
        → make_room (suc (length rest)) off_front p ≡ ok (s, true)
        → IfOk (decode_loop xxh64 (suc fuel) b) (DecodeKeeps b)
    round-preempted s made =
        let kept =
          IfOk-ok (make_room (suc (length rest)) off_front p) (RoomKeeps off_front b.scheduled p)
            (s, true) (make_room-Keeps (suc (length rest)) off_front b.scheduled p) made in
        subst (λ r. IfOk r (DecodeKeeps b))
          (sym (decode_loop_preempted xxh64 fuel p rest b s e more made))
          (IfOk-map (decode_loop xxh64 fuel (record b { sched = s })) (ih (record b { sched = s }))
            λ c d. record {
              keeps = Keeps-trans popped-Keeps (Keeps-trans kept.0 d.keeps);
              idle = λ h. d.idle (λ k n. kept.1 k (h k n));
            })

    round-runs :
        (s : Scheduler)
        → make_room (suc (length rest)) off_front p ≡ ok (s, false)
        → IfOk (decode_loop xxh64 (suc fuel) b) (DecodeKeeps b)
    round-runs s made =
        let kept =
          IfOk-ok (make_room (suc (length rest)) off_front p) (RoomKeeps off_front b.scheduled p)
            (s, false) (make_room-Keeps (suc (length rest)) off_front b.scheduled p) made in
        subst (λ r. IfOk r (DecodeKeeps b))
          (sym (decode_loop_runs xxh64 fuel p rest b s e more made))
          (IfOk-bind (decode_one xxh64 s p) _ (DecodeKeeps b) λ s' run.
            let one =
              IfOk-ok (decode_one xxh64 s p) (OneKeeps s (p ∷ b.scheduled) p) s'
                (decode_one-Keeps xxh64 s (p ∷ b.scheduled) p) run in
            IfOk-map (decode_loop xxh64 fuel (one_more xxh64 b s' p)) (ih (one_more xxh64 b s' p))
              λ c d. record {
                keeps =
                    Keeps-trans popped-Keeps
                      (Keeps-trans kept.0 (Keeps-trans one.0 (Keeps-trans (to_back s') d.keeps)));
                idle = λ h. d.idle (still_idle s s' h kept.1 one.1 one.2);
              })

  pub decode_loop-Keeps : (fuel : ℕ) (b : Batch) → IfOk (decode_loop xxh64 fuel b) (DecodeKeeps b)
  decode_loop-Keeps zero b = unfold decode_loop in DecodeKeeps-refl b
  decode_loop-Keeps (suc fuel) b = from b.sched.running refl (decode_loop-Keeps fuel)
    where
      from :
          (xs : List ℕ)
          → b.sched.running ≡ xs
          → ((b' : Batch) → IfOk (decode_loop xxh64 fuel b') (DecodeKeeps b'))
          → IfOk (decode_loop xxh64 (suc fuel) b) (DecodeKeeps b)
      from [] e ih =
          subst (λ r. IfOk r (DecodeKeeps b)) (sym (decode_loop_stops xxh64 (suc fuel) b e))
            (DecodeKeeps-refl b)
      from (p ∷ rest) e ih = elim (Bool-cases (ltb b.num_seqs b.sched.max_num_seqs)) [
        | inl more ↦
            by (make_room (suc (length rest)) (record (b.sched) { running = rest }) p) refl more
        | inr full ↦
            subst (λ r. IfOk r (DecodeKeeps b)) (sym (decode_loop_full xxh64 fuel p rest b e full))
              (DecodeKeeps-refl b)
      ]
        where
          by :
              (r : Result (Scheduler × Bool))
              → make_room (suc (length rest)) (record (b.sched) { running = rest }) p ≡ r
              → ltb b.num_seqs b.sched.max_num_seqs ≡ true
              → IfOk (decode_loop xxh64 (suc fuel) b) (DecodeKeeps b)
          by (ok (s, true)) made more = round-preempted fuel p rest b e more ih s made
          by (ok (s, false)) made more = round-runs fuel p rest b e more ih s made
          by (err f) made more =
              subst (λ r. IfOk r (DecodeKeeps b))
                (sym (decode_loop-fails fuel p rest b f e more made)) tt
