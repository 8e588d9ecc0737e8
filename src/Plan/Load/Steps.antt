-- ===== src/Plan/Load/Steps.antt =====
-- src/core/executor/execution_plan.cc: the parts of `loadExecutionPlan` before `setupOperations` neither read
-- nor write the sizes and the operations.
use mscclpp.Base.{ℕ, ◌≡◌, refl, List, [], ◌∷◌, Result, ok, err, update, ◌>>=◌, length, map}
use mscclpp.Plan.Types.{ChannelType, memory, port, switch, convert_to_channel_type}
use mscclpp.Plan.Sizes.{Plan}
use mscclpp.Plan.Channels.{setup_channels}
use mscclpp.Plan.Buffers.{parse_remote_buffer}
use mscclpp.Plan.Operations.{Operation, or_default}
use mscclpp.Plan.Document.{ChannelRef, BufferIds, Threadblock, GpuPlan}
use mscclpp.Plan.Load.{
  Impl, resize, push_all_at, read_buff, add_ids, block_channels, blocks_channels, gpu_channels,
  setup_block_channels, parse_remote_buffers, buffer_entries, add_buffers, block_buffers,
  blocks_buffers, setup_remote_buffers,
}

abbrev pub map_ok : {A B : Type 0} → (A → B) → Result A → Result B
map_ok f (ok a) = ok (f a)
map_ok f (err why) = err why

-- The state with another plan and other operations
abbrev pub with_plan : Plan → List (List Operation) → Impl → Impl
with_plan p operations s = record s { plan = p; operations = operations }

module _ (p : Plan) (operations : List (List Operation)) where
  -- A step that neither reads nor writes the plan and the operations
  abbrev pub Commutes : (Impl → Result Impl) → Type 0
  Commutes step =
      (s : Impl) → step (with_plan p operations s) ≡ map_ok (with_plan p operations) (step s)

  pub Commutes-then :
      (f g : Impl → Result Impl) → Commutes f → Commutes g → Commutes (λ s. f s >>= g)
  Commutes-then f g cf cg s = rw (cf s) (go (f s))
    where
      go :
          (r : Result Impl)
          → (map_ok (with_plan p operations) r >>= g) ≡ map_ok (with_plan p operations) (r >>= g)
      go (ok t) = cg t
      go (err why) = refl

  Commutes-read :
      {V : Type 0} (m : Result V) (f : V → Impl → Result Impl)
      → ((v : V) → Commutes (f v))
      → Commutes (λ s. m >>= λ v. f v s)
  Commutes-read (ok v) f c s = c v s
  Commutes-read (err why) f c s = refl

  map_ok-bind :
      {V : Type 0} (m : Result V) (f : V → Impl)
      → (m >>= λ v. ok (with_plan p operations (f v)))
        ≡ map_ok (with_plan p operations) (m >>= λ v. ok (f v))
  map_ok-bind (ok v) f = refl
  map_ok-bind (err why) f = refl

  add_ids-Commutes : (c : ChannelType) (tb : ℕ) (ids : List ℕ) → Commutes (add_ids c tb ids)
  add_ids-Commutes ChannelType.none tb ids s = refl
  add_ids-Commutes memory tb ids s =
      map_ok-bind (push_all_at s.memory_channels tb ids) (λ v. record s { memory_channels = v })
  add_ids-Commutes port tb ids s =
      map_ok-bind (push_all_at s.port_channels tb ids) (λ v. record s { port_channels = v })
  add_ids-Commutes switch tb ids s =
      map_ok-bind (push_all_at s.nvls_channels tb ids) (λ v. record s { nvls_channels = v })

  block_channels-Commutes : (tb : ℕ) (rs : List ChannelRef) → Commutes (block_channels tb rs)
  block_channels-Commutes tb [] s = refl
  block_channels-Commutes tb (r ∷ rs) s =
      Commutes-read (convert_to_channel_type r.channel_type)
        (λ c s.
          read_buff r.buff >>= λ key. add_ids c tb r.channel_ids s >>= λ s. block_channels tb rs s)
        (λ c.
          Commutes-read (read_buff r.buff)
            (λ key s. add_ids c tb r.channel_ids s >>= λ s. block_channels tb rs s)
            (λ key.
              Commutes-then (add_ids c tb r.channel_ids) (block_channels tb rs)
                (add_ids-Commutes c tb r.channel_ids) (block_channels-Commutes tb rs)))
        s

  blocks_channels-Commutes : (bs : List Threadblock) → Commutes (blocks_channels bs)
  blocks_channels-Commutes [] s = refl
  blocks_channels-Commutes (b ∷ bs) s =
      Commutes-then (block_channels b.id b.channels) (blocks_channels bs)
        (block_channels-Commutes b.id b.channels) (blocks_channels-Commutes bs) s

  pub setup_block_channels-Commutes :
      (gpus : List GpuPlan) (gpu : GpuPlan) → Commutes (setup_block_channels gpus gpu)
  unfolding setup_block_channels
  setup_block_channels-Commutes gpus gpu s =
      Commutes-read (setup_channels (map gpu_channels gpus) s.channels)
        (λ channels s'. blocks_channels gpu.threadblocks record s' {
          channels = channels;
          memory_channels = resize (length gpu.threadblocks) s'.memory_channels;
          port_channels = resize (length gpu.threadblocks) s'.port_channels;
          nvls_channels = resize (length gpu.threadblocks) s'.nvls_channels;
        })
        (λ channels s'. blocks_channels-Commutes gpu.threadblocks _) s

  parse_remote_buffers-Commutes : (gpus : List GpuPlan) → Commutes (parse_remote_buffers gpus)
  unfolding parse_remote_buffers
  parse_remote_buffers-Commutes [] s = refl
  parse_remote_buffers-Commutes (g ∷ gs) s =
      Commutes-read
        (parse_remote_buffer g.id g.remote_buffers
          record (s.remote g.id) { count = λ c. 0; to_send = s.to_send })
        (λ b s'.
          parse_remote_buffers gs
            record s' { remote = update s'.remote g.id b; to_send = b.to_send })
        (λ b s'. parse_remote_buffers-Commutes gs _) s

  add_buffers-Commutes :
      (rank : ℕ) (c : ChannelType) (tb : ℕ) (ids : List ℕ)
      → Commutes (λ s. add_buffers (s.remote rank) c tb ids s)
  add_buffers-Commutes rank ChannelType.none tb ids s = refl
  add_buffers-Commutes rank switch tb ids s = refl
  add_buffers-Commutes rank port tb ids s =
      Commutes-read (buffer_entries (s.remote rank) port ids)
        (λ entries s'.
          push_all_at s'.port_buffers tb entries >>= λ v. ok record s' { port_buffers = v })
        (λ entries s'.
          map_ok-bind (push_all_at s'.port_buffers tb entries)
            (λ v. record s' { port_buffers = v }))
        s
  add_buffers-Commutes rank memory tb ids s =
      Commutes-read (buffer_entries (s.remote rank) memory ids)
        (λ entries s'.
          push_all_at s'.memory_buffers tb entries >>= λ v. ok record s' { memory_buffers = v })
        (λ entries s'.
          map_ok-bind (push_all_at s'.memory_buffers tb entries)
            (λ v. record s' { memory_buffers = v }))
        s

  block_buffers-Commutes : (rank tb : ℕ) (rs : List BufferIds) → Commutes (block_buffers rank tb rs)
  block_buffers-Commutes rank tb [] s = refl
  block_buffers-Commutes rank tb (r ∷ rs) s =
      Commutes-read (convert_to_channel_type r.access_channel_type)
        (λ c s. add_buffers (s.remote rank) c tb r.remote_buffer_ids s >>= λ s.
          block_buffers rank tb rs s)
        (λ c.
          Commutes-then (λ s. add_buffers (s.remote rank) c tb r.remote_buffer_ids s)
            (block_buffers rank tb rs) (add_buffers-Commutes rank c tb r.remote_buffer_ids)
            (block_buffers-Commutes rank tb rs))
        s

  blocks_buffers-Commutes : (rank : ℕ) (bs : List Threadblock) → Commutes (blocks_buffers rank bs)
  blocks_buffers-Commutes rank [] s = refl
  blocks_buffers-Commutes rank (b ∷ bs) s =
      Commutes-then (block_buffers rank b.id (or_default [] b.remote_buffer_refs))
        (blocks_buffers rank bs)
        (block_buffers-Commutes rank b.id (or_default [] b.remote_buffer_refs))
        (blocks_buffers-Commutes rank bs) s

  pub setup_remote_buffers-Commutes :
      (rank : ℕ) (gpus : List GpuPlan) (gpu : GpuPlan)
      → Commutes (setup_remote_buffers rank gpus gpu)
  unfolding setup_remote_buffers
  setup_remote_buffers-Commutes rank gpus gpu =
      Commutes-then (parse_remote_buffers gpus)
        (λ s'. blocks_buffers rank gpu.threadblocks record s' {
          memory_buffers = resize (length gpu.threadblocks) s'.memory_buffers;
          port_buffers = resize (length gpu.threadblocks) s'.port_buffers;
        })
        (parse_remote_buffers-Commutes gpus) (λ s'. blocks_buffers-Commutes rank gpu.threadblocks _)

-- The set-up of a rank
