-- ===== src/Scheduler/Fds/Init.antt =====
-- `fds_init` sets up a scheduler without messages; `fds_add_channel` and `fds_set_callback` keep it.
use refined_c.Base.{
  ℕ, zero, suc, ◌+◌, ◌<◌, ◌≤◌, ◌≡◌, ◌≢◌, refl, sym, ◌∙◌, true, false, some, List, [], ◌==◌, leb,
  ltb, if◌then◌else◌, ◌&&◌, arith, Bool-cases, inl, inr, ◌⊎◌, length, get_elem?, set, length-set,
  get_elem?-set_self, get_elem?-set_ne, lt_length_of_get_elem?,
}
use refined_c.Base.Run.{Returns}
use refined_c.Base.Int.{ℤ, pos, negsuc, is_zero}
use refined_c.Scheduler.Priority.Levels.{prio_level_init-level}
use refined_c.Scheduler.Queue.{null, Heap, first_slot, MessageQueue}
use refined_c.Scheduler.Npfp.{Callback}
use refined_c.Scheduler.Npfp.Pending.{Contents, IsScheduler}
use refined_c.Scheduler.Fds.{
  FdScheduler, System, fill, fds_init, fds_add_channel, fds_set_callback, nop_callback,
}

module _ {ℓ} {A : Type ℓ} where
  length-fill : (n i : ℕ) (x : A) (xs : List A) → length (fill n i x xs) ≡ length xs
  unfolding fill
  length-fill zero i x xs = refl
  length-fill (suc n) i x xs = length-fill n (i + 1) x (set xs i x) ∙ length-set xs i x

  get_elem?-fill :
      (n i j : ℕ) (x : A) (xs : List A)
      → i + n ≤ length xs
      → get_elem? (fill n i x xs) j ≡ (if leb i j && ltb j (i + n) then some x else get_elem? xs j)
  unfolding fill
  get_elem?-fill zero i j x xs h = ground arith
  get_elem?-fill (suc n) i j x xs h =
      get_elem?-fill n (i + 1) j x (set xs i x) (rw (length-set xs i x) (omega arith))
      ∙ elim (Bool-cases (i == j)) [
        | inl same ↦
            let e : i ≡ j = ground arith in
            let at : get_elem? (set xs i x) j ≡ some x =
              rw (← e) (get_elem?-set_self xs i x (omega arith)) in
            ground (arith, at)
        | inr other ↦
            let ne : i ≢ j = ground arith in rw (get_elem?-set_ne xs i j x ne) (ground arith)
      ]

  -- An array that was filled from its start to its end.
  get_elem?-filled :
      (n j : ℕ) (x : A) (xs : List A) → length xs ≡ n → j < n → get_elem? (fill n 0 x xs) j ≡ some x
  get_elem?-filled n j x xs h lt = get_elem?-fill n 0 j x xs (omega arith) ∙ ground arith

-- Memory for a scheduler: arrays of the right lengths, with anything in them.
pub record HasRoom (fds : FdScheduler) : Type 0 where
  pub channels : length fds.input_channels ≡ 16
  pub callbacks : length fds.sched.callbacks ≡ 256
  pub pending : length fds.sched.pending ≡ 256
  pub words : length fds.sched.prio_levels.bits ≡ 4

abbrev pub no_messages : Contents
no_messages p = []

-- The scheduler has its arrays, and counts its channels.
pub record IsFds (h : Heap) (fds : FdScheduler) (contents : Contents) : Type 0 where
  pub channels : length fds.input_channels ≡ 16
  pub count : fds.num_channels ≤ 16
  pub scheduler : IsScheduler h fds.sched contents

some-injective {ℓ} : {A : Type ℓ} {a b : A} → some a ≡ some b → a ≡ b
some-injective e = cc

nop-in_range :
    (nop : Callback) (cs : List Callback) (t : ℕ) (c : Callback)
    → length cs ≡ 256
    → nop.prio < 256
    → get_elem? (fill 256 0 nop cs) t ≡ some c
    → c.prio < 256
nop-in_range nop cs t c h lt e =
    let in_list = lt_length_of_get_elem? (fill 256 0 nop cs) t e in
    let small : t < 256 = omega (arith, length-fill 256 0 nop cs) in
    let same : nop ≡ c = some-injective (sym (get_elem?-filled 256 t nop cs h small) ∙ e) in
    rw (← same) lt

-- After `fds_init` there is a well-formed scheduler that has no channels and no messages, whatever was
-- in the memory before.
pub fds_init-IsFds :
    (h : Heap) (fds : FdScheduler)
    → HasRoom fds
    → IsFds h (fds_init fds) no_messages × ((fds_init fds).num_channels ≡ 0)
unfolding fds_init
fds_init-IsFds h fds room =
    let (bitmap, clear) = prio_level_init-level fds.sched.prio_levels room.words in
    let nop : Callback = record { prio = 0; f = nop_callback } in
    let q : MessageQueue = record { first = null; last = first_slot } in
    (
      record {
        channels = room.channels;
        count = omega arith;
        scheduler = record {
          callbacks = record {
            all_types = length-fill 256 0 nop fds.sched.callbacks ∙ room.callbacks;
            in_range =
                λ t c e. nop-in_range nop fds.sched.callbacks t c room.callbacks (omega arith) e;
          };
          all_priorities = length-fill 256 0 q fds.sched.pending ∙ room.pending;
          queues = λ p lt. (
            q,
            get_elem?-filled 256 p q fds.sched.pending room.pending lt,
            record { chain = refl; last = refl },
          );
          apart = λ p r a lp lr ne i. refl;
          bitmap = bitmap;
          marked = λ p lt. clear p;
        };
      },
      refl,
    )

-- What `fds_add_channel` may do.
pub record ChannelAdded (h : Heap) (fds : FdScheduler) (contents : Contents) (fd err : ℤ)
    (fds' : FdScheduler) : Type 0 where
  pub is_fds : IsFds h fds' contents
  pub same_sched : fds'.sched ≡ fds.sched
  pub count :
      ((err ≡ pos 0)
        × (fds'.num_channels ≡ fds.num_channels + 1)
        × (get_elem? fds'.input_channels fds.num_channels ≡ some fd))
      ⊎ ((err ≢ pos 0) × (fds' ≡ fds))
  pub others :
      (i : ℕ)
      → i < fds.num_channels
      → get_elem? fds'.input_channels i ≡ get_elem? fds.input_channels i

zero-cases : (z : ℤ) → ((is_zero z ≡ true) × (z ≡ pos 0)) ⊎ ((is_zero z ≡ false) × (z ≢ pos 0))
zero-cases (pos zero) = inl (refl, refl)
zero-cases (pos (suc n)) = inr (refl, λ e. cc)
zero-cases (negsuc n) = inr (refl, λ e. cc)

-- `fds_add_channel` with fewer than 16 channels ends: it returns the result of `fcntl`; if that is 0 the
-- channel is added behind the others, and otherwise nothing changes. The messages stay.
pub fds_add_channel-ChannelAdded :
    {W : Type 0} (sys : System W) (w : W) (h : Heap) (fds : FdScheduler) (contents : Contents)
    (fd : ℤ)
    → IsFds h fds contents
    → fds.num_channels < 16
    → Returns
        (fds_add_channel sys w fds fd)
        (λ (err, fds', w'). (err ≡ (sys.fcntl w fd).0) × ChannelAdded h fds contents fd err fds')
unfolding fds_add_channel
fds_add_channel-ChannelAdded sys w h fds contents fd is lt =
    let room : ltb fds.num_channels 16 ≡ true = ground arith in
    elim (zero-cases (sys.fcntl w fd).0) [
      | inl (zero_, e) ↦ (
        (
          pos 0,
          record fds {
            input_channels = set fds.input_channels fds.num_channels fd;
            num_channels = fds.num_channels + 1;
          },
          (sys.fcntl w fd).1,
        ),
        rw (room, zero_),
        (
          sym e,
          record {
            is_fds = record {
              channels = length-set fds.input_channels fds.num_channels fd ∙ is.channels;
              count = omega arith;
              scheduler = is.scheduler;
            };
            same_sched = refl;
            count = inl (
              refl,
              refl,
              get_elem?-set_self fds.input_channels fds.num_channels fd
                  (omega (arith, is.channels)),
            );
            others =
                λ i li. get_elem?-set_ne fds.input_channels fds.num_channels i fd (omega arith);
          },
        ),
      )
      | inr (nonzero, ne) ↦ (
        ((sys.fcntl w fd).0, fds, (sys.fcntl w fd).1),
        rw (room, nonzero),
        (
          refl,
          record { is_fds = is; same_sched = refl; count = inr (ne, refl); others = λ i li. refl },
        ),
      )
    ]

-- `fds_set_callback` with a priority that has a queue registers the callback for its type, keeps those
-- of the other types, and keeps the messages.
pub fds_set_callback-IsFds :
    (h : Heap) (fds : FdScheduler) (contents : Contents) (type f prio : ℕ)
    → IsFds h fds contents
    → type < 256
    → prio < 256
    → IsFds h (fds_set_callback fds type f prio) contents
      × (get_elem? (fds_set_callback fds type f prio).sched.callbacks type
          ≡ some (record { prio = prio; f = f }))
      × ((t : ℕ)
          → t ≢ type
          → get_elem? (fds_set_callback fds type f prio).sched.callbacks t
            ≡ get_elem? fds.sched.callbacks t)
unfolding fds_set_callback
fds_set_callback-IsFds h fds contents type f prio is lt lp =
    let s = is.scheduler in
    let c : Callback = record { prio = prio; f = f } in
    let at = get_elem?-set_self fds.sched.callbacks type c (omega (arith, s.callbacks.all_types)) in
    (
      record {
        channels = is.channels;
        count = is.count;
        scheduler = record {
          callbacks = record {
            all_types = length-set fds.sched.callbacks type c ∙ s.callbacks.all_types;
            in_range = λ t d e. elim (Bool-cases (type == t)) [
              | inl same ↦
                  let eq : type ≡ t = ground arith in
                  let at_t : get_elem? (set fds.sched.callbacks type c) t ≡ some c = rw (← eq) at in
                  let this : c ≡ d = some-injective (sym at_t ∙ e) in rw (← this) lp
              | inr other ↦
                  let ne : type ≢ t = ground arith in
                  s.callbacks.in_range t d
                    (sym (get_elem?-set_ne fds.sched.callbacks type t c ne) ∙ e)
            ];
          };
          all_priorities = s.all_priorities;
          queues = s.queues;
          apart = s.apart;
          bitmap = s.bitmap;
          marked = s.marked;
        };
      },
      at,
      λ t ne. get_elem?-set_ne fds.sched.callbacks type t c (λ e. ne (sym e)),
    )
