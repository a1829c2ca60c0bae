-- ===== src/Scheduler/Fds/Channels.antt =====
-- `check_channels` reads every channel once until it has nothing left.
use mathlib.Core.Path.{subst}
use refined_c.Base.{
  ℕ, suc, ◌+◌, ◌<◌, ◌≡◌, refl, sym, ap, ◌∙◌, Bool, true, false, some, List, [], ◌∷◌, ◌++◌, ◌==◌,
  if◌then◌else◌, ◌||◌, arith, get_elem?, length,
}
use refined_c.Base.Run.{Returns}
use refined_c.Base.Int.{ℤ, pos, is_zero, is_negative}
use refined_c.Scheduler.Queue.{Ptr, Message}
use refined_c.Scheduler.Npfp.{Callback}
use refined_c.Scheduler.Npfp.Pending.{Contents, IsScheduler}
use refined_c.Scheduler.Fds.{System, State, check_loop, check_channels}
use refined_c.Scheduler.Fds.Arrivals.{
  Pending, view, arrival, arrivals, Receives, in_use, is_empty, size, Covers, Arrived,
}
use refined_c.Scheduler.Fds.Receive.{receive_messages-Ends}

abbrev pub Reads : Type 0
Reads = List (Ptr × List ℕ)

-- The reads of all channels, in their order.
abbrev pub all_reads : List Reads → Reads
all_reads [] = []
all_reads (ds ∷ dss) = ds ++ all_reads dss

-- What the system does on some channels, one after the other: each delivers messages and then has
-- nothing left to read.
pub data Sweep {W : Type 0} (sys : System W)
    : List ℤ → (Ptr → Bool) → W → List Reads → W → Type 0 where
  swept : (used : Ptr → Bool) (w : W) → Sweep sys [] used w [] w
  channel :
      (fd : ℤ) (fds : List ℤ) (used : Ptr → Bool) (w w1 w2 : W) (ds : Reads) (dss : List Reads)
      (e : ℕ)
      → Receives sys fd used w ds e w1
      → (e == sys.would_block || e == sys.again) ≡ true
      → Sweep sys fds (in_use used ds) w1 dss w2
      → Sweep sys (fd ∷ fds) used w (ds ∷ dss) w2

in_use-append :
    (used : Ptr → Bool) (ds es : Reads) → in_use used (ds ++ es) ≡ in_use (in_use used ds) es
in_use-append used [] es = refl
in_use-append used ((a, payload) ∷ ds) es = in_use-append (λ b. (b == a) || used b) ds es

arrivals-append :
    (identify : Message → ℕ) (cs : List Callback) (pending : Pending) (ds es : Reads)
    → arrivals identify cs pending (ds ++ es)
      ≡ arrivals identify cs (arrivals identify cs pending ds) es
arrivals-append identify cs pending [] es = refl
arrivals-append identify cs pending ((a, payload) ∷ ds) es =
    arrivals-append identify cs (arrival identify cs pending payload) ds es

is_empty-append :
    (ds es : Reads) → is_empty (ds ++ es) ≡ (if is_empty ds then is_empty es else false)
is_empty-append [] es = refl
is_empty-append (d ∷ ds) es = refl

size-append : (ds es : Reads) → size (ds ++ es) ≡ size ds + size es
size-append [] es = omega arith
size-append (d ∷ ds) es = omega (arith, size-append ds es)

Arrived-append :
    {W : Type 0} (identify : Message → ℕ) (st st1 st2 : State W) (contents : Contents)
    (ds es : Reads)
    → (one : Arrived identify st contents ds st1) → Arrived identify st1 one.contents' es st2
    → Arrived identify st contents (ds ++ es) st2
Arrived-append identify st st1 st2 contents ds es one two = record {
  contents' = two.contents';
  scheduler = two.scheduler;
  pending =
      two.pending
      ∙ (ap (λ t. arrivals identify t (view one.contents') es) one.same_callbacks
          ∙ (ap (λ t. arrivals identify st.fds.sched.callbacks t es) one.pending
              ∙ sym (arrivals-append identify st.fds.sched.callbacks (view contents) ds es)));
  same_callbacks = two.same_callbacks ∙ one.same_callbacks;
  same_channels = two.same_channels ∙ one.same_channels;
  same_count = two.same_count ∙ one.same_count;
}

-- The state after all channels were read.
pub record Checked {W : Type 0} (identify : Message → ℕ) (st : State W) (contents : Contents)
    (used : Ptr → Bool) (ds : Reads) (flag : ℤ) (w : W) (r : ℤ × State W) : Type 0 where
  pub result : r.0 ≡ (if is_empty ds then flag else pos 1)
  pub world : r.1.world ≡ w
  pub covers : Covers (in_use used ds) r.1.heap
  pub arrived : Arrived identify st contents ds r.1

-- The result of one channel.
is_zero-flag : (none_read : Bool) → is_zero (if none_read then pos 0 else pos 1) ≡ none_read
is_zero-flag true = refl
is_zero-flag false = refl

is_negative-flag : (none_read : Bool) → is_negative (if none_read then pos 0 else pos 1) ≡ false
is_negative-flag true = refl
is_negative-flag false = refl

flags :
    (here there : Bool) (flag : ℤ) {both : Bool}
    → both ≡ (if here then there else false)
    → (if there then if here then flag else pos 1 else pos 1) ≡ (if both then flag else pos 1)
flags true true flag e = rw e
flags true false flag e = rw e
flags false true flag e = rw e
flags false false flag e = rw e

module _ {W : Type 0} (sys : System W) (identify : Message → ℕ)
    (types : (m : Message) → identify m < 256) where
  check_loop-Checked :
      (fuel ch : ℕ) (flag : ℤ) (st : State W) (contents : Contents) (chans : List ℤ)
      → {used : Ptr → Bool} {w : W} {dss : List Reads} {w' : W}
      → IsScheduler st.heap st.fds.sched contents
      → Covers used st.heap
      → st.world ≡ w
      → ((i : ℕ) → i < length chans → get_elem? st.fds.input_channels (ch + i) ≡ get_elem? chans i)
      → Sweep sys chans used w dss w'
      → size (all_reads dss) < fuel
      → Returns
          (check_loop sys identify fuel (length chans) ch flag st)
          (Checked identify st contents used (all_reads dss) flag w')
  unfolding check_loop
  check_loop-Checked fuel ch flag st contents [] is covers at here (swept used w) lt = (
    (flag, st),
    refl,
    record {
      result = refl;
      world = at;
      covers = covers;
      arrived = record {
        contents' = contents;
        scheduler = is;
        pending = refl;
        same_callbacks = refl;
        same_channels = refl;
        same_count = refl;
      };
    },
  )
  check_loop-Checked fuel ch flag st contents (fd ∷ fds) is covers at here
        (channel _ _ used w w1 w2 ds dss e rs left sweep) lt =
      let sizes = size-append ds (all_reads dss) in
      let ((r, st1), run, ends) =
        receive_messages-Ends sys identify types fuel st contents fd used ds e w1 is covers
          (subst (λ t. Receives sys fd used t ds e w1) (sym at) rs) (omega arith) in
      let arr = ends.arrived in
      let flag' = if is_empty ds then flag else pos 1 in
      let value : r ≡ (if is_empty ds then pos 0 else pos 1) = ends.result ∙ rw left in
      let (res, run', chk) =
        check_loop-Checked fuel (ch + 1) flag' st1 arr.contents' fds arr.scheduler ends.covers
          ends.world
          (λ i li.
            ap (λ t. get_elem? t (ch + 1 + i)) arr.same_channels
            ∙ (ap (get_elem? st.fds.input_channels) (omega arith) ∙ here (suc i) (omega arith)))
          sweep (omega arith) in
      let first : get_elem? st.fds.input_channels ch ≡ some fd =
        ap (get_elem? st.fds.input_channels) (omega arith) ∙ here 0 (omega arith) in
      let zero_result : is_zero r ≡ is_empty ds = ap is_zero value ∙ is_zero-flag (is_empty ds) in
      let no_error : is_negative r ≡ false =
        ap is_negative value ∙ is_negative-flag (is_empty ds) in
      (
        res,
        rw (first, run, no_error, zero_result, run'),
        record {
          result =
              chk.result
              ∙ flags (is_empty ds) (is_empty (all_reads dss)) flag
                  (is_empty-append ds (all_reads dss));
          world = chk.world;
          covers =
              subst (λ t. Covers t res.1.heap) (sym (in_use-append used ds (all_reads dss)))
                chk.covers;
          arrived =
              Arrived-append identify st st1 res.1 contents ds (all_reads dss) arr chk.arrived;
        },
      )

-- `check_channels` on channels that each deliver some messages and then have nothing left to read ends.
-- The messages of all channels, in the order of the channels and of arrival, are then pending behind the
-- others of their priorities. The result is 1 if there were any and 0 if not.
pub check_channels-Checked :
    {W : Type 0} (sys : System W) (identify : Message → ℕ)
    → ((m : Message) → identify m < 256)
    → (fuel : ℕ) (st : State W) (contents : Contents) (chans : List ℤ) (used : Ptr → Bool)
      (dss : List Reads) (w : W)
    → IsScheduler st.heap st.fds.sched contents
    → Covers used st.heap
    → length chans ≡ st.fds.num_channels
    → ((i : ℕ) → i < length chans → get_elem? st.fds.input_channels i ≡ get_elem? chans i)
    → Sweep sys chans used st.world dss w
    → size (all_reads dss) < fuel
    → Returns
        (check_channels sys identify fuel st)
        (Checked identify st contents used (all_reads dss) (pos 0) w)
unfolding check_channels
check_channels-Checked sys identify types fuel st contents chans used dss w is covers count same
      sweep lt =
    subst
      (λ n.
        Returns (check_loop sys identify fuel n 0 (pos 0) st)
          (Checked identify st contents used (all_reads dss) (pos 0) w))
      count
      (check_loop-Checked sys identify types fuel 0 (pos 0) st contents chans is covers refl
        (λ i li. ap (get_elem? st.fds.input_channels) (omega arith) ∙ same i li) sweep lt)
